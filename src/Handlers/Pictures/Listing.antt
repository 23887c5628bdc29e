-- ===== src/Handlers/Pictures/Listing.antt =====
-- What handleGetSharePicturesList comes to.
use Prim.Native.String.{String}
use filehub_cloud.Base.{
  ℕ, Option, none, some, List, [], ◌∷◌, map, ℤ, Text, ◌≡◌, ◌⊎◌, refl, inl, inr, ap, count,
}
use filehub_cloud.Schema.Tables.{SharePicture, FileInfo, picture_of}
use filehub_cloud.Schema.Results.{Cell, string}
use filehub_cloud.Schema.Statements.{respond, apply, limited, picture_page, picture_page_columns}
use filehub_cloud.Program.Defs.{View, Wp, ◌>>=◌, done}
use filehub_cloud.Program.Servers.{Server, IsDocumented, Ends, Wp-run}
use filehub_cloud.Common.Records.{with_row}
use filehub_cloud.Common.Records.Collecting.{row_of, collect-map, page_set, Wp-page}
use filehub_cloud.Conn.Mysql.{execute_query, next, get_int, get_string, new_result_set, atoi}
use filehub_cloud.Api.Json.{Response, File, int, text}
use filehub_cloud.Handlers.Pictures.{
  handle_get_share_pictures_list, share_picture_count, list_pictures, pictures_page, pictures_body,
  picture_file,
}

-- A picture and its file, as the answer shows them.
abbrev pub shown_picture : SharePicture × FileInfo → File
shown_picture (p, i) =
    ("user", text p.user)
    ∷ ("filemd5", text p.filemd5)
    ∷ ("file_name", text p.file_name)
    ∷ ("urlmd5", text p.urlmd5)
    ∷ ("pv", int p.pv)
    ∷ ("create_time", text p.create_time)
    ∷ ("size", int (atoi (string i.size)))
    ∷ []

-- The page of the user's pictures, with the number of all of them; or an answer with no member.
abbrev pub Paged : Text → ℤ → ℤ → View → Option Response → View → Type 0
Paged user start size v none w = ⊥
Paged user start size v (some r) w =
    (w ≡ v)
    × ((r ≡ some [])
        ⊎ ((rows : List (SharePicture × FileInfo)) × (limited start size
                (picture_page user v.tables)
              ≡ some rows)
            × (r
                ≡ some (
                    pictures_body (count (picture_of user) v.tables.share_picture_list)
                      (map shown_picture rows)))))

picture_file-shown :
    (a : SharePicture × FileInfo) (rest : List (List Cell))
    → picture_file (
        row_of
          (new_result_set (record {
            fields =
                "user" ∷ "filemd5" ∷ "file_name" ∷ "urlmd5" ∷ "pv" ∷ "create_time" ∷ "size" ∷ [];
            rows = [];
          })).key_map
          (picture_page_columns a)
          rest)
      ≡ shown_picture a
unfolding picture_file get_int get_string new_result_set
picture_file-shown (p, i) rest = refl

abbrev page_fields : List String
page_fields = "user" ∷ "filemd5" ∷ "file_name" ∷ "urlmd5" ∷ "pv" ∷ "create_time" ∷ "size" ∷ []

page-shown :
    (total : ℕ) (rows : List (SharePicture × FileInfo))
    → pictures_page total (some (page_set page_fields picture_page_columns rows))
      ≡ some (pictures_body total (map shown_picture rows))
unfolding pictures_page new_result_set
page-shown total rows =
    ap (λ shown. some (pictures_body total shown))
      (collect-map picture_page_columns picture_file shown_picture
        (page_set page_fields picture_page_columns rows) rows refl picture_file-shown)

list-Paged :
    (user : Text) (start size : ℤ) (v : View)
    → Wp
        (list_pictures user start size (some (count (picture_of user) v.tables.share_picture_list)))
        (Paged user start size v)
        v
unfolding list_pictures execute_query respond apply ◌>>=◌ pictures_page
list-Paged user start size v = (
  (refl, inl refl),
  Wp-page page_fields picture_page_columns (limited start size (picture_page user v.tables))
      (λ r. done (pictures_page total r)) (Paged user start size v) v (refl, inl refl)
      (λ rows e. (refl, inr (rows, e, page-shown total rows))),
)
  where
    total : ℕ
    total = count (picture_of user) v.tables.share_picture_list

get-Paged :
    (user : Text) (start size : ℤ) (v : View)
    → Wp (handle_get_share_pictures_list user start size) (Paged user start size v) v
unfolding handle_get_share_pictures_list share_picture_count list_pictures with_row execute_query
    next new_result_set get_int respond apply ◌>>=◌
get-Paged user start size v = ((refl, inl refl), list-Paged user start size v)

module _ (S : Server) (documented : IsDocumented S) where
  -- Every run of handleGetSharePicturesList ends, and no service has changed. Either its answer has no
  -- member; or the limit is accepted and the answer is the page of the user's pictures, each with the
  -- size of its file, with their number and that of all the user's pictures.
  pub list-Paged_run :
      (user : Text) (start size : ℤ) (w : S.World)
      → Ends S documented
          (handle_get_share_pictures_list user start size)
          (Paged user start size (S.view w))
          w
  list-Paged_run user start size w =
      Wp-run S documented (handle_get_share_pictures_list user start size)
        (Paged user start size (S.view w)) w (get-Paged user start size (S.view w))
