-- ===== src/Handlers/Lists/Shares.antt =====
-- What handleGetShareFilelist comes to.
use Prim.Native.String.{String}
use filehub_cloud.Base.{
  ℕ, Option, none, some, List, [], ◌∷◌, map, ℤ, ◌≡◌, ◌⊎◌, refl, inl, inr, ap, length,
}
use filehub_cloud.Schema.Tables.{ShareFile, FileInfo}
use filehub_cloud.Schema.Results.{Cell, string}
use filehub_cloud.Schema.Statements.{respond, apply, limited, share_page, share_page_columns}
use filehub_cloud.Program.Defs.{View, Wp, ◌>>=◌, done}
use filehub_cloud.Program.Servers.{Server, IsDocumented, Ends, Wp-run}
use filehub_cloud.Common.Records.{with_row}
use filehub_cloud.Common.Records.Collecting.{row_of, collect-map, page_set, Wp-page}
use filehub_cloud.Conn.Mysql.{execute_query, next, get_int, get_string, new_result_set, atoi}
use filehub_cloud.Api.Json.{Response, File, int, text, code_body}
use filehub_cloud.Handlers.Lists.{
  handle_get_share_filelist, share_files_count, list_share_files, share_files_page,
  share_files_body, share_file,
}

-- A shared file, as the answer shows it: its status is always 0.
abbrev pub shown_share : ShareFile × FileInfo → File
shown_share (r, i) =
    ("user", text r.user)
    ∷ ("md5", text r.md5)
    ∷ ("file_name", text r.file_name)
    ∷ ("share_status", int 0)
    ∷ ("pv", int r.pv)
    ∷ ("create_time", text r.create_time)
    ∷ ("url", text i.url)
    ∷ ("size", int (atoi (string i.size)))
    ∷ ("type", text i.type)
    ∷ []

-- The page of the shared files, with the number of all of them; or the code 1.
abbrev pub ShareListed : ℤ → ℤ → View → Option Response → View → Type 0
ShareListed start size v none w = ⊥
ShareListed start size v (some r) w =
    (w ≡ v)
    × ((r ≡ some (code_body 1))
        ⊎ ((rows : List (ShareFile × FileInfo)) × (limited start size (share_page v.tables)
              ≡ some rows)
            × (r
                ≡ some
                    (share_files_body (length v.tables.share_file_list) (map shown_share rows)))))

abbrev page_fields : List String
page_fields = "user" ∷ "md5" ∷ "file_name" ∷ "pv" ∷ "create_time" ∷ "url" ∷ "size" ∷ "type" ∷ []

share_file-shown :
    (a : ShareFile × FileInfo) (rest : List (List Cell))
    → share_file
        (row_of (page_set page_fields share_page_columns []).key_map (share_page_columns a) rest)
      ≡ shown_share a
unfolding share_file get_int get_string new_result_set
share_file-shown (p, i) rest = refl

page-shown :
    (total : ℕ) (rows : List (ShareFile × FileInfo))
    → share_files_page total (some (page_set page_fields share_page_columns rows))
      ≡ some (share_files_body total (map shown_share rows))
unfolding share_files_page new_result_set
page-shown total rows =
    ap (λ shown. some (share_files_body total shown))
      (collect-map share_page_columns share_file shown_share
        (page_set page_fields share_page_columns rows) rows refl share_file-shown)

list-Listed :
    (start size : ℤ) (v : View)
    → Wp
        (list_share_files start size (some (length v.tables.share_file_list)))
        (ShareListed start size v)
        v
unfolding list_share_files execute_query respond apply ◌>>=◌ share_files_page
list-Listed start size v = (
  (refl, inl refl),
  Wp-page page_fields share_page_columns (limited start size (share_page v.tables))
      (λ r. done (share_files_page (length v.tables.share_file_list) r)) (ShareListed start size v)
      v (refl, inl refl)
      (λ rows e. (refl, inr (rows, e, page-shown (length v.tables.share_file_list) rows))),
)

pub get-Listed :
    (start size : ℤ) (v : View)
    → Wp (handle_get_share_filelist start size) (ShareListed start size v) v
unfolding handle_get_share_filelist share_files_count list_share_files with_row execute_query next
    new_result_set get_int respond apply ◌>>=◌
get-Listed start size v = ((refl, inl refl), list-Listed start size v)

module _ (S : Server) (documented : IsDocumented S) where
  -- Every run of handleGetShareFilelist ends, and no service has changed. Its answer has the code 1; or the
  -- limit is accepted and the answer is the page of the shared files, each with the url, the size and the
  -- type of its stored file and the status 0, with their number and that of all shares.
  pub share_list-Listed_run :
      (start size : ℤ) (w : S.World)
      → Ends S documented
          (handle_get_share_filelist start size)
          (ShareListed start size (S.view w))
          w
  share_list-Listed_run start size w =
      Wp-run S documented (handle_get_share_filelist start size) (ShareListed start size (S.view w))
        w (get-Listed start size (S.view w))
