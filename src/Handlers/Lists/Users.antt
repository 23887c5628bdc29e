-- ===== src/Handlers/Lists/Users.antt =====
-- What getUserFileList comes to.
use Prim.Native.String.{String}
use filehub_cloud.Base.{
  ℕ, Option, none, some, List, [], ◌∷◌, map, ℤ, Text, ◌≡◌, ◌⊎◌, refl, inl, inr, ap, count, ◌==◌,
  arith, Bool-cases,
}
use filehub_cloud.Schema.Tables.{UserFile, FileInfo, of_user}
use filehub_cloud.Schema.Results.{Cell, string}
use filehub_cloud.Schema.Statements.{respond, apply, limited, user_page, page_columns}
use filehub_cloud.Program.Defs.{View, Wp, ◌>>=◌, done}
use filehub_cloud.Program.Servers.{Server, IsDocumented, Ends, Wp-run}
use filehub_cloud.Common.Records.{with_row}
use filehub_cloud.Common.Records.Collecting.{row_of, collect-map, page_set, Wp-page}
use filehub_cloud.Conn.Mysql.{execute_query, next, get_int, get_string, new_result_set, atoi}
use filehub_cloud.Api.Json.{Response, File, int, text, code_body}
use filehub_cloud.Handlers.Lists.{
  get_user_file_list, user_files_count, list_user_files, user_files_page, user_files_body,
  no_files_body, user_file,
}

-- A file of the user, as the answer shows it.
abbrev pub shown_file : UserFile × FileInfo → File
shown_file (r, i) =
    ("user", text r.user)
    ∷ ("md5", text r.md5)
    ∷ ("create_time", text r.create_time)
    ∷ ("file_name", text r.file_name)
    ∷ ("share_status", int r.shared_status)
    ∷ ("pv", int r.pv)
    ∷ ("url", text i.url)
    ∷ ("size", int (atoi (string i.size)))
    ∷ ("type", text i.type)
    ∷ []

-- The page of the user's files, with the number of all of them; or the code 1.
abbrev pub UserListed : Text → ℤ → ℤ → View → Option Response → View → Type 0
UserListed user start size v none w = ⊥
UserListed user start size v (some r) w =
    (w ≡ v)
    × ((r ≡ some (code_body 1))
        ⊎ (((count (of_user user) v.tables.user_file_list ≡ 0) × (r ≡ some no_files_body))
            ⊎ ((rows : List (UserFile × FileInfo)) × (limited start size (user_page user v.tables)
                  ≡ some rows)
                × (r
                    ≡ some (
                        user_files_body (count (of_user user) v.tables.user_file_list)
                          (map shown_file rows))))))

abbrev page_fields : List String
page_fields =
    "user" ∷ "md5" ∷ "create_time" ∷ "file_name" ∷ "shared_status" ∷ "pv" ∷ "url" ∷ "size" ∷ "type"
    ∷ []

user_file-shown :
    (a : UserFile × FileInfo) (rest : List (List Cell))
    → user_file (row_of (page_set page_fields page_columns []).key_map (page_columns a) rest)
      ≡ shown_file a
unfolding user_file get_int get_string new_result_set
user_file-shown (p, i) rest = refl

page-shown :
    (total : ℕ) (rows : List (UserFile × FileInfo))
    → user_files_page total (some (page_set page_fields page_columns rows))
      ≡ some (user_files_body total (map shown_file rows))
unfolding user_files_page new_result_set
page-shown total rows =
    ap (λ shown. some (user_files_body total shown))
      (collect-map page_columns user_file shown_file (page_set page_fields page_columns rows) rows
        refl user_file-shown)

list-Listed :
    (user : Text) (start size : ℤ) (v : View)
    → Wp
        (list_user_files user start size (some (count (of_user user) v.tables.user_file_list)))
        (UserListed user start size v)
        v
unfolding list_user_files execute_query respond apply ◌>>=◌ user_files_page
list-Listed user start size v = elim (Bool-cases (total == 0)) [
  | inl e ↦ rw e (refl, inr (inl (ground arith, refl)))
  | inr e ↦ rw e (
    (refl, inl refl),
    Wp-page page_fields page_columns (limited start size (user_page user v.tables))
        (λ r. done (user_files_page total r)) (UserListed user start size v) v (refl, inl refl)
        (λ rows h. (refl, inr (inr (rows, h, page-shown total rows)))),
  )
]
  where
    total : ℕ
    total = count (of_user user) v.tables.user_file_list

pub get-Listed :
    (user : Text) (start size : ℤ) (v : View)
    → Wp (get_user_file_list user start size) (UserListed user start size v) v
unfolding get_user_file_list user_files_count list_user_files with_row execute_query next
    new_result_set get_int respond apply ◌>>=◌
get-Listed user start size v = ((refl, inl refl), list-Listed user start size v)

module _ (S : Server) (documented : IsDocumented S) where
  -- Every run of getUserFileList ends, and no service has changed. Its answer has the code 1; or the user
  -- has no file and the answer says so; or the limit is accepted and the answer is the page of the user's
  -- files, each with the url, the size and the type of its stored file, with their number and that of
  -- all the user's files.
  pub user_list-Listed_run :
      (user : Text) (start size : ℤ) (w : S.World)
      → Ends S documented
          (get_user_file_list user start size)
          (UserListed user start size (S.view w))
          w
  user_list-Listed_run user start size w =
      Wp-run S documented (get_user_file_list user start size)
        (UserListed user start size (S.view w)) w (get-Listed user start size (S.view w))
