-- ===== src/Handlers/Lists.antt =====
-- File lists: api/api_myfiles.cc, and the counts and the plain list of api/api_sharefiles.cc.
pub mod Users
pub mod Shares
use filehub_cloud.Base.{
  ℕ, ◌==◌, Option, none, some, List, [], ◌∷◌, ◌++◌, ℤ, Text, if◌then◌else◌, length, ltb,
}
use filehub_cloud.Schema.Statements.{
  count_user_files, page_user_files, count_share_files, page_share_files,
}
use filehub_cloud.Program.Defs.{Prog, done, ◌>>=◌}
use filehub_cloud.Conn.Mysql.{CResultSet, get_int, get_string, execute_query}
use filehub_cloud.Common.Records.{with_row, collect}
use filehub_cloud.Api.Json.{Response, Body, File, leaf, int, text, files, code_body}

-- getUserFilesCount and handleUserFilesCount; none for -1.
unfoldable pub user_files_count : Text → Prog (Option ℕ)
user_files_count user_name = do
  result_set ← execute_query (count_user_files user_name)
  done (with_row none (λ row. some (get_int row "count(*)")) result_set)

-- encodeCountJson and encodeSharefilesJson: a total only with the code 0.
abbrev pub total_body : Option ℕ → Body
total_body none = code_body 1
total_body (some total) = ("code", leaf (int 0)) ∷ ("total", leaf (int total)) ∷ []

pub user_file : CResultSet → File
user_file r =
    ("user", text (get_string r "user"))
    ∷ ("md5", text (get_string r "md5"))
    ∷ ("create_time", text (get_string r "create_time"))
    ∷ ("file_name", text (get_string r "file_name"))
    ∷ ("share_status", int (get_int r "shared_status"))
    ∷ ("pv", int (get_int r "pv"))
    ∷ ("url", text (get_string r "url"))
    ∷ ("size", int (get_int r "size"))
    ∷ ("type", text (get_string r "type"))
    ∷ []

abbrev pub no_files_body : Body
no_files_body = ("code", leaf (int 0)) ∷ ("count", leaf (int 0)) ∷ ("total", leaf (int 0)) ∷ []

-- No row leaves `files` the null value, which is written all the same.
abbrev pub user_files_body : ℕ → List File → Body
user_files_body total rows =
    ("code", leaf (int 0))
    ∷ ("total", leaf (int total))
    ∷ ("files", files rows)
    ∷ ("count", leaf (int (length rows)))
    ∷ []

pub user_files_page : ℕ → Option CResultSet → Response
unfolding collect user_file
user_files_page total none = some (code_body 1)
user_files_page total (some r) = some (user_files_body total (collect user_file r))

-- No page is asked for if there is no file.
pub list_user_files : Text → ℤ → ℤ → Option ℕ → Prog Response
unfolding user_files_page
list_user_files user_name start size none = done (some (code_body 1))
list_user_files user_name start size (some total) =
    if total == 0
    then done (some no_files_body)
    else execute_query (page_user_files user_name start size) >>= λ result_set.
        done (user_files_page total result_set)

pub get_user_file_list : Text → ℤ → ℤ → Prog Response
unfolding list_user_files user_files_count
get_user_file_list user_name start size = do
  total ← user_files_count user_name
  list_user_files user_name start size total

-- none for the result 1. A result without a row leaves the count at 0.
unfoldable pub share_files_count : Prog (Option ℕ)
share_files_count = do
  result_set ← execute_query count_share_files
  done (elim result_set [
    | none ↦ none
    | some r ↦ with_row (some 0) (λ row. some (get_int row "count(*)")) (some r)
  ])

-- `share_status` is read by that name, which is no column of the result.
pub share_file : CResultSet → File
share_file r =
    ("user", text (get_string r "user"))
    ∷ ("md5", text (get_string r "md5"))
    ∷ ("file_name", text (get_string r "file_name"))
    ∷ ("share_status", int (get_int r "share_status"))
    ∷ ("pv", int (get_int r "pv"))
    ∷ ("create_time", text (get_string r "create_time"))
    ∷ ("url", text (get_string r "url"))
    ∷ ("size", int (get_int r "size"))
    ∷ ("type", text (get_string r "type"))
    ∷ []

pub share_files_body : ℕ → List File → Body
share_files_body total rows =
    ("total", leaf (int total))
      ∷ ("count", leaf (int (length rows)))
      ∷ (if ltb 0 (length rows) then ("files", files rows) ∷ [] else [])
    ++ (("code", leaf (int 0)) ∷ [])

pub share_files_page : ℕ → Option CResultSet → Response
unfolding collect share_file share_files_body
share_files_page total none = some (code_body 1)
share_files_page total (some r) = some (share_files_body total (collect share_file r))

pub list_share_files : ℤ → ℤ → Option ℕ → Prog Response
unfolding share_files_page
list_share_files start size none = done (some (code_body 1))
list_share_files start size (some total) =
    execute_query (page_share_files start size) >>= λ result_set.
    done (share_files_page total result_set)

pub handle_get_share_filelist : ℤ → ℤ → Prog Response
unfolding list_share_files share_files_count
handle_get_share_filelist start size = do
  total ← share_files_count
  list_share_files start size total
