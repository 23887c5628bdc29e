-- ===== src/Handlers/Pictures.antt =====
-- Shared pictures: the handlers of api/api_sharepicture.cc, with RandomString and
-- DBGetSharePictureCountByUsername of api/api_common.cc. The clock's text and the results of rand() are
-- arguments.
pub mod Browsing
pub mod Listing
use filehub_cloud.Base.{
  ℕ, zero, suc, ◌+◌, ◌%◌, Bool, true, false, Option, none, some, List, [], ◌∷◌, ◌++◌, ℤ, Text,
  if◌then◌else◌, length, ltb,
}
use filehub_cloud.Schema.Tables.{SharePicture}
use filehub_cloud.Schema.Statements.{
  insert_picture, select_picture, select_url, increment_picture, delete_picture, count_pictures,
  page_pictures,
}
use filehub_cloud.Program.Defs.{Prog, done, ◌>>=◌}
use filehub_cloud.Conn.Mysql.{
  CResultSet, next, get_int, get_string, execute_create, execute_pass_query, execute_query,
  execute_update,
}
use filehub_cloud.Common.Records.{with_row, collect}
use filehub_cloud.Api.Json.{Response, Body, File, leaf, int, text, files, code_body}

-- `c = 'a' + rand() % 26`, for `len` results of rand() from the i-th on.
pub random_string : (ℕ → ℕ) → ℕ → ℕ → Text
random_string rand i zero = []
random_string rand i (suc len) = (97 + rand i % 26) ∷ random_string rand (i + 1) len

-- encodeSharePictureJson with the code 0.
abbrev pub picture_body : Text → Body
picture_body urlmd5 = ("code", leaf (int 0)) ∷ ("urlmd5", leaf (text urlmd5)) ∷ []

pub handle_share_picture : (ℕ → ℕ) → Text → Text → Text → Text → Prog Response
unfolding random_string
handle_share_picture rand create_time user filemd5 file_name =
    let urlmd5 = random_string rand 0 32 in
    execute_create (
      insert_picture (record {
        user = user;
        filemd5 = filemd5;
        file_name = file_name;
        urlmd5 = urlmd5;
        key = [];
        pv = 0;
        create_time = create_time;
      }))
    >>= λ created. done (some (if created then picture_body urlmd5 else code_body 1))

-- encodeBrowselPictureJson with the code 0.
abbrev pub browse_body : ℕ → Text → Text → Text → Body
browse_body pv url user time =
    ("code", leaf (int 0))
    ∷ ("pv", leaf (int pv))
    ∷ ("url", leaf (text url))
    ∷ ("user", leaf (text user))
    ∷ ("time", leaf (text time))
    ∷ []

-- The visit is counted, and the answer has the counter as read before, plus one.
count_visit : Text → CResultSet → Text → Prog Response
count_visit urlmd5 picture url = do
  updated ← execute_update (increment_picture urlmd5) true
  done (
      some (
        if updated
        then browse_body (get_int picture "pv" + 1) url (get_string picture "user")
            (get_string picture "create_time")
        else code_body 1))

with_picture : Text → CResultSet → Prog Response
unfolding count_visit
with_picture urlmd5 picture = do
  result_set ← execute_query (select_url (get_string picture "filemd5"))
  with_row (done (some (code_body 1))) (λ row. count_visit urlmd5 picture (get_string row "url"))
      result_set

-- The function has no `return` at its end; its result is not used.
pub handle_browse_picture : Text → Prog Response
unfolding with_picture
handle_browse_picture urlmd5 = do
  result_set ← execute_query (select_picture urlmd5)
  with_row (done (some (code_body 1))) (with_picture urlmd5) result_set

-- none for -1. A result without a row counts as 0.
pub share_picture_count : Text → Prog (Option ℕ)
share_picture_count user_name = do
  result_set ← execute_query (count_pictures user_name)
  done (elim result_set [
    | none ↦ none
    | some r ↦ with_row (some 0) (λ row. some (get_int row "count(*)")) (some r)
  ])

pub picture_file : CResultSet → File
picture_file r =
    ("user", text (get_string r "user"))
    ∷ ("filemd5", text (get_string r "filemd5"))
    ∷ ("file_name", text (get_string r "file_name"))
    ∷ ("urlmd5", text (get_string r "urlmd5"))
    ∷ ("pv", int (get_int r "pv"))
    ∷ ("create_time", text (get_string r "create_time"))
    ∷ ("size", int (get_int r "size"))
    ∷ []

-- `files` only if there are any, then code, count and total.
pub pictures_body : ℕ → List File → Body
pictures_body total rows =
    (if ltb 0 (length rows) then ("files", files rows) ∷ [] else [])
    ++ (("code", leaf (int 0))
        ∷ ("count", leaf (int (length rows)))
        ∷ ("total", leaf (int total))
        ∷ [])

-- A failure puts its code into a second, local `root`, and writes the first, which has no member.
pictures_page : ℕ → Option CResultSet → Response
unfolding collect picture_file pictures_body
pictures_page total none = some []
pictures_page total (some r) = some (pictures_body total (collect picture_file r))

list_pictures : Text → ℤ → ℤ → Option ℕ → Prog Response
unfolding pictures_page
list_pictures user start size none = done (some [])
list_pictures user start size (some total) = do
  result_set ← execute_query (page_pictures user start size)
  done (pictures_page total result_set)

pub handle_get_share_pictures_list : Text → ℤ → ℤ → Prog Response
unfolding list_pictures
handle_get_share_pictures_list user start size = do
  total ← share_picture_count user
  list_pictures user start size total

pub handle_cancel_share_picture : Text → Text → Prog Response
handle_cancel_share_picture user urlmd5 = do
  passed ← execute_pass_query (delete_picture user urlmd5)
  done (some (code_body (if passed then 0 else 1)))
