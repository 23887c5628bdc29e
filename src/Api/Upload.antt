-- ===== src/Api/Upload.antt =====
-- ApiUpload and the FastDFS tools that it runs (api/api_upload.cc), and TrimSpace (api/api_common.cc).
pub mod Form
pub mod Uploaded
use filehub_cloud.Base.{
  ℕ, leb, Bool, true, false, Option, none, some, List, [], ◌∷◌, ◌++◌, ◌||◌, not, Text, bytes,
  if◌then◌else◌, length,
}
use filehub_cloud.Schema.Tables.{FileInfo}
use filehub_cloud.Program.Defs.{
  Prog, done, crash, external, upload_file, file_info, rename, unlink, ◌>>=◌,
}
use filehub_cloud.Common.Records.{remove_file_from_fast_dfs}
use filehub_cloud.Common.Query.{find_key}
use filehub_cloud.Common.Suffix.{get_file_suffix}
use filehub_cloud.Util.Config.{split_at}
use filehub_cloud.Handlers.Saved.{Stored, store_fileinfo}
use filehub_cloud.Api.Json.{Response, code_body}
use filehub_cloud.Api.Requests.{after_decoding}
use filehub_cloud.Api.Upload.Form.{UploadForm, parse_upload, is_space, strip_start, printed_size}

cons_unless_space : ℕ → Text → Text
cons_unless_space c [] = if is_space c then [] else c ∷ []
cons_unless_space c (d ∷ s) = c ∷ d ∷ s

strip_end : Text → Text
unfolding cons_unless_space
strip_end [] = []
strip_end (c ∷ s) = cons_unless_space c (strip_end s)

-- TrimSpace, for a text that is not empty.
trim_both : Text → Text
unfolding strip_end
trim_both inbuf = strip_end (strip_start inbuf)

-- The id; none for -1.
nonempty : Text → Option Text
nonempty [] = none
nonempty (c ∷ s) = some (c ∷ s)

uploaded_id : Option Text → Option Text
unfolding nonempty trim_both
uploaded_id none = none
uploaded_id (some output) = nonempty (trim_both output)

-- The tool's failures: no pipe, no child, no output within 30 seconds, an exit code.
upload_file_to_fast_dfs : Text → Prog (Option Text)
unfolding uploaded_id
upload_file_to_fast_dfs file_path = external (upload_file file_path) λ o. done (uploaded_id o)

-- `http://`, the server's address, and the id. HOST_NAME_LEN is 30.
url_of : Text → Text → Option (Text × Text) → Prog (Option Text)
url_of ip fileid none = done none
url_of ip fileid (some (host, rest)) =
    if leb 30 (length host)
    then crash
    else done (some (bytes "http://" ++ (ip ++ (bytes "/" ++ fileid))))

address_line : Text → Text → Option Text → Prog (Option Text)
unfolding url_of
address_line ip fileid none = done none
address_line ip fileid (some q) = url_of ip fileid (split_at 10 q)

with_report : Text → Text → Option Text → Prog (Option Text)
unfolding address_line
with_report ip fileid none = done none
with_report ip fileid (some report) =
    address_line ip fileid (find_key (bytes "source ip address: ") report)

-- `ip` is s_storage_web_server_ip; none for -1. The url is taken to fit its buffer.
get_full_url_by_fileid : Text → Text → Prog (Option Text)
unfolding with_report
get_full_url_by_fileid [] fileid = done none
get_full_url_by_fileid (c ∷ ip) fileid = external (file_info fileid) (with_report (c ∷ ip) fileid)

abbrev pub new_info : UploadForm → Text → Text → FileInfo
new_info f fileid url = record {
  md5 = f.file_md5;
  file_id = fileid;
  url = url;
  size = printed_size f.file_size;
  type = get_file_suffix f.file_name;
  count = 1;
}

stored_code : Stored → Response
stored_code s = some (code_body (if s.ok then 0 else 1))

-- A copy that is not stored, or is stored twice, is removed again.
after_storing : Text → Stored → Prog Response
unfolding stored_code
after_storing fileid s =
    if not s.ok || s.file_exist
    then (remove_file_from_fast_dfs fileid >>= λ _. done (stored_code s))
    else done (stored_code s)

with_url : Text → UploadForm → Text → Option Text → Prog Response
unfolding after_storing
with_url create_time f fileid none = done (some (code_body 1))
with_url create_time f fileid (some url) =
    store_fileinfo create_time f.user f.file_name (new_info f fileid url) >>= after_storing fileid

with_id : Text → Text → UploadForm → Text → Option Text → Prog Response
unfolding with_url get_full_url_by_fileid
with_id ip create_time f path none = external (unlink path) λ _. done (some (code_body 1))
with_id ip create_time f path (some fileid) =
    external (unlink path) λ _. get_full_url_by_fileid ip fileid >>= with_url create_time f fileid

renamed : Text → Text → UploadForm → Text → Option Text → Prog Response
unfolding with_id upload_file_to_fast_dfs
renamed ip create_time f path none = done (some (code_body 1))
renamed ip create_time f path (some _) =
    upload_file_to_fast_dfs path >>= with_id ip create_time f path

-- The buffers of the suffix and of the new path have 8 and 128 bytes.
with_form : Text → Text → UploadForm → Prog Response
unfolding renamed
with_form ip create_time f =
    let path = f.file_path ++ (bytes "." ++ get_file_suffix f.file_name) in
    if leb 8 (length (get_file_suffix f.file_name)) || leb 128 (length path)
    then crash
    else external (rename f.file_path path) (renamed ip create_time f path)

pub api_upload : Text → Text → Text → Prog Response
unfolding with_form
api_upload ip create_time post_data =
    after_decoding (parse_upload post_data) (done (some (code_body 1))) (with_form ip create_time)
