-- ===== src/Api/Lists.antt =====
-- ApiMyfiles (api/api_myfiles.cc).
pub mod Gate
use filehub_cloud.Base.{true, false, none, some, Text, bytes, same, if◌then◌else◌}
use filehub_cloud.Program.Defs.{Prog, done, ◌>>=◌}
use filehub_cloud.Common.Records.{verify_token}
use filehub_cloud.Handlers.Lists.{user_files_count, total_body, get_user_file_list}
use filehub_cloud.Api.Json.{JsonReader, Response, code_body}
use filehub_cloud.Api.Requests.{decode_count, decode_fileslist, after_decoding, with_command}

-- `VerifyToken(user_name, token) < 0` is answered with the code 1.
pub with_token : Text → Text → Prog Response → Prog Response
with_token user token go =
    verify_token user token >>= λ valid. if valid then go else done (some (code_body 1))

module _ (J : JsonReader) where
  -- The handler of a command.
  pub myfiles_handler : Text → Text → Prog Response
  unfolding with_token
  myfiles_handler post_data cmd =
      if same cmd (bytes "count")
      then after_decoding (decode_count J post_data) (done (some (code_body 1))) (λ r.
        with_token r.user r.token
          (user_files_count r.user >>= λ total. done (some (total_body total))))
      else if same cmd (bytes "normal")
      then after_decoding (decode_fileslist J post_data) (done (some (code_body 1)))
          (λ r. with_token r.user r.token (get_user_file_list r.user r.start r.count))
      else done (some (code_body 1))

  pub api_myfiles : Text → Text → Text → Prog Response
  unfolding myfiles_handler
  api_myfiles junk url post_data = with_command junk url (myfiles_handler post_data)
