-- ===== src/Api/Shares.antt =====
-- ApiSharefiles (api/api_sharefiles.cc).
pub mod Served
use filehub_cloud.Base.{none, some, Text, bytes, same, if◌then◌else◌}
use filehub_cloud.Program.Defs.{Prog, done, ◌>>=◌}
use filehub_cloud.Handlers.Lists.{share_files_count, total_body, handle_get_share_filelist}
use filehub_cloud.Handlers.Ranking.{handle_get_ranking_filelist}
use filehub_cloud.Api.Json.{JsonReader, Response, code_body}
use filehub_cloud.Api.Requests.{decode_share_fileslist, after_decoding, with_command}

module _ (J : JsonReader) where
  -- The handler of a command. No token is asked for.
  sharefiles_handler : Text → Text → Prog Response
  sharefiles_handler post_data cmd =
      if same cmd (bytes "count")
      then (share_files_count >>= λ total. done (some (total_body total)))
      else if same cmd (bytes "normal")
      then after_decoding (decode_share_fileslist J post_data) (done (some (code_body 1)))
          (λ r. handle_get_share_filelist r.start r.count)
      else if same cmd (bytes "pvdesc")
      then after_decoding (decode_share_fileslist J post_data) (done (some (code_body 1)))
          (λ r. handle_get_ranking_filelist r.start r.count)
      else done none

  pub api_sharefiles : Text → Text → Text → Prog Response
  unfolding sharefiles_handler
  api_sharefiles junk url post_data = with_command junk url (sharefiles_handler post_data)
