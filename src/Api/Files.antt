-- ===== src/Api/Files.antt =====
-- ApiDealfile (api/api_dealfile.cc), ApiDealsharefile (api/api_deal_sharefile.cc) and ApiMd5
-- (api/api_md5.cc). What they return is not looked at by their callers, and left out.
pub mod Gate
use filehub_cloud.Base.{
  ℤ, pos, negsuc, ℕ, Bool, true, false, none, some, Text, bytes, same, if◌then◌else◌,
}
use filehub_cloud.Program.Defs.{Prog, done, ◌>>=◌}
use filehub_cloud.Common.Records.{verify_token}
use filehub_cloud.Handlers.Share.{handle_share_file, handle_cancel_share_file, handle_share_pv_file}
use filehub_cloud.Handlers.Delete.{handle_delete_file, handle_user_pv_file}
use filehub_cloud.Handlers.Saved.{handle_save_file, handle_deal_md5}
use filehub_cloud.Api.Json.{JsonReader, Response, code_body}
use filehub_cloud.Api.Requests.{
  FileRequest, ShareRequest, decode_dealfile, decode_dealsharefile, after_decoding, with_command,
}

-- `encode...Json(ret, str_json)`.
pub reply_code : Prog ℕ → Prog Response
reply_code handler = handler >>= λ ret. done (some (code_body ret))

-- The handler, if the token is the user's; 4 is HTTP_RESP_TOKEN_ERR.
pub authorised : ℕ → (FileRequest → Prog ℕ) → FileRequest → Prog Response
unfolding reply_code
authorised refusal handler r = verify_token r.user r.token >>= λ valid.
    if valid then reply_code (handler r) else done (some (code_body refusal))

-- The handler of a command; none for a command that is not handled.
pub dealfile_handler : Text → Text → Text → FileRequest → Prog ℕ
dealfile_handler now create_time cmd r =
    if same cmd (bytes "share")
    then handle_share_file now create_time r.user r.md5 r.filename
    else if same cmd (bytes "del")
    then handle_delete_file r.user r.md5 r.filename
    else handle_user_pv_file r.user r.md5 r.filename

pub is_dealfile : Text → Bool
is_dealfile cmd =
    if same cmd (bytes "share")
    then true
    else if same cmd (bytes "del")
    then true
    else same cmd (bytes "pv")

-- `if (ret < 0)`: the code of the answer.
code_of_sign : ℤ → ℕ
code_of_sign (pos n) = 0
code_of_sign (negsuc n) = 1

reply_sign : Prog ℤ → Prog Response
unfolding code_of_sign
reply_sign handler = handler >>= λ ret. done (some (code_body (code_of_sign ret)))

-- The codes of the handlers are not negative.
to_int : Prog ℕ → Prog ℤ
to_int handler = handler >>= λ ret. done (pos ret)

-- A command that is not known leaves `ret` at 0.
dealsharefile_handler : Text → Text → ShareRequest → Prog ℤ
unfolding to_int
dealsharefile_handler create_time cmd r =
    if same cmd (bytes "cancel")
    then to_int (handle_cancel_share_file r.user r.md5 r.filename)
    else if same cmd (bytes "save")
    then to_int (handle_save_file create_time r.user r.md5 r.filename)
    else if same cmd (bytes "pv")
    then to_int (handle_share_pv_file r.md5 r.filename)
    else done (pos 0)

module _ (J : JsonReader) where
  pub api_dealfile : Text → Text → Text → Text → Text → Prog Response
  unfolding authorised dealfile_handler is_dealfile
  api_dealfile junk now create_time url post_data = with_command junk url λ cmd.
      if is_dealfile cmd
      then after_decoding (decode_dealfile J post_data) (done (some (code_body 1)))
          (authorised 4 (dealfile_handler now create_time cmd))
      else done none

  pub api_dealsharefile : Text → Text → Text → Text → Prog Response
  unfolding reply_sign dealsharefile_handler
  api_dealsharefile junk create_time url post_data = with_command junk url λ cmd.
      after_decoding (decode_dealsharefile J post_data) (done (some (code_body 1)))
        (λ r. reply_sign (dealsharefile_handler create_time cmd r))

  -- A failed token check has the code of other failures.
  pub api_md5 : Text → Prog Response
  unfolding authorised
  api_md5 post_data =
      after_decoding (decode_dealfile J post_data) (done (some (code_body 1)))
        (authorised 1 (λ r. handle_deal_md5 r.user r.md5 r.filename))
