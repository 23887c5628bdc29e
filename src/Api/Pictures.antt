-- ===== src/Api/Pictures.antt =====
-- ApiSharepicture (api/api_sharepicture.cc).
use filehub_cloud.Base.{ℕ, none, some, Text, bytes, same, if◌then◌else◌}
use filehub_cloud.Program.Defs.{Prog, done}
use filehub_cloud.Handlers.Pictures.{
  handle_share_picture, handle_browse_picture, handle_get_share_pictures_list,
  handle_cancel_share_picture,
}
use filehub_cloud.Api.Json.{JsonReader, Response, code_body}
use filehub_cloud.Api.Requests.{
  decode_share_picture, decode_browse_picture, decode_picture_list, decode_cancel_picture,
  after_decoding, with_command,
}

module _ (J : JsonReader) where
  -- The handler of a command. The token is decoded, and not looked at.
  unfoldable sharepicture_handler : (ℕ → ℕ) → Text → Text → Text → Prog Response
  sharepicture_handler rand create_time post_data cmd =
      if same cmd (bytes "share")
      then after_decoding (decode_share_picture J post_data) (done (some (code_body 1)))
          (λ r. handle_share_picture rand create_time r.user r.md5 r.filename)
      else if same cmd (bytes "browse")
      then after_decoding (decode_browse_picture J post_data) (done (some (code_body 1)))
          handle_browse_picture
      else if same cmd (bytes "normal")
      then after_decoding (decode_picture_list J post_data) (done (some (code_body 1)))
          (λ r. handle_get_share_pictures_list r.user r.start r.count)
      else if same cmd (bytes "cancel")
      then after_decoding (decode_cancel_picture J post_data) (done (some (code_body 1)))
          (λ r. handle_cancel_share_picture r.user r.urlmd5)
      else done none

  pub api_sharepicture : (ℕ → ℕ) → Text → Text → Text → Text → Prog Response
  unfolding sharepicture_handler
  api_sharepicture rand junk create_time url post_data =
      with_command junk url (sharepicture_handler rand create_time post_data)
