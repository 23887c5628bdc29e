-- ===== src/Api/Requests.antt =====
-- The decoders of the requests, and the command of a URL.
pub mod Rules
use filehub_cloud.Base.{ℕ, Option, none, some, ℤ, Text, bytes, length, ltb, if◌then◌else◌}
use filehub_cloud.Program.Defs.{Prog, crash}
use filehub_cloud.Common.Query.{Parsed, missing, reads_behind, value, query_parse_key_value}
use filehub_cloud.Api.Json.{
  JsonReader, Decoded, bad, decoded, throws, ◌>>=◌, parse_root, text_of, int_of, optional_text_of,
}

-- The members that the requests have, by the decoders' names.
pub record LoginRequest : Type 0 where
  pub user : Text
  pub pwd : Text

pub record RegisterRequest : Type 0 where
  pub user_name : Text
  pub nick_name : Text
  pub first_pwd : Text
  pub phone : Text
  pub email : Text

pub record FileRequest : Type 0 where
  pub user : Text
  pub token : Text
  pub md5 : Text
  pub filename : Text

pub record ShareRequest : Type 0 where
  pub user : Text
  pub md5 : Text
  pub filename : Text

pub record CountRequest : Type 0 where
  pub user : Text
  pub token : Text

pub record ListRequest : Type 0 where
  pub user : Text
  pub token : Text
  pub start : ℤ
  pub count : ℤ

pub record PageRequest : Type 0 where
  pub start : ℤ
  pub count : ℤ

pub record CancelRequest : Type 0 where
  pub user : Text
  pub urlmd5 : Text

module _ (J : JsonReader) where
  unfoldable pub decode_login : Text → Decoded LoginRequest
  unfolding parse_root text_of
  decode_login str_json = do
    root ← parse_root J str_json
    user ← text_of J root (bytes "user")
    pwd ← text_of J root (bytes "pwd")
    decoded (record { user = user; pwd = pwd })

  unfoldable pub decode_register : Text → Decoded RegisterRequest
  unfolding parse_root text_of optional_text_of
  decode_register str_json = do
    root ← parse_root J str_json
    user_name ← text_of J root (bytes "userName")
    nick_name ← text_of J root (bytes "nickName")
    first_pwd ← text_of J root (bytes "firstPwd")
    phone ← optional_text_of J root (bytes "phone")
    email ← optional_text_of J root (bytes "email")
    decoded (record {
      user_name = user_name;
      nick_name = nick_name;
      first_pwd = first_pwd;
      phone = phone;
      email = email;
    })

  -- decodeDealfileJson and decodeMd5Json.
  unfoldable pub decode_dealfile : Text → Decoded FileRequest
  unfolding parse_root text_of
  decode_dealfile str_json = do
    root ← parse_root J str_json
    user ← text_of J root (bytes "user")
    token ← text_of J root (bytes "token")
    md5 ← text_of J root (bytes "md5")
    filename ← text_of J root (bytes "filename")
    decoded (record { user = user; token = token; md5 = md5; filename = filename })

  -- decodeSharePictureJson asks for the token first.
  unfoldable pub decode_share_picture : Text → Decoded FileRequest
  unfolding parse_root text_of
  decode_share_picture str_json = do
    root ← parse_root J str_json
    token ← text_of J root (bytes "token")
    user ← text_of J root (bytes "user")
    md5 ← text_of J root (bytes "md5")
    filename ← text_of J root (bytes "filename")
    decoded (record { user = user; token = token; md5 = md5; filename = filename })

  unfoldable pub decode_dealsharefile : Text → Decoded ShareRequest
  unfolding parse_root text_of
  decode_dealsharefile str_json = do
    root ← parse_root J str_json
    user ← text_of J root (bytes "user")
    md5 ← text_of J root (bytes "md5")
    filename ← text_of J root (bytes "filename")
    decoded (record { user = user; md5 = md5; filename = filename })

  unfoldable pub decode_count : Text → Decoded CountRequest
  unfolding parse_root text_of
  decode_count str_json = do
    root ← parse_root J str_json
    user ← text_of J root (bytes "user")
    token ← text_of J root (bytes "token")
    decoded (record { user = user; token = token })

  unfoldable pub decode_fileslist : Text → Decoded ListRequest
  unfolding parse_root text_of int_of
  decode_fileslist str_json = do
    root ← parse_root J str_json
    user ← text_of J root (bytes "user")
    token ← text_of J root (bytes "token")
    start ← int_of J root (bytes "start")
    count ← int_of J root (bytes "count")
    decoded (record { user = user; token = token; start = start; count = count })

  -- decodePictureListJson asks for the token first.
  unfoldable pub decode_picture_list : Text → Decoded ListRequest
  unfolding parse_root text_of int_of
  decode_picture_list str_json = do
    root ← parse_root J str_json
    token ← text_of J root (bytes "token")
    user ← text_of J root (bytes "user")
    start ← int_of J root (bytes "start")
    count ← int_of J root (bytes "count")
    decoded (record { user = user; token = token; start = start; count = count })

  unfoldable pub decode_share_fileslist : Text → Decoded PageRequest
  unfolding parse_root int_of
  decode_share_fileslist str_json = do
    root ← parse_root J str_json
    start ← int_of J root (bytes "start")
    count ← int_of J root (bytes "count")
    decoded (record { start = start; count = count })

  unfoldable pub decode_browse_picture : Text → Decoded Text
  unfolding parse_root text_of
  decode_browse_picture str_json = do root ← parse_root J str_json; text_of J root (bytes "urlmd5")

  unfoldable pub decode_cancel_picture : Text → Decoded CancelRequest
  unfolding parse_root text_of
  decode_cancel_picture str_json = do
    root ← parse_root J str_json
    user ← text_of J root (bytes "user")
    urlmd5 ← text_of J root (bytes "urlmd5")
    decoded (record { user = user; urlmd5 = urlmd5 })

-- What follows a decoder.
unfoldable pub after_decoding : {A B : Type 0} → Decoded A → Prog B → (A → Prog B) → Prog B
after_decoding bad rejected go = rejected
after_decoding (decoded a) rejected go = go a
after_decoding throws rejected go = crash

-- `char cmd[20]` after QueryParseKeyValue. Without a `cmd` it holds what it held, `junk`, which is
-- taken to be a string; none for a value that is read behind the URL or does not fit.
command_of : Text → Parsed → Option Text
command_of junk missing = some junk
command_of junk reads_behind = none
command_of junk (value v) = if ltb (length v) 20 then some v else none

pub command : Text → Text → Option Text
unfolding command_of
command junk url = command_of junk (query_parse_key_value url (bytes "cmd"))

-- A value that is not there is undefined behaviour.
on_command : {A : Type 0} → (Text → Prog A) → Option Text → Prog A
on_command go none = crash
on_command go (some cmd) = go cmd

pub with_command : {A : Type 0} → Text → Text → (Text → Prog A) → Prog A
unfolding on_command
with_command junk url go = on_command go (command junk url)
