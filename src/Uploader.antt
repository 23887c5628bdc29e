-- ===== src/Uploader.antt =====
-- The console client client/upload/filehub-client.cc, which logs in, asks for the user's files and uploads one
-- file several times at once. httplib, jsoncpp's writer and the MD5 of muduo are parameters.
pub mod Session
pub mod Peer
pub mod Ordered
use filehub_cloud.Base.{
  ℕ, zero, suc, ◌+◌, ◌-◌, ◌==◌, Bool, true, false, Option, none, some, List, [], ◌∷◌, ◌++◌, Text,
  bytes, length, take, ℤ, drop, replicate, if◌then◌else◌,
}
use filehub_cloud.Api.Json.{JsonReader, Decoded, decoded, ◌>>=◌, parse_root, text_of, int_of}

pub record User : Type 0 where
  pub name : Text
  pub password : Text
  pub token : Text

-- With the digest of the password.
pub new_user : (Text → Text) → Text → Text → User
new_user md5 name password = record { name = name; password = md5 password; token = [] }

unfoldable pub set_token : Text → User → User
set_token token user = record user { token = token }

pub record FileUpload : Type 0 where
  pub full_path : Text
  pub file_name : Text
  pub file_size : ℕ
  pub file_content : Text
  pub file_md5 : Text

-- What stands behind the last `c`, none without one.
abbrev pub last_or : Text → ℕ → ℕ → Option Text → Option Text
last_or s x c (some t) = some t
last_or s x c none = if x == c then some s else none

pub behind_last : ℕ → Text → Option Text
behind_last c [] = none
behind_last c (x ∷ s) = last_or s x c (behind_last c s)

-- Behind the last `/`, or the last `\` in a path without a `/`, or the whole path.
pub name_of_path : Text → Text
unfolding behind_last
name_of_path full_path = elim (behind_last 47 full_path) [
  | some s ↦ s
  | none ↦ elim (behind_last 92 full_path) [ some s ↦ s | none ↦ full_path ]
]

pub new_file_upload : Text → FileUpload
unfolding name_of_path
new_file_upload full_path = record {
  full_path = full_path;
  file_name = name_of_path full_path;
  file_size = 0;
  file_content = [];
  file_md5 = [];
}

-- A file that opens: what tellg gives at its end, and the bytes that read stores, at most as many.
pub record Opened : Type 0 where
  pub size : ℕ
  pub stored : Text

-- The buffer has the size of the file before the bytes are read into it.
abbrev pub buffer : Opened → Text
buffer o = take o.size (o.stored ++ replicate o.size 0)

-- The result, and the object as it is left. `fileSize` is taken to be no error.
pub read_all_content : Option Opened → FileUpload → Bool × FileUpload
read_all_content none f = (false, f)
read_all_content (some o) f =
    (length (buffer o) == o.size, record f { file_size = o.size; file_content = buffer o })

abbrev pub digested : (Text → Text) → FileUpload → Text → Bool × FileUpload
digested md5 f [] = (false, f)
digested md5 f (b ∷ s) = (true, record f { file_md5 = md5 (b ∷ s) })

pub cal_md5 : (Text → Text) → FileUpload → Bool × FileUpload
cal_md5 md5 f = digested md5 f f.file_content

-- The code and the token of the answer to a login.
pub record LoginRespone : Type 0 where
  pub code : ℤ
  pub token : Text

pub decode_login_respone : (J : JsonReader) → Text → Decoded LoginRespone
unfolding parse_root int_of text_of
decode_login_respone J str_json = do
  root ← parse_root J str_json
  code ← int_of J root (bytes "code")
  token ← text_of J root (bytes "token")
  decoded (record { code = code; token = token })
