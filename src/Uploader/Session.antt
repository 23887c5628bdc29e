-- ===== src/Uploader/Session.antt =====
-- `main` of the console client, as a conversation with the server and the file system.
use filehub_cloud.Base.{
  ℕ, zero, suc, Bool, true, false, Option, none, some, List, [], ◌∷◌, Text, bytes, decimal, length,
  is_zero, ℤ, pos, negsuc,
}
use filehub_cloud.Api.Json.{JsonReader, Decoded, bad, decoded, throws, Body, leaf, int, text}
use filehub_cloud.Util.Numbers.{atoll}
use filehub_cloud.Uploader.{
  User, new_user, set_token, FileUpload, new_file_upload, Opened, read_all_content, cal_md5,
  LoginRespone, decode_login_respone,
}

-- httplib::MultipartFormData
pub record Item : Type 0 where
  pub name : Text
  pub content : Text
  pub filename : Text
  pub content_type : Text

-- A Post, with a text in JSON or with a form.
pub data Request : Type 0 where
  json : Text → Text → Request
  form : Text → List Item → Request

-- The conversation: a request and its answer's body, none for a Result without a response; the opening of
-- a file; the end with a status; and the end by an exception or a NULL response that is read. The uploads of
-- the threads are equal, and stand one behind the other.
pub data Talk : Type 0 where
  ends : ℕ → Talk
  killed : Talk
  post : Request → (Option Text → Talk) → Talk
  open_file : Text → (Option Opened → Talk) → Talk

abbrev pub login_body : User → Body
login_body user = ("user", leaf (text user.name)) ∷ ("pwd", leaf (text user.password)) ∷ []

abbrev pub login_request : (Body → Text) → User → Request
login_request write user = json (bytes "/api/login") (write (login_body user))

-- encodeMyfilesRequest
unfoldable pub encode_myfiles_request : (Body → Text) → Text → Text → ℕ → ℕ → Text
encode_myfiles_request write user token start count = write (
    ("user", leaf (text user))
    ∷ ("token", leaf (text token))
    ∷ ("start", leaf (int start))
    ∷ ("count", leaf (int count))
    ∷ [])

abbrev pub user_name : Text
user_name = bytes "GuLu"

abbrev pub full_path : Text
full_path = bytes "testfile.d"

-- The form of an upload.
unfoldable pub items_of : User → FileUpload → List Item
items_of user f =
    record {
      name = bytes "file";
      content = f.file_content;
      filename = f.file_name;
      content_type = bytes "multipart/form-data";
    }
    ∷ record { name = bytes "user"; content = user.name; filename = []; content_type = [] }
    ∷ record { name = bytes "md5"; content = f.file_md5; filename = []; content_type = [] }
    ∷ record {
      name = bytes "size";
      content = decimal (length f.file_content);
      filename = [];
      content_type = [];
    }
    ∷ []

-- How often the loop over the threads runs.
abbrev pub rounds : ℤ → ℕ
rounds (pos n) = n
rounds (negsuc n) = 0

pub concurrent_of : List Text → ℕ
concurrent_of (program ∷ concurrent ∷ more) = rounds (atoll concurrent)
concurrent_of _ = 1

abbrev pub uploaded : Talk → Option Text → Talk
uploaded rest none = killed
uploaded rest (some body) = rest

unfoldable pub uploads : ℕ → Request → Talk
uploads zero r = ends 0
uploads (suc n) r = post r (uploaded (uploads n r))

module _ (J : JsonReader) (write : Body → Text) (md5 : Text → Text) where
  unfoldable pub with_digest : ℕ → User → Bool × FileUpload → Talk
  unfolding items_of uploads
  with_digest concurrent user (false, f) = ends 1
  with_digest concurrent user (true, f) =
      uploads concurrent (form (bytes "/api/upload") (items_of user f))

  unfoldable pub with_content : ℕ → User → Bool × FileUpload → Talk
  unfolding cal_md5 with_digest
  with_content concurrent user (false, f) = ends 1
  with_content concurrent user (true, f) = with_digest concurrent user (cal_md5 md5 f)

  unfoldable pub after_myfiles : ℕ → User → Option Text → Talk
  unfolding new_file_upload read_all_content with_content
  after_myfiles concurrent user none = killed
  after_myfiles concurrent user (some body) =
      open_file full_path
        λ o. with_content concurrent user (read_all_content o (new_file_upload full_path))

  unfoldable pub ask_myfiles : ℕ → User → Talk
  unfolding encode_myfiles_request after_myfiles
  ask_myfiles concurrent user =
      post
        (json (bytes "/api/myfiles&cmd=normal")
          (encode_myfiles_request write user.name user.token 0 10))
        (after_myfiles concurrent user)

  unfoldable pub verified : ℕ → User → LoginRespone → Bool → Talk
  unfolding ask_myfiles set_token
  verified concurrent user r true = ask_myfiles concurrent (set_token r.token user)
  verified concurrent user r false = ends 1

  unfoldable pub after_decoding : ℕ → User → Decoded LoginRespone → Talk
  unfolding verified
  after_decoding concurrent user bad = ends 1
  after_decoding concurrent user throws = killed
  after_decoding concurrent user (decoded r) = verified concurrent user r (is_zero r.code)

  unfoldable pub after_login : ℕ → User → Option Text → Talk
  unfolding after_decoding decode_login_respone
  after_login concurrent user none = killed
  after_login concurrent user (some []) = ends 1
  after_login concurrent user (some (b ∷ s)) =
      after_decoding concurrent user (decode_login_respone J (b ∷ s))

  unfoldable pub client_main : List Text → Talk
  unfolding new_user after_login concurrent_of
  client_main argv =
      let user = new_user md5 user_name (bytes "123456") in
      post (login_request write user) (after_login (concurrent_of argv) user)
