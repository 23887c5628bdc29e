-- ===== src/Schema/Tables.antt =====
-- The five tables of sql/, a row to a record, with the columns that the statements use.
use filehub_cloud.Base.{ℕ, Bool, ◌&&◌, List, Text, same}

-- Unique keys: user_name; nick_name. The row number is only logged, and left out.
pub record UserInfo : Type 0 where
  pub user_name : Text
  pub nick_name : Text
  pub password : Text
  pub phone : Text
  pub email : Text
  pub create_time : Text

-- Unique key: md5.
pub record FileInfo : Type 0 where
  pub md5 : Text
  pub file_id : Text
  pub url : Text
  pub size : Text
  pub type : Text
  pub count : ℕ

-- Unique key: user, md5, file_name.
pub record UserFile : Type 0 where
  pub user : Text
  pub md5 : Text
  pub create_time : Text
  pub file_name : Text
  pub shared_status : ℕ
  pub pv : ℕ

-- No unique key but the row number.
pub record ShareFile : Type 0 where
  pub user : Text
  pub md5 : Text
  pub create_time : Text
  pub file_name : Text
  pub pv : ℕ

pub record SharePicture : Type 0 where
  pub user : Text
  pub filemd5 : Text
  pub file_name : Text
  pub urlmd5 : Text
  pub key : Text
  pub pv : ℕ
  pub create_time : Text

pub record Tables : Type 0 where
  pub user_info : List UserInfo
  pub file_info : List FileInfo
  pub user_file_list : List UserFile
  pub share_file_list : List ShareFile
  pub share_picture_list : List SharePicture

-- The `where` clauses that the statements share.
unfoldable pub is_file : Text → FileInfo → Bool
is_file m r = same r.md5 m

unfoldable pub owned_by : Text → Text → Text → UserFile → Bool
owned_by u m f r = same r.user u && (same r.md5 m && same r.file_name f)

unfoldable pub shared_by : Text → Text → Text → ShareFile → Bool
shared_by u m f r = same r.user u && (same r.md5 m && same r.file_name f)

unfoldable pub shared_as : Text → Text → ShareFile → Bool
shared_as m f r = same r.md5 m && same r.file_name f

unfoldable pub pictured : Text → SharePicture → Bool
pictured url r = same r.urlmd5 url

unfoldable pub is_user : Text → UserInfo → Bool
is_user u r = same r.user_name u

unfoldable pub is_nick : Text → UserInfo → Bool
is_nick n r = same r.nick_name n

unfoldable pub of_user : Text → UserFile → Bool
of_user u r = same r.user u

unfoldable pub picture_of : Text → SharePicture → Bool
picture_of u r = same r.user u

unfoldable pub pictured_by : Text → Text → SharePicture → Bool
pictured_by u url r = same r.user u && same r.urlmd5 url
