-- ===== src/Schema/Statements.antt =====
-- The statements, a constructor for each format string of the handlers, and their documented effect.
use filehub_cloud.Base.{
  map, ℕ, ◌+◌, ◌-◌, Bool, not, ◌&&◌, List, [], ◌∷◌, ◌++◌, Text, ◌==◌, if◌then◌else◌, keep, count, ℤ,
  length,
}
use filehub_cloud.Schema.Tables.{
  UserInfo, FileInfo, UserFile, ShareFile, SharePicture, Tables, is_file, owned_by, shared_by,
  shared_as, is_user, is_nick, of_user, picture_of, pictured, pictured_by,
}
use filehub_cloud.Schema.Results.{number, Reply, refused}
unfoldable pub use filehub_cloud.Schema.Columns.{
  ranking_columns, by_downloads, amend, selected, user_columns, status_columns, info_columns,
  pv_columns, share_columns, stored, changed, password_columns, picture_columns, url_columns,
  joined, limited, page_columns, share_page_columns, picture_page_columns, stored_page,
}

pub data Sql : Type 0 where
  -- select * from user_file_list where user, md5, file_name
  select_user_file : Text → Text → Text → Sql
  -- select shared_status from user_file_list where user, md5, file_name
  select_shared_status : Text → Text → Text → Sql
  -- select pv from user_file_list where user, md5, file_name
  select_user_pv : Text → Text → Text → Sql
  -- update user_file_list set pv where user, md5, file_name
  update_user_pv : ℕ → Text → Text → Text → Sql
  -- update user_file_list set shared_status where user, md5, file_name
  update_shared_status : ℕ → Text → Text → Text → Sql
  -- delete from user_file_list where user, md5, file_name
  delete_user_file : Text → Text → Text → Sql
  -- insert into user_file_list
  insert_user_file : UserFile → Sql
  -- select * from share_file_list where md5, file_name
  select_share_file : Text → Text → Sql
  -- select pv from share_file_list where md5, file_name
  select_share_pv : Text → Text → Sql
  -- update share_file_list set pv where md5, file_name
  update_share_pv : ℕ → Text → Text → Sql
  -- insert into share_file_list
  insert_share_file : ShareFile → Sql
  -- delete from share_file_list where user, md5, file_name
  delete_share_file : Text → Text → Text → Sql
  -- select count, file_id from file_info where md5
  select_file_info : Text → Sql
  -- update file_info set count = count + 1 where md5; the same with count - 1
  increment_count decrement_count : Text → Sql
  -- insert into file_info
  insert_file_info : FileInfo → Sql
  -- delete from file_info where md5
  delete_file_info : Text → Sql
  -- select password from user_info where user_name; the same with id
  select_password select_user_id : Text → Sql
  -- insert into user_info
  insert_user : UserInfo → Sql
  -- select count(*) from user_file_list where user
  count_user_files : Text → Sql
  -- select user_file_list.*, url, size, type, with file_info by md5, where user limit
  page_user_files : Text → ℤ → ℤ → Sql
  -- select count(*) from share_file_list
  count_share_files : Sql
  -- select share_file_list.*, url, size, type, with file_info by md5, limit
  page_share_files : ℤ → ℤ → Sql
  -- select md5, file_name, pv from share_file_list order by pv desc
  select_ranking : Sql
  -- insert into share_picture_list
  insert_picture : SharePicture → Sql
  -- select user, filemd5, file_name, pv, create_time from share_picture_list where urlmd5
  select_picture : Text → Sql
  -- select url from file_info where md5
  select_url : Text → Sql
  -- update share_picture_list set pv = pv + 1 where urlmd5
  increment_picture : Text → Sql
  -- delete from share_picture_list where user, urlmd5
  delete_picture : Text → Text → Sql
  -- select count(*) from share_picture_list where user
  count_pictures : Text → Sql
  -- select share_picture_list columns, size, with file_info by md5, where user limit
  page_pictures : Text → ℤ → ℤ → Sql

abbrev inc : FileInfo → FileInfo
inc r = record r { count = r.count + 1 }

abbrev dec : FileInfo → FileInfo
dec r = record r { count = r.count - 1 }

-- Whether a unique key already holds the new row's.
unfoldable pub taken_user_file : UserFile → Tables → Bool
taken_user_file r t = not (count (owned_by r.user r.md5 r.file_name) t.user_file_list == 0)

unfoldable pub taken_file_info : FileInfo → Tables → Bool
taken_file_info r t = not (count (is_file r.md5) t.file_info == 0)

unfoldable pub taken_user : UserInfo → Tables → Bool
taken_user r t =
    not (count (is_user r.user_name) t.user_info + count (is_nick r.nick_name) t.user_info == 0)

abbrev browsed : SharePicture → SharePicture
browsed r = record r { pv = r.pv + 1 }

abbrev counted : ℕ → Reply
counted n = stored ("count(*)" ∷ []) ((number n ∷ []) ∷ [])

-- The rows of the three pages, before the limit.
unfoldable pub user_page : Text → Tables → List (UserFile × FileInfo)
user_page u t = joined (λ r. r.md5) (keep (of_user u) t.user_file_list) t.file_info

unfoldable pub share_page : Tables → List (ShareFile × FileInfo)
share_page t = joined (λ r. r.md5) t.share_file_list t.file_info

unfoldable pub picture_page : Text → Tables → List (SharePicture × FileInfo)
picture_page u t = joined (λ r. r.filemd5) (keep (picture_of u) t.share_picture_list) t.file_info

-- The reply to a statement that the server executes. A breach of a unique key is an error; an
-- update counts the rows whose values change.
unfoldable pub respond : Sql → Tables → Reply
respond (select_user_file u m f) t =
    stored ("user" ∷ "md5" ∷ "create_time" ∷ "file_name" ∷ "shared_status" ∷ "pv" ∷ [])
      (selected (owned_by u m f) user_columns t.user_file_list)
respond (select_shared_status u m f) t =
    stored ("shared_status" ∷ []) (selected (owned_by u m f) status_columns t.user_file_list)
respond (select_user_pv u m f) t =
    stored ("pv" ∷ []) (selected (owned_by u m f) (λ r. number r.pv ∷ []) t.user_file_list)
respond (update_user_pv n u m f) t =
    changed (count (λ r. owned_by u m f r && not (r.pv == n)) t.user_file_list)
respond (update_shared_status n u m f) t =
    changed (count (λ r. owned_by u m f r && not (r.shared_status == n)) t.user_file_list)
respond (delete_user_file u m f) t = changed (count (owned_by u m f) t.user_file_list)
respond (insert_user_file r) t = if taken_user_file r t then refused else changed 1
respond (select_share_file m f) t =
    stored ("user" ∷ "md5" ∷ "file_name" ∷ "pv" ∷ "create_time" ∷ [])
      (selected (shared_as m f) share_columns t.share_file_list)
respond (select_share_pv m f) t =
    stored ("pv" ∷ []) (selected (shared_as m f) pv_columns t.share_file_list)
respond (update_share_pv n m f) t =
    changed (count (λ r. shared_as m f r && not (r.pv == n)) t.share_file_list)
respond (insert_share_file r) t = changed 1
respond (delete_share_file u m f) t = changed (count (shared_by u m f) t.share_file_list)
respond (select_file_info m) t =
    stored ("count" ∷ "file_id" ∷ []) (selected (is_file m) info_columns t.file_info)
respond (increment_count m) t = changed (count (is_file m) t.file_info)
respond (decrement_count m) t = changed (count (is_file m) t.file_info)
respond (insert_file_info r) t = if taken_file_info r t then refused else changed 1
respond (delete_file_info m) t = changed (count (is_file m) t.file_info)
respond (select_password u) t =
    stored ("password" ∷ []) (selected (is_user u) password_columns t.user_info)
respond (select_user_id u) t = stored [] (selected (is_user u) (λ r. []) t.user_info)
respond (insert_user r) t = if taken_user r t then refused else changed 1
respond (count_user_files u) t = counted (count (of_user u) t.user_file_list)
respond (page_user_files u start size) t =
    stored_page
      ("user" ∷ "md5" ∷ "create_time" ∷ "file_name" ∷ "shared_status" ∷ "pv" ∷ "url" ∷ "size"
        ∷ "type" ∷ [])
      page_columns (limited start size (user_page u t))
respond count_share_files t = counted (length t.share_file_list)
respond (page_share_files start size) t =
    stored_page ("user" ∷ "md5" ∷ "file_name" ∷ "pv" ∷ "create_time" ∷ "url" ∷ "size" ∷ "type" ∷ [])
      share_page_columns (limited start size (share_page t))
respond select_ranking t =
    stored ("md5" ∷ "file_name" ∷ "pv" ∷ []) (map ranking_columns (by_downloads t.share_file_list))
respond (insert_picture r) t = changed 1
respond (select_picture url) t =
    stored ("user" ∷ "filemd5" ∷ "file_name" ∷ "pv" ∷ "create_time" ∷ [])
      (selected (pictured url) picture_columns t.share_picture_list)
respond (select_url m) t = stored ("url" ∷ []) (selected (is_file m) url_columns t.file_info)
respond (increment_picture url) t = changed (count (pictured url) t.share_picture_list)
respond (delete_picture u url) t = changed (count (pictured_by u url) t.share_picture_list)
respond (count_pictures u) t = counted (count (picture_of u) t.share_picture_list)
respond (page_pictures u start size) t =
    stored_page ("user" ∷ "filemd5" ∷ "file_name" ∷ "urlmd5" ∷ "pv" ∷ "create_time" ∷ "size" ∷ [])
      picture_page_columns (limited start size (picture_page u t))

-- The tables after a statement that the server executes.
unfoldable pub apply : Sql → Tables → Tables
apply (update_user_pv n u m f) t = record t {
  user_file_list = amend (owned_by u m f) (λ r. record r { pv = n }) t.user_file_list;
}
apply (update_shared_status n u m f) t = record t {
  user_file_list = amend (owned_by u m f) (λ r. record r { shared_status = n }) t.user_file_list;
}
apply (delete_user_file u m f) t = record t {
  user_file_list = keep (λ r. not (owned_by u m f r)) t.user_file_list;
}
apply (insert_user_file r) t =
    if taken_user_file r t then t else record t { user_file_list = t.user_file_list ++ r ∷ [] }
apply (update_share_pv n m f) t = record t {
  share_file_list = amend (shared_as m f) (λ r. record r { pv = n }) t.share_file_list;
}
apply (insert_share_file r) t = record t { share_file_list = t.share_file_list ++ r ∷ [] }
apply (delete_share_file u m f) t = record t {
  share_file_list = keep (λ r. not (shared_by u m f r)) t.share_file_list;
}
apply (increment_count m) t = record t { file_info = amend (is_file m) inc t.file_info }
apply (decrement_count m) t = record t { file_info = amend (is_file m) dec t.file_info }
apply (insert_file_info r) t =
    if taken_file_info r t then t else record t { file_info = t.file_info ++ r ∷ [] }
apply (delete_file_info m) t = record t { file_info = keep (λ r. not (is_file m r)) t.file_info }
apply (insert_user r) t =
    if taken_user r t then t else record t { user_info = t.user_info ++ r ∷ [] }
apply (insert_picture r) t = record t { share_picture_list = t.share_picture_list ++ r ∷ [] }
apply (increment_picture url) t = record t {
  share_picture_list = amend (pictured url) browsed t.share_picture_list;
}
apply (delete_picture u url) t = record t {
  share_picture_list = keep (λ r. not (pictured_by u url r)) t.share_picture_list;
}
apply _ t = t
