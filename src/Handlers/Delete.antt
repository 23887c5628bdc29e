-- ===== src/Handlers/Delete.antt =====
-- handleDeleteFile and handlePvFile of api/api_dealfile.cc.
pub mod Laws
pub mod Counts
pub mod Downloads
use filehub_cloud.Base.{
  ℕ, ◌+◌, ◌==◌, ltb, Bool, true, false, Option, none, some, [], Text, if◌then◌else◌,
}
use filehub_cloud.Schema.Statements.{
  select_shared_status, delete_share_file, delete_user_file, select_file_info, decrement_count,
  delete_file_info, select_user_pv, update_user_pv,
}
use filehub_cloud.Program.Defs.{Prog, done, try_lock, unlock, ◌>>=◌}
use filehub_cloud.Conn.Mysql.{
  CResultSet, next, get_int, get_string, execute_query, execute_update, execute_drop,
}
use filehub_cloud.Conn.Cache.{cache_hdel, zset_zrem}
use filehub_cloud.Common.Records.{get_result_one_status, remove_file_from_fast_dfs}
use filehub_cloud.Handlers.Share.{file_id}

-- After the lock's block: the last reference takes the file out of FastDFS.
unfoldable pub remove_last : ℕ → Text → Prog ℕ
remove_last count fileid =
    if count == 1
    then (remove_file_from_fast_dfs fileid >>= λ removed. done (if removed then 0 else 1))
    else done 0

-- The reference count, under the lock; 0 is left alone.
unfoldable pub drop_reference : Text → ℕ → Text → Prog ℕ
drop_reference md5 count fileid =
    if ltb 1 count
    then (execute_update (decrement_count md5) true >>= λ updated.
        unlock (if updated then remove_last count fileid else done 1))
    else if count == 1
    then (execute_drop (delete_file_info md5) >>= λ dropped.
        unlock (if dropped then remove_last count fileid else done 1))
    else unlock (remove_last count fileid)

info_of : Text → Option CResultSet → Prog ℕ
info_of md5 none = unlock (done 1)
info_of md5 (some r) =
    let (row, fetched) = next r in
    if fetched
    then drop_reference md5 (get_int row "count") (get_string row "file_id")
    else unlock (done 1)

-- A lock that is not granted skips the block, with `count` still 0.
unfoldable pub delete_locked : Text → Bool → Prog ℕ
unfolding info_of
delete_locked md5 false = remove_last 0 []
delete_locked md5 true = execute_query (select_file_info md5) >>= info_of md5

unfoldable pub delete_owned : Text → Text → Text → Prog ℕ
delete_owned user md5 filename = do
  dropped ← execute_drop (delete_user_file user md5 filename)
  if dropped then try_lock (delete_locked md5) else done 1

-- The user's own share of the file goes first.
pub withdraw_share : Text → Text → Text → Prog Bool
withdraw_share user md5 filename = do
  removed ← zset_zrem (file_id md5 filename)
  deleted ← cache_hdel (file_id md5 filename)
  execute_drop (delete_share_file user md5 filename)

unfoldable pub delete_if : Text → Text → Text → Bool → Prog ℕ
delete_if user md5 filename withdrawn = if withdrawn then delete_owned user md5 filename else done 1

unfoldable pub delete_with_status : Text → Text → Text → Option ℕ → Prog ℕ
delete_with_status user md5 filename none = done 1
delete_with_status user md5 filename (some shared_status) =
    (if shared_status == 1 then withdraw_share user md5 filename else done true)
    >>= delete_if user md5 filename

unfoldable pub handle_delete_file : Text → Text → Text → Prog ℕ
handle_delete_file user md5 filename =
    get_result_one_status (select_shared_status user md5 filename)
    >>= delete_with_status user md5 filename

-- handlePvFile: one more download of the user's own file.
user_pv_of : Text → Text → Text → Option CResultSet → Prog ℕ
user_pv_of user md5 filename none = done 1
user_pv_of user md5 filename (some r) =
    let (row, fetched) = next r in
    if fetched
    then (execute_update (update_user_pv (get_int row "pv" + 1) user md5 filename) true
        >>= λ updated. done (if updated then 0 else 1))
    else done 1

pub handle_user_pv_file : Text → Text → Text → Prog ℕ
unfolding user_pv_of
handle_user_pv_file user md5 filename =
    execute_query (select_user_pv user md5 filename) >>= user_pv_of user md5 filename
