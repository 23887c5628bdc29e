-- ===== src/Handlers/Saved.antt =====
-- Owning a file: handleSaveFile (api/api_deal_sharefile.cc), handleDealMd5 (api/api_md5.cc) and
-- storeFileinfo (api/api_upload.cc). The lock is a scoped one: it is released on each way out of its
-- block. The clock's text is an argument.
pub mod Laws
pub mod Counts
use filehub_cloud.Base.{ℕ, Bool, true, false, Text, if◌then◌else◌}
use filehub_cloud.Schema.Tables.{FileInfo, UserFile}
use filehub_cloud.Schema.Statements.{
  select_user_file, increment_count, insert_user_file, insert_file_info,
}
use filehub_cloud.Program.Defs.{Prog, done, try_lock, unlock, ◌>>=◌}
use filehub_cloud.Conn.Mysql.{execute_update, execute_create, execute_pass_query}
use filehub_cloud.Common.Records.{check_whether_have_record}
use filehub_cloud.Conn.Cache.{Code}
use filehub_cloud.Handlers.Share.{is_one}

-- The new row of user_file_list, as all three handlers insert it.
abbrev pub new_row : Text → Text → Text → Text → UserFile
new_row create_time user md5 filename = record {
  user = user;
  md5 = md5;
  create_time = create_time;
  file_name = filename;
  shared_status = 0;
  pv = 0;
}

-- What follows the increment in handleSaveFile.
pub add_user_file : Text → Text → Text → Text → Prog ℕ
add_user_file create_time user md5 filename = do
  created ← execute_create (insert_user_file (new_row create_time user md5 filename))
  done (if created then 0 else 1)

pub save_locked : Text → Text → Text → Text → Bool → Prog ℕ
save_locked create_time user md5 filename false = done 1
save_locked create_time user md5 filename true =
    execute_update (increment_count md5) true >>= λ updated.
    unlock (if updated then add_user_file create_time user md5 filename else done 1)

pub save_unless_owned : Text → Text → Text → Text → Code → Prog ℕ
save_unless_owned create_time user md5 filename existing =
    if is_one existing then done 5 else try_lock (save_locked create_time user md5 filename)

pub handle_save_file : Text → Text → Text → Text → Prog ℕ
handle_save_file create_time user md5 filename =
    check_whether_have_record (select_user_file user md5 filename)
    >>= save_unless_owned create_time user md5 filename

-- handleDealMd5. Both outcomes of the increment leave by `goto END`, so that the code behind them
-- (the insertion, and the restoring of the count) is never reached, and stands here for nothing.
pub data Md5State : Type 0 where
  md5_ok md5_failed md5_token_failed md5_file_exist : Md5State

pub md5_code : Md5State → ℕ
md5_code md5_ok = 0
md5_code md5_failed = 1
md5_code md5_token_failed = 4
md5_code md5_file_exist = 5

unfoldable pub md5_locked : Text → Bool → Prog Md5State
md5_locked md5 false = done md5_failed
md5_locked md5 true = execute_pass_query (increment_count md5) >>= λ updated.
    unlock (if updated then done md5_failed else done md5_failed)

-- The code that goes into the response.
unfoldable pub md5_unless_owned : Text → Code → Prog ℕ
unfolding md5_code
md5_unless_owned md5 existing = do
  state ← if is_one existing then done md5_file_exist else try_lock (md5_locked md5)
  done (md5_code state)

unfoldable pub handle_deal_md5 : Text → Text → Text → Prog ℕ
handle_deal_md5 user md5 filename =
    check_whether_have_record (select_user_file user md5 filename) >>= md5_unless_owned md5

-- storeFileinfo: whether it returns 0, and `file_exsit`.
pub record Stored : Type 0 where
  pub ok : Bool
  pub file_exist : Bool

-- The insertion for the user, and the lock's release at the function's end.
pub store_user_file : Text → Text → Text → Text → Bool → Prog Stored
store_user_file create_time user md5 filename exists =
    execute_create (insert_user_file (new_row create_time user md5 filename)) >>= λ created.
    unlock (done (record { ok = created; file_exist = exists }))

pub store_locked : Text → Text → Text → FileInfo → Bool → Prog Stored
store_locked create_time user filename info false = done (record { ok = false; file_exist = false })
store_locked create_time user filename info true =
    execute_create (insert_file_info info) >>= λ created.
    if created
    then store_user_file create_time user info.md5 filename false
    else (execute_pass_query (increment_count info.md5) >>= λ updated.
        if updated
        then store_user_file create_time user info.md5 filename true
        else unlock (done (record { ok = false; file_exist = false })))

pub store_fileinfo : Text → Text → Text → FileInfo → Prog Stored
store_fileinfo create_time user filename info =
    try_lock (store_locked create_time user filename info)
