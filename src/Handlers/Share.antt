-- ===== src/Handlers/Share.antt =====
-- Sharing a file and taking it back: handleShareFile (api/api_dealfile.cc), handleCancelShareFile and
-- handlePvFile (api/api_deal_sharefile.cc). The clock's texts are arguments. The names fit the buffers
-- that `sprintf` writes to.
pub mod Lock
pub mod Laws
pub mod Cancel
pub mod Downloads
pub mod Runs
use filehub_cloud.Base.{
  ℕ, zero, suc, ◌+◌, ◌==◌, Bool, true, false, Option, none, some, [], ◌∷◌, ◌++◌, Text, bytes,
  if◌then◌else◌,
}
use filehub_cloud.Schema.Tables.{ShareFile}
use filehub_cloud.Schema.Statements.{
  select_share_file, update_shared_status, insert_share_file, delete_share_file, select_share_pv,
  update_share_pv,
}
use filehub_cloud.Redis.{string_key}
use filehub_cloud.Program.Defs.{Prog, done, ◌>>=◌}
use filehub_cloud.Conn.Mysql.{
  CResultSet, next, get_int, execute_query, execute_update, execute_create, execute_drop,
}
use filehub_cloud.Conn.Cache.{
  Code, code, minus_one, cache_set, cache_set_ex, cache_del, cache_hdel, cache_hset, zset_exist,
  zset_add, zset_zrem, zset_incr,
}
use filehub_cloud.Common.Records.{check_whether_have_record}

-- `sprintf(fileid, "%s%s", md5, filename)`
abbrev pub file_id : Text → Text → Text
file_id md5 filename = md5 ++ filename

abbrev pub lock_key : Text → Text → Text
lock_key md5 filename = bytes "share_lock:" ++ file_id md5 filename

abbrev pub is_one : Code → Bool
is_one (code n) = n == 1
is_one minus_one = false

abbrev pub is_zero : Code → Bool
is_zero (code n) = n == 0
is_zero minus_one = false

-- A nonempty answer to SET counts as the lock, with an expiry; an empty one as a failed attempt.
pub after_set : Prog Bool → Text → Text → Text → Prog Bool
after_set again key value [] = again
after_set again key value (c ∷ s) = cache_set_ex key 10 value >>= λ _. done true

-- The loop over the attempts that are left; between two of them the source sleeps.
pub acquire_share_lock : ℕ → Text → Text → Prog Bool
acquire_share_lock zero key value = done false
acquire_share_lock (suc attempts) key value =
    cache_set key value >>= after_set (acquire_share_lock attempts key value) key value

-- The record in both Redis structures, with score 0. The results are not looked at.
pub publish : Text → Text → Prog ℕ → Prog ℕ
publish md5 filename rest = zset_add 0 (file_id md5 filename) >>= λ _.
    cache_hset (file_id md5 filename) filename >>= λ _. rest

-- `release_lock(); return share_state;`
pub release : Text → Text → ℕ → Prog ℕ
release md5 filename share_state =
    cache_del (string_key (lock_key md5 filename)) >>= λ _. done share_state

abbrev pub share_row : Text → Text → Text → Text → ShareFile
share_row create_time user md5 filename = record {
  user = user;
  md5 = md5;
  create_time = create_time;
  file_name = filename;
  pv = 0;
}

-- A failed insertion is forgiven if the record is there.
pub look_again : Text → Text → Code → Prog ℕ
look_again md5 filename again =
    if is_one again then publish md5 filename (release md5 filename 0) else release md5 filename 1

pub after_insert : Text → Text → Bool → Prog ℕ
after_insert md5 filename true = publish md5 filename (release md5 filename 0)
after_insert md5 filename false =
    check_whether_have_record (select_share_file md5 filename) >>= look_again md5 filename

-- Steps 5 and 6: the insertion, and Redis.
pub after_update : Text → Text → Text → Text → Bool → Prog ℕ
after_update create_time user md5 filename true =
    execute_create (insert_share_file (share_row create_time user md5 filename))
    >>= after_insert md5 filename
after_update create_time user md5 filename false = release md5 filename 1

-- Step 4, unless step 3 found a record.
pub after_lookup : Text → Text → Text → Text → Code → Prog ℕ
after_lookup create_time user md5 filename existing =
    if is_one existing
    then publish md5 filename (release md5 filename 3)
    else (execute_update (update_shared_status 1 user md5 filename) false
        >>= after_update create_time user md5 filename)

-- Step 3, unless step 2 found a member.
pub after_zset : Text → Text → Text → Text → Code → Prog ℕ
after_zset create_time user md5 filename exist =
    if is_one exist
    then release md5 filename 3
    else (check_whether_have_record (select_share_file md5 filename)
        >>= after_lookup create_time user md5 filename)

-- Step 2, if step 1 got the lock.
pub after_lock : Text → Text → Text → Text → Bool → Prog ℕ
after_lock create_time user md5 filename true =
    zset_exist (file_id md5 filename) >>= after_zset create_time user md5 filename
after_lock create_time user md5 filename false = done 1

pub handle_share_file : Text → Text → Text → Text → Text → Prog ℕ
handle_share_file now create_time user md5 filename =
    acquire_share_lock 10 (lock_key md5 filename) now >>= after_lock create_time user md5 filename

-- handleCancelShareFile. The codes of the Redis calls go into `ret`, and only 0 is a success.
unfoldable pub after_hdel : Code → Prog ℕ
after_hdel deleted = done (if is_zero deleted then 0 else 1)

unfoldable pub after_zrem : Text → Text → Code → Prog ℕ
after_zrem md5 filename removed =
    if is_zero removed then cache_hdel (file_id md5 filename) >>= after_hdel else done 1

unfoldable pub after_drop : Text → Text → Bool → Prog ℕ
after_drop md5 filename dropped =
    if dropped then zset_zrem (file_id md5 filename) >>= after_zrem md5 filename else done 1

unfoldable pub after_clear : Text → Text → Text → Bool → Prog ℕ
after_clear user md5 filename cleared =
    if cleared
    then execute_drop (delete_share_file user md5 filename) >>= after_drop md5 filename
    else done 1

unfoldable pub handle_cancel_share_file : Text → Text → Text → Prog ℕ
handle_cancel_share_file user md5 filename =
    execute_update (update_shared_status 0 user md5 filename) false
    >>= after_clear user md5 filename

-- handlePvFile: the download counter of a shared file, and its score in the ranking list.
pub after_add : Text → Text → Code → Prog ℕ
after_add md5 filename added =
    if is_zero added then (cache_hset (file_id md5 filename) filename >>= λ _. done 0) else done 1

pub after_incr : Code → Prog ℕ
after_incr incremented = done (if is_zero incremented then 0 else 1)

pub after_exist : Text → Text → ℕ → Code → Prog ℕ
after_exist md5 filename pv minus_one = done 1
after_exist md5 filename pv (code zero) =
    zset_add (pv + 1) (file_id md5 filename) >>= after_add md5 filename
after_exist md5 filename pv (code (suc n)) = zset_incr (file_id md5 filename) >>= after_incr

pub after_count : Text → Text → ℕ → Bool → Prog ℕ
after_count md5 filename pv updated =
    if updated then zset_exist (file_id md5 filename) >>= after_exist md5 filename pv else done 1

pub with_share_pv : Text → Text → CResultSet × Bool → Prog ℕ
with_share_pv md5 filename (row, false) = done 1
with_share_pv md5 filename (row, true) =
    execute_update (update_share_pv (get_int row "pv" + 1) md5 filename) false
    >>= after_count md5 filename (get_int row "pv")

pub share_pv_of : Text → Text → Option CResultSet → Prog ℕ
share_pv_of md5 filename none = done 1
share_pv_of md5 filename (some r) = with_share_pv md5 filename (next r)

pub handle_share_pv_file : Text → Text → Prog ℕ
handle_share_pv_file md5 filename =
    execute_query (select_share_pv md5 filename) >>= share_pv_of md5 filename
