-- ===== src/Tests/Files.antt =====
-- The file handlers at concrete tables: `ann` owns one file, which counts one reference.
use filehub_cloud.Base.{
  ◌++◌, false, some, [], ◌∷◌, Text, bytes, same, count, keep, ◌≡◌, refl, arith,
}
use filehub_cloud.Schema.Tables.{FileInfo, Tables, is_file, owned_by}
use filehub_cloud.Schema.Statements.{
  apply, respond, update_shared_status, delete_share_file, amend, selected,
}
use filehub_cloud.Schema.References.{
  Balanced, IsKeyed, references, owners, files, entries, sum_counts, has_md5,
}
use filehub_cloud.Redis.{answer, effect, find}
use filehub_cloud.Program.Defs.{View, ◌>>=◌}
use filehub_cloud.Program.Servers.{run, Ends}
use filehub_cloud.Conn.Mysql.{
  execute_create, execute_update, execute_drop, execute_query, next, get_int, get_string,
}
use filehub_cloud.Conn.Cache.{cache_hdel, zset_zrem}
use filehub_cloud.Common.Records.{
  check_whether_have_record, get_result_one_status, status_of, remove_file_from_fast_dfs,
}
use filehub_cloud.Handlers.Saved.{handle_save_file, handle_deal_md5, Stored, new_row}
use filehub_cloud.Handlers.Saved.Laws.{Md5Dealt}
use filehub_cloud.Handlers.Saved.Counts.{SaveCounted, save-Balanced, md5-Md5Dealt_run}
use filehub_cloud.Handlers.Delete.{
  handle_delete_file, handle_user_pv_file, delete_with_status, delete_if, delete_owned,
  delete_locked, drop_reference, remove_last,
}
use filehub_cloud.Handlers.Delete.Counts.{delete-Balanced}
use filehub_cloud.Handlers.Delete.Downloads.{OneMore, user_pv-OneMore_run}
use filehub_cloud.Handlers.Share.{
  share_row, handle_share_file, handle_cancel_share_file, handle_share_pv_file, after_hdel,
  after_zrem, after_drop, after_clear,
}
use filehub_cloud.Handlers.Share.Laws.{Shared}
use filehub_cloud.Handlers.Share.Downloads.{Downloaded, download-Downloaded_run}
use filehub_cloud.Handlers.Share.Runs.{share-Shared_run, cancel_zero}
use filehub_cloud.Tests.Services.{obliging, obliging-IsDocumented, obliging-IsGranting}
use filehub_cloud.Program.Granted.{Gives}

abbrev pub ann : Text
ann = bytes "ann"

abbrev bob : Text
bob = bytes "bob"

abbrev pub digest : Text
digest = bytes "d1"

abbrev other_digest : Text
other_digest = bytes "d2"

abbrev pub picture : Text
picture = bytes "a.png"

abbrev pub now : Text
now = bytes "2026"

abbrev info : Text → FileInfo
info md5 = record {
  md5 = md5;
  file_id = bytes "group1/x";
  url = bytes "http://x";
  size = bytes "7";
  type = bytes "png";
  count = 1;
}

abbrev pub tables : Tables
tables = record {
  user_info = [];
  file_info = info digest ∷ [];
  user_file_list = new_row now ann digest picture ∷ [];
  share_file_list = [];
  share_picture_list = [];
}

abbrev pub start : View
start = record {
  tables = tables;
  store = record { strings = []; zset = []; hash = [] };
  locked = false;
  timeouts = 0;
  unprepared = 0;
  removed = [];
}

-- `ann` shares the file: the share list, the ranking and the names have it.
abbrev pub published : View
published = record start {
  tables = record tables { share_file_list = share_row now ann digest picture ∷ [] };
  store = record {
    strings = [];
    zset = (digest ++ picture, 0) ∷ [];
    hash = (digest ++ picture, picture) ∷ [];
  };
}

pub tables-Balanced : Balanced tables
unfolding references owners sum_counts is_file has_md5 count
tables-Balanced m = ground arith

pub tables-IsKeyed : IsKeyed tables
unfolding files entries count
tables-IsKeyed = record { one_file = λ m. ground arith; one_entry = λ u m f. ground arith }

save-Balanced_example :
    Ends obliging obliging-IsDocumented
      (handle_save_file now bob digest picture)
      (SaveCounted bob digest picture start)
      start
save-Balanced_example =
    save-Balanced obliging obliging-IsDocumented now bob digest picture start tables-IsKeyed
      tables-Balanced

md5-Md5Dealt_example :
    Ends obliging obliging-IsDocumented
      (handle_deal_md5 bob digest picture)
      (Md5Dealt bob digest picture start)
      start
md5-Md5Dealt_example = md5-Md5Dealt_run obliging obliging-IsDocumented bob digest picture start

-- The instant upload raises the count to 2 with one owner.
md5_leaks : references digest (run obliging (handle_deal_md5 bob digest picture) start).1.tables ≡ 2
unfolding run handle_deal_md5 filehub_cloud.Handlers.Saved.md5_unless_owned
    filehub_cloud.Handlers.Saved.md5_locked check_whether_have_record execute_query next respond
    apply selected owned_by same ◌>>=◌ amend is_file references sum_counts
    filehub_cloud.Conn.Mysql.execute_pass_query
md5_leaks = refl

delete_run : (run obliging (handle_delete_file ann digest picture) start).0 ≡ some 0
unfolding run handle_delete_file delete_with_status delete_if delete_owned delete_locked
    drop_reference remove_last get_result_one_status status_of remove_file_from_fast_dfs
    execute_query execute_update execute_drop next get_int get_string respond apply selected
    owned_by is_file same ◌>>=◌ keep
delete_run = refl

delete_granted : (run obliging (handle_delete_file ann digest picture) start).1.timeouts ≡ 0
unfolding run handle_delete_file delete_with_status delete_if delete_owned delete_locked
    drop_reference remove_last get_result_one_status status_of remove_file_from_fast_dfs
    execute_query execute_update execute_drop next get_int get_string respond apply selected
    owned_by is_file same ◌>>=◌ keep
delete_granted = refl

delete-Balanced_example :
    Balanced (run obliging (handle_delete_file ann digest picture) start).1.tables
    × (entries ann digest picture
          (run obliging (handle_delete_file ann digest picture) start).1.tables
        ≡ 0)
delete-Balanced_example =
    delete-Balanced obliging obliging-IsDocumented ann digest picture start tables-IsKeyed
      tables-Balanced delete_run delete_granted

share-Shared_example :
    Ends obliging obliging-IsDocumented
      (handle_share_file now now ann digest picture)
      (Shared now ann digest picture start)
      start
share-Shared_example =
    share-Shared_run obliging obliging-IsDocumented now now ann digest picture start

cancel_run : (run obliging (handle_cancel_share_file ann digest picture) start).0 ≡ some 0
unfolding run handle_cancel_share_file after_clear after_drop after_zrem after_hdel execute_update
    execute_drop zset_zrem cache_hdel respond answer effect ◌>>=◌ count owned_by same find
cancel_run = refl

cancel_zero_example :
    ((run obliging (handle_cancel_share_file ann digest picture) start).1.tables
      ≡ apply
          (delete_share_file ann digest picture)
          (apply (update_shared_status 0 ann digest picture) tables))
    × ((run obliging (handle_cancel_share_file ann digest picture) start).1.store.hash ≡ [])
cancel_zero_example = cancel_zero obliging obliging-IsDocumented ann digest picture start cancel_run

download-Downloaded_example :
    Gives obliging obliging-IsGranting
      (handle_share_pv_file digest picture)
      (Downloaded digest picture published)
      published
download-Downloaded_example =
    download-Downloaded_run obliging obliging-IsGranting digest picture published

-- A published file is taken back in full, and the answer is a failure.
cancel_published : (run obliging (handle_cancel_share_file ann digest picture) published).0 ≡ some 1
unfolding run handle_cancel_share_file after_clear after_drop after_zrem after_hdel execute_update
    execute_drop zset_zrem cache_hdel respond answer effect ◌>>=◌ count owned_by same find
cancel_published = refl

user_pv-OneMore_example :
    Ends obliging obliging-IsDocumented
      (handle_user_pv_file ann digest picture)
      (OneMore ann digest picture start)
      start
user_pv-OneMore_example =
    user_pv-OneMore_run obliging obliging-IsDocumented ann digest picture start
