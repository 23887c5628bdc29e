-- ===== src/Common/Records.antt =====
-- The database and cache helpers of application/filehub/api/api_common.cc.
pub mod Collecting
use filehub_cloud.Base.{
  ℕ, zero, suc, List, [], ◌∷◌, Bool, true, false, Option, none, some, Text, same, if◌then◌else◌,
}
use filehub_cloud.Schema.Results.{Cell}
use filehub_cloud.Schema.Statements.{Sql, count_user_files}
use filehub_cloud.Program.Defs.{Prog, done, crash, remove_file, ◌>>=◌}
use filehub_cloud.Conn.Mysql.{CResultSet, next, get_int, execute_query}
use filehub_cloud.Conn.Cache.{Code, code, minus_one, cache_get}

record_code : Option CResultSet → Code
record_code none = minus_one
record_code (some r) = if (next r).1 then code 1 else code 0

-- CheckwhetherHaveRecord: 1 for a record, 0 for none, -1 for a failure.
unfoldable pub check_whether_have_record : Sql → Prog Code
unfolding record_code
check_whether_have_record s = do result_set ← execute_query s; done (record_code result_set)

unfoldable pub status_of : CResultSet × Bool → Prog (Option ℕ)
status_of (r, true) = done (some (get_int r "shared_status"))
status_of (r, false) = done none

-- GetResultOneStatus: the status, or none for -1. A NULL result set is logged, and then read.
unfoldable pub get_result_one_status : Sql → Prog (Option ℕ)
unfolding status_of
get_result_one_status s = do
  result_set ← execute_query s
  elim result_set [ none ↦ crash | some r ↦ status_of (next r) ]

-- VerifyToken, 0 for the token's user: whether it returns 0. There is a connection to the cache.
unfoldable pub verify_token : Text → Text → Prog Bool
verify_token user_name token = do name ← cache_get token; done (same name user_name)

-- RemoveFileFromFastDfs: whether the tool returns 0.
unfoldable pub remove_file_from_fast_dfs : Text → Prog Bool
remove_file_from_fast_dfs fileid =
    remove_file fileid λ failed. done (if failed then false else true)

-- `result_set && result_set->Next()`, and what is done with the row.
abbrev with_found {ℓ} : {A : Type ℓ} → A → (CResultSet → A) → CResultSet × Bool → A
with_found missing found (row, true) = found row
with_found missing found (row, false) = missing

unfoldable pub with_row {ℓ} : {A : Type ℓ} → A → (CResultSet → A) → Option CResultSet → A
with_row missing found none = missing
with_row missing found (some r) = with_found missing found (next r)

-- `while (result_set->Next())`, with what is done with each row.
collect_rows : {A : Type 0} → (CResultSet → A) → CResultSet → List (List Cell) → List A
collect_rows each r [] = []
collect_rows each r (c ∷ rest) =
    let fetched : CResultSet = record r { row = some c; rows = rest } in
    each fetched ∷ collect_rows each fetched rest

unfoldable pub collect : {A : Type 0} → (CResultSet → A) → CResultSet → List A
unfolding collect_rows
collect each r = collect_rows each r r.rows

-- GetResultOneCount: the result and `count` as it is left. A NULL result set is read. The column is read
-- only where `count` is 0.
abbrev pub counted : ℕ → CResultSet × Bool → ℕ × ℕ
counted zero (r, true) = (0, get_int r "count")
counted (suc n) (r, true) = (2, suc n)
counted n (r, false) = (1, n)

unfoldable pub get_result_one_count : Sql → ℕ → Prog (ℕ × ℕ)
get_result_one_count s n = do
  result_set ← execute_query s
  elim result_set [ none ↦ crash | some r ↦ done (counted n (next r)) ]

-- The count in the only row, and 0 without a row.
abbrev pub row_count : CResultSet × Bool → ℕ
row_count (r, true) = get_int r "count(*)"
row_count (r, false) = 0

-- DBGetUserFilesCountByUsername: the count; none for -1.
unfoldable pub db_get_user_files_count : Text → Prog (Option ℕ)
db_get_user_files_count user_name = do
  result_set ← execute_query (count_user_files user_name)
  done (elim result_set [ none ↦ none | some r ↦ some (row_count (next r)) ])
