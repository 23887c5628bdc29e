-- ===== src/Conn/Mysql.antt =====
-- CResultSet and CDBConn of application/filehub/mysql/db_pool.cc. The result of `mysql_ping` is not
-- looked at, and the call is left out; log output too.
pub mod Numerals
use Prim.Native.String.{String}
use text.Mathlib.Text.{◌==◌ as str_eq}
use filehub_cloud.Base.{
  ℕ, ◌+◌, ◌-◌, ◌*◌, Bool, true, false, ◌&&◌, Option, none, some, List, [], ◌∷◌, Text, ltb, leb,
  if◌then◌else◌, get_elem?,
}
use filehub_cloud.Schema.Results.{Cell, number, string, ResultSet, Reply, refused, answered}
use filehub_cloud.Schema.Statements.{Sql}
use filehub_cloud.Program.Defs.{Prog, done, query}

-- `row_` is the row that the last `Next` fetched, none for NULL.
pub record CResultSet : Type 0 where
  pub key_map : List (String × ℕ)
  pub rows : List (List Cell)
  pub row : Option (List Cell)

-- `map::insert` keeps the first index of a name.
number_fields : ℕ → List String → List (String × ℕ)
number_fields i [] = []
number_fields i (f ∷ fs) = (f, i) ∷ number_fields (i + 1) fs

unfoldable pub new_result_set : ResultSet → CResultSet
unfolding number_fields
new_result_set r = record { key_map = number_fields 0 r.fields; rows = r.rows; row = none }

fetch : CResultSet → List (List Cell) → CResultSet × Bool
fetch r [] = (record r { row = none }, false)
fetch r (c ∷ rest) = (record r { row = some c; rows = rest }, true)

unfoldable pub next : CResultSet → CResultSet × Bool
unfolding fetch
next r = fetch r r.rows

find_key : String → List (String × ℕ) → Option ℕ
find_key k [] = none
find_key k ((j, i) ∷ m) = if str_eq j k then some i else find_key k m

-- none is the result -1.
get_index : CResultSet → String → Option ℕ
unfolding find_key
get_index r key = find_key key r.key_map

-- atoi: the digits in front, after blanks; no column that is read so holds a sign.
digits_value : ℕ → Text → ℕ
digits_value n [] = n
digits_value n (c ∷ s) =
    let rest = digits_value (10 * n + (c - 48)) s in if leb 48 c && ltb c 58 then rest else n

pub atoi : Cell → ℕ
unfolding digits_value
atoi (number n) = n
atoi (string s) = digits_value 0 s

cell_at : CResultSet → Option ℕ → Option Cell
cell_at r none = none
cell_at r (some i) = elim r.row [ none ↦ none | some cells ↦ get_elem? cells i ]

-- 0 for an unknown column; a row is fetched before every call.
unfoldable pub get_int : CResultSet → String → ℕ
unfolding get_index atoi cell_at
get_int r key = elim (cell_at r (get_index r key)) [ none ↦ 0 | some c ↦ atoi c ]

cell_text : Cell → Text
cell_text (number n) = []
cell_text (string s) = s

-- Read for text columns alone.
unfoldable pub get_string : CResultSet → String → Text
unfolding get_index cell_text cell_at
get_string r key = elim (cell_at r (get_index r key)) [ none ↦ [] | some c ↦ cell_text c ]

succeeded : Reply → Bool
succeeded refused = false
succeeded (answered rs n) = true

unfoldable pub execute_create : Sql → Prog Bool
unfolding succeeded
execute_create s = query s λ r. done (succeeded r)

unfoldable pub execute_pass_query : Sql → Prog Bool
unfolding succeeded
execute_pass_query s = query s λ r. done (succeeded r)

unfoldable pub execute_drop : Sql → Prog Bool
unfolding succeeded
execute_drop s = query s λ r. done (succeeded r)

unfoldable pub result_of : Reply → Option CResultSet
unfolding new_result_set
result_of refused = none
result_of (answered none n) = none
result_of (answered (some rs) n) = some (new_result_set rs)

-- none for NULL: the query fails, or leaves no result set.
unfoldable pub execute_query : Sql → Prog (Option CResultSet)
unfolding result_of
execute_query s = query s λ r. done (result_of r)

updated : Bool → Reply → Bool
updated care refused = false
updated care (answered rs n) = if ltb 0 n then true else if care then false else true

unfoldable pub execute_update : Sql → Bool → Prog Bool
unfolding updated
execute_update s care = query s λ r. done (updated care r)
