-- ===== src/Schema/Results.antt =====
-- What MySQL hands back: the result set of a query, and the count of affected rows.
use Prim.Native.String.{String}
use filehub_cloud.Base.{ℕ, Option, List, Text}

-- A column's text on the wire; that of an integer column is kept as its value.
pub data Cell : Type 0 where
  number : ℕ → Cell
  string : Text → Cell

-- The fields in order, and the rows that `mysql_fetch_row` hands out from the first to the last.
pub record ResultSet : Type 0 where
  pub fields : List String
  pub rows : List (List Cell)

-- A statement fails, or succeeds with a stored result (a query) and a count of affected rows.
pub data Reply : Type 0 where
  refused : Reply
  answered : Option ResultSet → ℕ → Reply
