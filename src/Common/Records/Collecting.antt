-- ===== src/Common/Records/Collecting.antt =====
-- Rows that a loop over a result set collects.
use Prim.Native.String.{String}
use filehub_cloud.Base.{ℕ, Option, none, some, List, [], ◌∷◌, map, ◌≡◌, refl, ap, ◌∙◌, arith}
use filehub_cloud.Schema.Results.{Cell}
use filehub_cloud.Schema.Statements.{stored_page}
use filehub_cloud.Program.Defs.{View, Prog, Wp}
use filehub_cloud.Conn.Mysql.{CResultSet, new_result_set, result_of}
use filehub_cloud.Common.Records.{collect_rows, collect}

-- A row on its own, as `each` sees it.
abbrev pub row_of : List (String × ℕ) → List Cell → List (List Cell) → CResultSet
row_of names cells rest = record { key_map = names; rows = rest; row = some cells }

module _ {A B : Type 0} (cells : A → List Cell) (each : CResultSet → B) (shown : A → B) where
  collect_rows-map :
      (r : CResultSet)
      → ((a : A) (rest : List (List Cell)) → each (row_of r.key_map (cells a) rest) ≡ shown a)
      → (xs : List A) → collect_rows each r (map cells xs) ≡ map shown xs
  unfolding collect_rows
  collect_rows-map r h [] = refl
  collect_rows-map r h (x ∷ xs) = ground (
    arith,
    h x (map cells xs),
    collect_rows-map (record r { row = some (cells x); rows = map cells xs }) h xs,
  )

  -- A loop that shows each row as `shown` does, whatever rows follow, shows them all so.
  pub collect-map :
      (r : CResultSet) (xs : List A)
      → r.rows ≡ map cells xs
      → ((a : A) (rest : List (List Cell)) → each (row_of r.key_map (cells a) rest) ≡ shown a)
      → collect each r ≡ map shown xs
  unfolding collect
  collect-map r xs e h = ap (collect_rows each r) e ∙ collect_rows-map r h xs

-- A page of rows, as its result set is handed out.
abbrev pub page_set {ℓ} : {A : Type ℓ} → List String → (A → List Cell) → List A → CResultSet
page_set names cells rows = new_result_set (record { fields = names; rows = map cells rows })

-- What is done with the result of a page: a refused limit leaves no result set.
pub Wp-page :
    {A B : Type 0} (names : List String) (cells : A → List Cell) (page : Option (List A))
    (k : Option CResultSet → Prog B) (Q : Option B → View → Type 0) (v : View)
    → Wp (k none) Q v
    → ((rows : List A) → page ≡ some rows → Wp (k (some (page_set names cells rows))) Q v)
    → Wp (k (result_of (stored_page names cells page))) Q v
unfolding result_of new_result_set
Wp-page names cells none k Q v failed shown = failed
Wp-page names cells (some rows) k Q v failed shown = shown rows refl
