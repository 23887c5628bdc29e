-- ===== src/Handlers/Delete/Counts.antt =====
-- Reference counts across handleDeleteFile, on every run.
use filehub_cloud.Base.{ℕ, ◌<◌, some, none, Option, Text, ◌≡◌, ap, inl, inr, arith, same_refl}
use filehub_cloud.Schema.Tables.{Tables}
use filehub_cloud.Schema.Statements.{apply, delete_user_file, decrement_count, delete_file_info}
use filehub_cloud.Schema.References.{
  Balanced, IsKeyed, entries, references, owners, sum_counts, references-first,
  references-decrement, references-delete, owners-delete, entries-delete,
}
use filehub_cloud.Program.Defs.{View}
use filehub_cloud.Program.Servers.{Server, IsDocumented, run, Wp-run}
use filehub_cloud.Handlers.Delete.{handle_delete_file}
use filehub_cloud.Handlers.Delete.Laws.{Dropped, Deleted, delete-Deleted}

references_of :
    (n : Text) (s t : Tables) → s.file_info ≡ t.file_info → references n s ≡ references n t
unfolding references
references_of n s t e = ap (sum_counts n) e

owners_of :
    (n : Text) (s t : Tables) → s.user_file_list ≡ t.user_file_list → owners n s ≡ owners n t
unfolding owners
owners_of n s t e = rw e

-- The file has an owner before the deletion, so that its count is not 0.
owned_count : (u m f : Text) (t : Tables) → Balanced t → 0 < entries u m f t → 0 < references m t
owned_count u m f t b l = ground (arith, b m, owners-delete u m f m t, same_refl m)

deleted-Balanced :
    (u m f : Text) (v w : View)
    → IsKeyed v.tables
    → Balanced v.tables
    → w.timeouts ≡ v.timeouts
    → 0 < entries u m f v.tables
    → w.tables.user_file_list ≡ (apply (delete_user_file u m f) v.tables).user_file_list
    → Dropped m v w
    → Balanced w.tables
deleted-Balanced u m f v w k b granted l e (inl (_, _, inl late)) n = absurd (omega arith)
deleted-Balanced u m f v w k b granted l e (inl (_, _, inr (r, row, zero_count))) n = absurd (
    omega (arith, owned_count u m f v.tables b l, references-first m v.tables r (k.one_file m) row))
deleted-Balanced u m f v w k b granted l e (inr (r, row, _, inl (_, less, _))) n = ground (
  arith,
  references_of n w.tables (apply (decrement_count m) v.tables) less,
  owners_of n w.tables (apply (delete_user_file u m f) v.tables) e,
  references-decrement m n v.tables (k.one_file m) (owned_count u m f v.tables b l),
  owners-delete u m f n v.tables,
  k.one_entry u m f,
  b n,
)
deleted-Balanced u m f v w k b granted l e (inr (r, row, _, inr (one, gone, _))) n = ground (
  arith,
  references_of n w.tables (apply (delete_file_info m) v.tables) gone,
  owners_of n w.tables (apply (delete_user_file u m f) v.tables) e,
  references-first m v.tables r (k.one_file m) row,
  references-delete m n v.tables,
  owners-delete u m f n v.tables,
  k.one_entry u m f,
  b n,
)

Deleted-cases :
    (u m f : Text) (v w : View) (r : Option ℕ)
    → IsKeyed v.tables
    → Balanced v.tables
    → Deleted u m f v r w
    → r ≡ some 0
    → w.timeouts ≡ v.timeouts
    → Balanced w.tables × (entries u m f w.tables ≡ 0)
Deleted-cases u m f v w none k b h e g = cc
Deleted-cases u m f v w (some r) k b (inr one) e g = cc
Deleted-cases u m f v w (some r) k b (inl (_, l, gone, dropped)) e g =
    (deleted-Balanced u m f v w k b g l gone dropped, entries-delete u m f w.tables v.tables gone)

module _ (S : Server) (documented : IsDocumented S) where
  -- A run of handleDeleteFile that returns 0, and in which no wait for the lock ran out, on tables with
  -- one row a file and one entry a user and name, removes the user's entry and leaves the counts
  -- right, if they were.
  pub delete-Balanced :
      (u m f : Text) (w : S.World)
      → IsKeyed (S.view w).tables
      → Balanced (S.view w).tables
      → (run S (handle_delete_file u m f) w).0 ≡ some 0
      → (S.view (run S (handle_delete_file u m f) w).1).timeouts ≡ (S.view w).timeouts
      → Balanced (S.view (run S (handle_delete_file u m f) w).1).tables
        × (entries u m f (S.view (run S (handle_delete_file u m f) w).1).tables ≡ 0)
  delete-Balanced u m f w k b = Deleted-cases u m f (S.view w) _ _ k b (
      Wp-run S documented (handle_delete_file u m f) (Deleted u m f (S.view w)) w
        (delete-Deleted u m f (S.view w)))
