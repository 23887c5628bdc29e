-- ===== src/Handlers/Delete/Downloads.antt =====
-- What handlePvFile does for the user's own file.
use filehub_cloud.Base.{
  ℕ, ◌+◌, ◌<◌, ◌==◌, ◌&&◌, not, Bool, Option, none, some, List, [], ◌∷◌, Text, ◌≡◌, ◌⊎◌, refl, inl,
  inr, first, count, arith, Bool-cases,
}
use filehub_cloud.Schema.Tables.{UserFile, owned_by}
use filehub_cloud.Schema.Results.{number}
use filehub_cloud.Schema.Statements.{respond, apply, update_user_pv}
use filehub_cloud.Program.Defs.{View, Wp, ◌>>=◌}
use filehub_cloud.Program.Servers.{Server, IsDocumented, Ends, Wp-run}
use filehub_cloud.Common.Rules.{selected-none, selected-some, count-cases}
use filehub_cloud.Conn.Mysql.{execute_query, execute_update, next, get_int}
use filehub_cloud.Handlers.Delete.{handle_user_pv_file, user_pv_of}

-- 0: the user has the entry, and its counter is one more. 1: nothing changed.
abbrev pub OneMore : Text → Text → Text → View → Option ℕ → View → Type 0
OneMore u m f v none x = ⊥
OneMore u m f v (some r) x =
    ((r ≡ 0)
      × ((row : UserFile) × (first (owned_by u m f) v.tables.user_file_list ≡ some row)
          × (x.tables ≡ apply (update_user_pv (row.pv + 1) u m f) v.tables)))
    ⊎ ((r ≡ 1) × (x.tables ≡ v.tables))

-- The first entry is one whose counter the update changes.
first-changes :
    (p : UserFile → Bool) (a : UserFile) (rows : List UserFile)
    → first p rows ≡ some a
    → 0 < count (λ r. p r && not (r.pv == a.pv + 1)) rows
unfolding first count
first-changes p a [] e = cc
first-changes p a (x ∷ xs) e = elim (Bool-cases (p x)) [
  | inl hit ↦ ground arith
  | inr miss ↦ ground (arith, first-changes p a xs)
]

pub user_pv-OneMore : (u m f : Text) (v : View) → Wp (handle_user_pv_file u m f) (OneMore u m f v) v
unfolding handle_user_pv_file user_pv_of execute_query execute_update next get_int respond apply
    ◌>>=◌
user_pv-OneMore u m f v = elim (count-cases (owned_by u m f) (λ _. []) v.tables.user_file_list) [
  | inl e ↦ (
    inr (refl, refl),
    rw (selected-none (owned_by u m f) (λ r. number r.pv ∷ []) v.tables.user_file_list e)
        (inr (refl, refl)),
  )
  | inr l ↦
      let (a, rest, e, s) =
        selected-some (owned_by u m f) (λ r. number r.pv ∷ []) v.tables.user_file_list l in
      (
        inr (refl, refl),
        rw s (
          inr (refl, refl),
          ground (arith, first-changes (owned_by u m f) a v.tables.user_file_list e),
        ),
      )
]

module _ (S : Server) (documented : IsDocumented S) where
  -- Every run of handlePvFile for a user's own file ends with 0 or 1. With 0 the user has the file, and
  -- the counter of the entry is one more than it was; with 1 no table changed.
  pub user_pv-OneMore_run :
      (u m f : Text) (w : S.World)
      → Ends S documented (handle_user_pv_file u m f) (OneMore u m f (S.view w)) w
  user_pv-OneMore_run u m f w =
      Wp-run S documented (handle_user_pv_file u m f) (OneMore u m f (S.view w)) w
        (user_pv-OneMore u m f (S.view w))
