-- ===== src/Handlers/Share/Runs.antt =====
-- The sharing handlers run against services that keep to what they document.
use filehub_cloud.Base.{ℕ, some, Text, ◌≡◌, inl, inr, Option, none}
use filehub_cloud.Schema.Statements.{apply, update_shared_status, delete_share_file}
use filehub_cloud.Program.Defs.{View}
use filehub_cloud.Program.Servers.{Server, IsDocumented, run, Ends, Wp-run}
use filehub_cloud.Handlers.Share.{handle_share_file, handle_cancel_share_file}
use filehub_cloud.Handlers.Share.Laws.{Shared, share-Shared}
use filehub_cloud.Handlers.Share.Cancel.{Cancelled, cancel-Cancelled}

Cancelled-zero :
    (u m f : Text) (v x : View) (r : Option ℕ)
    → Cancelled u m f v r x
    → r ≡ some 0
    → (x.tables ≡ apply (delete_share_file u m f) (apply (update_shared_status 0 u m f) v.tables))
      × (x.store.hash ≡ v.store.hash)
Cancelled-zero u m f v x none h e = cc
Cancelled-zero u m f v x (some r) (inl (_, t, s)) e = (t, s)
Cancelled-zero u m f v x (some r) (inr o) e = cc

module _ (S : Server) (documented : IsDocumented S) where
  -- Every run of handleShareFile ends in one of three ways. 0: the user's entry carries the share flag,
  -- and the share list has one new row for the file, or had a row already. 3: no table changed, and the
  -- share list had a row for the file, or the ranking had it as a member, provided that all scores
  -- are equal. 1: the share list is unchanged. If a missing answer of Redis kills the run, the share
  -- list is unchanged or has the new row.
  pub share-Shared_run :
      (now time u m f : Text) (w : S.World)
      → Ends S documented (handle_share_file now time u m f) (Shared time u m f (S.view w)) w
  share-Shared_run now time u m f w =
      Wp-run S documented (handle_share_file now time u m f) (Shared time u m f (S.view w)) w
        (share-Shared time u m f (S.view w) now)

  -- When handleCancelShareFile returns 0, the flag of the user's entry and the user's rows of the share
  -- list are cleared, and the hash of file names is exactly as before: a run that removes the file's
  -- name from it never returns 0.
  pub cancel_zero :
      (u m f : Text) (w : S.World)
      → (run S (handle_cancel_share_file u m f) w).0 ≡ some 0
      → ((S.view (run S (handle_cancel_share_file u m f) w).1).tables
          ≡ apply
              (delete_share_file u m f)
              (apply (update_shared_status 0 u m f) (S.view w).tables))
        × ((S.view (run S (handle_cancel_share_file u m f) w).1).store.hash ≡ (S.view w).store.hash)
  cancel_zero u m f w = Cancelled-zero u m f (S.view w) _ _ (
      Wp-run S documented (handle_cancel_share_file u m f) (Cancelled u m f (S.view w)) w
        (cancel-Cancelled u m f (S.view w)))
