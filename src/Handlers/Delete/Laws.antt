-- ===== src/Handlers/Delete/Laws.antt =====
-- What handleDeleteFile does to the tables, result by result.
use filehub_cloud.Base.{
  ℕ, suc, ◌<◌, ◌==◌, Bool, true, false, Option, none, some, [], ◌∷◌, Text, ◌≡◌, sym, subst, ◌⊎◌,
  refl, inl, inr, first, arith, Bool-cases,
}
use filehub_cloud.Schema.Tables.{FileInfo, is_file}
use filehub_cloud.Schema.References.{entries}
use filehub_cloud.Schema.Statements.{
  respond, apply, info_columns, decrement_count, delete_file_info, delete_user_file,
  delete_share_file, select_shared_status,
}
use filehub_cloud.Program.Defs.{Prog, View, Wp, ◌>>=◌, executed, timed_out}
use filehub_cloud.Program.Rules.{Wp->>=, Wp-mono, Then}
use filehub_cloud.Common.Records.{get_result_one_status, remove_file_from_fast_dfs}
use filehub_cloud.Common.Rules.{selected-none, selected-some, count-cases, Wp-status}
use filehub_cloud.Conn.Mysql.{
  execute_query, execute_update, execute_drop, next, get_int, get_string, new_result_set,
}
use filehub_cloud.Conn.Cache.{cache_hdel, zset_zrem}
use filehub_cloud.Conn.Rules.{zset_zrem-Quiet, cache_hdel-Quiet, Wp-Quiet}
use filehub_cloud.Handlers.Share.{file_id}
use filehub_cloud.Handlers.Delete.{
  info_of, remove_last, drop_reference, delete_locked, delete_owned, withdraw_share,
  delete_with_status, delete_if, handle_delete_file,
}

abbrev pub unlocked : View → View
unlocked v = record v { locked = false }

-- Under the lock: the first row of the file, or none.
Wp-locked :
    (m : Text) (Q : Option ℕ → View → Type 0) (v : View)
    → Q (some 1) (unlocked v)
    → ((r : FileInfo)
        → first (is_file m) v.tables.file_info ≡ some r
        → Wp (drop_reference m r.count r.file_id) Q v)
    → Wp (delete_locked m true) Q v
unfolding delete_locked execute_query next get_int get_string ◌>>=◌ respond apply
Wp-locked m Q v missing present = elim (count-cases (is_file m) (λ _. []) v.tables.file_info) [
  | inl e ↦ (missing, rw (selected-none (is_file m) info_columns v.tables.file_info e) missing)
  | inr l ↦
      let (a, rest, e, s) = selected-some (is_file m) info_columns v.tables.file_info l in
      (
        missing,
        subst
            (λ rows.
              Wp
                (info_of m (
                  some
                    (new_result_set (record { fields = "count" ∷ "file_id" ∷ []; rows = rows }))))
                Q v)
            (sym s) (present a e),
      )
]

-- What becomes of the reference count: nothing, for a lock that was not granted or a count of 0; one
-- less; or the row and the file go.
abbrev pub Dropped : Text → View → View → Type 0
Dropped m v w =
    ((w.tables.file_info ≡ v.tables.file_info)
      × (w.removed ≡ v.removed)
      × ((w.timeouts ≡ suc v.timeouts)
          ⊎ ((r : FileInfo) × (first (is_file m) v.tables.file_info ≡ some r) × (r.count ≡ 0))))
    ⊎ ((r : FileInfo) × (first (is_file m) v.tables.file_info ≡ some r)
        × (w.timeouts ≡ v.timeouts)
        × (((1 < r.count)
              × (w.tables.file_info ≡ (apply (decrement_count m) v.tables).file_info)
              × (w.removed ≡ v.removed))
            ⊎ ((r.count ≡ 1)
                × (w.tables.file_info ≡ (apply (delete_file_info m) v.tables).file_info)
                × (w.removed ≡ r.file_id ∷ v.removed))))

-- From the lock on: success drops the reference, and user_file_list stays.
abbrev Released : Text → View → Option ℕ → View → Type 0
Released m v none w = ⊥
Released m v (some r) w =
    (w.tables.user_file_list ≡ v.tables.user_file_list) × (((r ≡ 0) × Dropped m v w) ⊎ (r ≡ 1))

release_timeout : (m : Text) (v : View) → Wp (delete_locked m false) (Released m v) (timed_out v)
unfolding delete_locked remove_last
release_timeout m v = (refl, inl (refl, inl (refl, refl, inl refl)))

release_row :
    (m : Text) (v : View) (r : FileInfo)
    → first (is_file m) v.tables.file_info ≡ some r
    → Wp (drop_reference m r.count r.file_id) (Released m v) (record v { locked = true })
unfolding drop_reference remove_last remove_file_from_fast_dfs execute_update execute_drop respond
    ◌>>=◌ apply
release_row m v r e = ground arith

-- Nothing moves but shares and the Redis data.
record SameCounts (v w : View) : Type 0 where
  files_eq : w.tables.file_info ≡ v.tables.file_info
  entries_eq : w.tables.user_file_list ≡ v.tables.user_file_list
  removed_eq : w.removed ≡ v.removed
  timeouts_eq : w.timeouts ≡ v.timeouts

abbrev drop_share : Text → Text → Text → Prog Bool
drop_share u m f = execute_drop (delete_share_file u m f)

withdraw-SameCounts :
    (u m f : Text) (v : View) → Wp (withdraw_share u m f) (λ _ w. SameCounts v w) v
unfolding withdraw_share execute_drop apply
withdraw-SameCounts u m f v =
    Wp-Quiet (zset_zrem (file_id m f)) (λ _. cache_hdel (file_id m f) >>= λ _. drop_share u m f)
      (λ _ w. SameCounts v w) v (zset_zrem-Quiet (file_id m f)) (λ w s. ground arith)
      λ _ w s.
        Wp-Quiet (cache_hdel (file_id m f)) (λ _. drop_share u m f) (λ _ x. SameCounts v x) w
          (cache_hdel-Quiet (file_id m f)) (λ x q. ground arith) (λ _ x q. ground arith)

-- 0: the entry is gone and the reference is dropped. 1: the counts move only if the entry is gone.
abbrev pub Deleted : Text → Text → Text → View → Option ℕ → View → Type 0
Deleted u m f v none w =
    (w.tables.user_file_list ≡ v.tables.user_file_list) × (w.tables.file_info ≡ v.tables.file_info)
Deleted u m f v (some r) w =
    ((r ≡ 0)
      × (0 < entries u m f v.tables)
      × (w.tables.user_file_list ≡ (apply (delete_user_file u m f) v.tables).user_file_list)
      × Dropped m v w)
    ⊎ (r ≡ 1)

-- In a view whose counts are those of `v`.
Released-Deleted :
    (u m f : Text) (v w : View)
    → SameCounts v w
    → 0 < entries u m f v.tables
    → (r : Option ℕ) (x : View) → Released m (executed (delete_user_file u m f) w) r x
    → Deleted u m f v r x
unfolding apply
Released-Deleted u m f v w s l none x h = absurd h
Released-Deleted u m f v w s l (some r) x h = ground arith

owned-Deleted :
    (u m f : Text) (v w : View)
    → SameCounts v w
    → 0 < entries u m f v.tables
    → Wp (delete_owned u m f) (Deleted u m f v) w
unfolding delete_owned execute_drop respond ◌>>=◌
owned-Deleted u m f v w s l =
    let next = Released-Deleted u m f v w s l in
    let gone = executed (delete_user_file u m f) w in
    (
      inr refl,
      (
        Wp-mono (delete_locked m false) (Released m gone) (Deleted u m f v) next (timed_out gone)
            (release_timeout m gone),
        Wp-locked m (Deleted u m f v) (record gone { locked = true }) (inr refl)
            (λ r e.
              Wp-mono (drop_reference m r.count r.file_id) (Released m gone) (Deleted u m f v) next
                _ (release_row m gone r e)),
      ),
    )

continue-Deleted :
    (u m f : Text) (v w : View) (withdrawn : Bool)
    → SameCounts v w
    → 0 < entries u m f v.tables
    → Wp (delete_if u m f withdrawn) (Deleted u m f v) w
unfolding delete_if
continue-Deleted u m f v w true s l = owned-Deleted u m f v w s l
continue-Deleted u m f v w false s l = inr refl

Then-Deleted :
    (u m f : Text) (v : View)
    → 0 < entries u m f v.tables
    → (withdrawn : Option Bool) (w : View) → SameCounts v w
    → Then (delete_if u m f) (Deleted u m f v) withdrawn w
Then-Deleted u m f v l none w s = (s.entries_eq, s.files_eq)
Then-Deleted u m f v l (some b) w s = continue-Deleted u m f v w b s l

status-Deleted :
    (u m f : Text) (v : View) (status : ℕ)
    → 0 < entries u m f v.tables
    → Wp (delete_with_status u m f (some status)) (Deleted u m f v) v
unfolding delete_with_status ◌>>=◌
status-Deleted u m f v status l = elim (Bool-cases (status == 1)) [
  | inl e ↦ rw e (
      Wp->>= (withdraw_share u m f) (delete_if u m f) (Deleted u m f v) v (
        Wp-mono (withdraw_share u m f) (λ _ w. SameCounts v w)
          (Then (delete_if u m f) (Deleted u m f v)) (Then-Deleted u m f v l) v
          (withdraw-SameCounts u m f v)))
  | inr e ↦ rw e (continue-Deleted u m f v v true (ground arith) l)
]

pub delete-Deleted : (u m f : Text) (v : View) → Wp (handle_delete_file u m f) (Deleted u m f v) v
unfolding handle_delete_file entries
delete-Deleted u m f v =
    Wp->>= (get_result_one_status (select_shared_status u m f)) (delete_with_status u m f)
      (Deleted u m f v) v
      (Wp-status (Then (delete_with_status u m f) (Deleted u m f v)) v u m f (refl, refl)
        (λ e. unfold delete_with_status in inr refl)
        (λ r l e. status-Deleted u m f v r.shared_status l))
