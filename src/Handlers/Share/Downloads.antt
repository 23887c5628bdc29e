-- ===== src/Handlers/Share/Downloads.antt =====
-- What handlePvFile does for a shared file, where the services grant every call. ZINCRBY answers the
-- new score, and ZsetIncr takes every answer but "OK" for a failure.
use filehub_cloud.Base.{
  List, ℕ, zero, suc, ◌+◌, ◌<◌, true, false, Option, none, some, [], ◌∷◌, Text, decimal-ne_ok, ◌≡◌,
  ◌⊎◌, refl, inl, inr, sym, subst, first, count, arith, Bool-cases,
}
use filehub_cloud.Schema.Tables.{ShareFile, shared_as}
use filehub_cloud.Schema.Results.{Cell}
use filehub_cloud.Schema.Statements.{respond, apply, pv_columns, update_share_pv}
use filehub_cloud.Redis.{find, found, put, or_zero, uniform, answer, effect}
use filehub_cloud.Program.Defs.{View, ◌>>=◌, executed}
use filehub_cloud.Program.Servers.{Server}
use filehub_cloud.Program.Granted.{Granted, Granted-mono, IsGranting, Gives, Granted-run}
use filehub_cloud.Common.Rules.{selected-none, selected-some, count-cases}
use filehub_cloud.Conn.Mysql.{execute_query, execute_update, next, get_int, new_result_set}
use filehub_cloud.Conn.Cache.{code, cache_hset, zset_add, zset_exist, zset_incr}
use filehub_cloud.Conn.Rules.{either_way}
use filehub_cloud.Handlers.Share.{
  file_id, after_add, after_incr, after_exist, after_count, share_pv_of, with_share_pv,
  handle_share_pv_file,
}

-- The file goes into the ranking and the names with this score.
abbrev Entered : Text → Text → ℕ → View → ℕ → View → Type 0
Entered m f score w r x =
    ((found (find (file_id m f) w.store.zset) ≡ 0) ⊎ (uniform w.store.zset ≡ false))
    × (r ≡ 0)
    × (x.store.zset ≡ put (file_id m f) score w.store.zset)
    × (x.store.hash ≡ put (file_id m f) f w.store.hash)

-- Its score goes up by one, and the handler reports a failure.
abbrev Raised : Text → Text → View → ℕ → View → Type 0
Raised m f w r x =
    ((0 < found (find (file_id m f) w.store.zset)) ⊎ (uniform w.store.zset ≡ false))
    × (r ≡ 1)
    × (x.store.zset
        ≡ put (file_id m f) (or_zero (find (file_id m f) w.store.zset) + 1) w.store.zset)
    × (x.store.hash ≡ w.store.hash)

-- From the commands to Redis on.
abbrev Scored : Text → Text → ℕ → View → Option ℕ → View → Type 0
Scored m f score w none x = ⊥
Scored m f score w (some r) x = (x.tables ≡ w.tables) × (Entered m f score w r x ⊎ Raised m f w r x)

-- A file that is not shared changes nothing. For another one, the counter of its rows is one more than
-- that of the first row, and the file is entered in the ranking with this score, or its score raised.
abbrev pub Downloaded : Text → Text → View → Option ℕ → View → Type 0
Downloaded m f v none x = ⊥
Downloaded m f v (some r) x =
    ((count (shared_as m f) v.tables.share_file_list ≡ 0) × (r ≡ 1) × (x ≡ v))
    ⊎ ((row : ShareFile) × (first (shared_as m f) v.tables.share_file_list ≡ some row)
        × (x.tables ≡ apply (update_share_pv (row.pv + 1) m f) v.tables)
        × (Entered m f (row.pv + 1) v r x ⊎ Raised m f v r x))

exist-Scored :
    (m f : Text) (pv n : ℕ) (w : View)
    → (uniform w.store.zset ≡ true → n ≡ found (find (file_id m f) w.store.zset))
    → Granted (after_exist m f pv (code n)) (Scored m f (pv + 1) w) w
unfolding after_exist after_add after_incr zset_add cache_hset zset_incr answer effect ◌>>=◌
exist-Scored m f pv zero w h = elim (Bool-cases (uniform w.store.zset)) [
  | inl all ↦ (refl, inl (inl (sym (h all)), refl, refl, refl))
  | inr other ↦ (refl, inl (inr other, refl, refl, refl))
]
exist-Scored m f pv (suc n) w h = ground (
  arith,
  decimal-ne_ok (or_zero (find (file_id m f) w.store.zset) + 1),
  Bool-cases (uniform w.store.zset),
)

count-Scored :
    (m f : Text) (pv : ℕ) (w : View) → Granted (after_count m f pv true) (Scored m f (pv + 1) w) w
unfolding after_count zset_exist ◌>>=◌
count-Scored m f pv w = λ n h. exist-Scored m f pv n w h

module _ (m f : Text) (v : View) where
  abbrev Goal : Option ℕ → View → Type 0
  Goal = Downloaded m f v

  row-Downloaded :
      (row : ShareFile)
      → first (shared_as m f) v.tables.share_file_list ≡ some row
      → Granted
          (execute_update (update_share_pv (row.pv + 1) m f) false >>= after_count m f row.pv)
          Goal
          v
  unfolding execute_update respond ◌>>=◌
  row-Downloaded row e =
      either_way _ (λ b. Granted (after_count m f row.pv b) Goal counted)
        (Granted-mono (after_count m f row.pv true) (Scored m f (row.pv + 1) counted) Goal finish
          counted (count-Scored m f row.pv counted))
    where
      counted : View
      counted = executed (update_share_pv (row.pv + 1) m f) v

      finish : (r : Option ℕ) (x : View) → Scored m f (row.pv + 1) counted r x → Goal r x
      finish none x h = absurd h
      finish (some r) x (t, s) = inr (row, e, t, s)

  pv-Downloaded : Granted (handle_share_pv_file m f) Goal v
  unfolding handle_share_pv_file share_pv_of with_share_pv execute_query next get_int respond apply
      ◌>>=◌
  pv-Downloaded = elim (count-cases (shared_as m f) (λ _. []) v.tables.share_file_list) [
    | inl e ↦
        subst with_rows (sym (selected-none (shared_as m f) pv_columns v.tables.share_file_list e))
          (inl (e, refl, refl))
    | inr l ↦
        let (a, rest, e, s) = selected-some (shared_as m f) pv_columns v.tables.share_file_list l in
        subst with_rows (sym s) (row-Downloaded a e)
  ]
    where
      with_rows : List (List Cell) → Type 0
      with_rows rows =
          Granted
            (share_pv_of m f (some (new_result_set (record { fields = "pv" ∷ []; rows = rows }))))
            Goal v

module _ (S : Server) (granting : IsGranting S) where
  -- Every run of handlePvFile against services that grant every call ends. For a file that is not shared it
  -- returns 1 and changes nothing. For a shared one the counter of its rows becomes one more than that of
  -- the first row; and it returns 0, with the file in the ranking under this score and its name in the
  -- hash, or it returns 1, with the file's score one higher and the hash as before. If all scores are
  -- equal, it is 0 where the ranking did not have the file, and 1 where it had.
  pub download-Downloaded_run :
      (m f : Text) (w : S.World)
      → Gives S granting (handle_share_pv_file m f) (Downloaded m f (S.view w)) w
  download-Downloaded_run m f w =
      Granted-run S granting (handle_share_pv_file m f) (Downloaded m f (S.view w)) w
        (pv-Downloaded m f (S.view w))
