-- ===== src/Handlers/Share/Laws.antt =====
-- What handleShareFile does to the tables, result by result.
use filehub_cloud.Base.{
  ℕ, ◌<◌, ◌==◌, ◌++◌, [], ◌∷◌, Bool, true, false, Option, none, some, Text, ◌≡◌, ◌∙◌, ap, subst,
  ◌⊎◌, refl, inl, inr, count, arith, Bool-cases, unless, ==_iff, sym,
}
use filehub_cloud.Schema.Tables.{Tables, shared_as}
use filehub_cloud.Schema.Statements.{
  respond, apply, select_share_file, update_shared_status, insert_share_file,
}
use filehub_cloud.Redis.{uniform, find, found}
use filehub_cloud.Program.Defs.{View, Wp, ◌>>=◌, executed}
use filehub_cloud.Program.Rules.{Wp->>=, Wp-mono, Then}
use filehub_cloud.Common.Records.{check_whether_have_record}
use filehub_cloud.Common.Rules.{Wp-check_share_file}
use filehub_cloud.Conn.Mysql.{execute_create, execute_update}
use filehub_cloud.Conn.Cache.{Code, code, minus_one, cache_del, cache_hset, zset_exist, zset_add}
use filehub_cloud.Conn.Rules.{Wp-Quiet, either_way, zset_add-Quiet, cache_hset-Quiet}
use filehub_cloud.Handlers.Share.Lock.{SameRanking, acquire-SameRanking}
use filehub_cloud.Handlers.Share.{
  file_id, lock_key, acquire_share_lock, publish, release, share_row, look_again, after_insert,
  after_update, after_lookup, after_zset, after_lock, handle_share_file,
}

-- The ways out: the lock's key goes, and before that the record may go to Redis.
release-keeps :
    (m f : Text) (n : ℕ) (w : View)
    → Wp (release m f n) (λ r x. (x.tables ≡ w.tables) × (r ≡ some n)) w
unfolding release cache_del ◌>>=◌
release-keeps m f n w = ground arith

abbrev Quits : ℕ → View → Option ℕ → View → Type 0
Quits n w r x = (x.tables ≡ w.tables) × ((r ≡ none) ⊎ (r ≡ some n))

publish-keeps : (m f : Text) (n : ℕ) (w : View) → Wp (publish m f (release m f n)) (Quits n w) w
unfolding publish
publish-keeps m f n w =
    Wp-Quiet (zset_add 0 (file_id m f)) (λ _. cache_hset (file_id m f) f >>= λ _. release m f n)
      (Quits n w) w (zset_add-Quiet 0 (file_id m f)) (λ x s. (s.tables_eq, inl refl))
      λ _ x s.
        Wp-Quiet (cache_hset (file_id m f) f) (λ _. release m f n) (Quits n w) x
          (cache_hset-Quiet (file_id m f) f) (λ y q. (q.tables_eq ∙ s.tables_eq, inl refl))
          λ _ y q.
            Wp-mono (release m f n) (λ r z. (z.tables ≡ y.tables) × (r ≡ some n)) (Quits n w)
              (λ r z h. (h.0 ∙ q.tables_eq ∙ s.tables_eq, inr h.1)) y (release-keeps m f n y)

Wp-exist :
    (Q : Option Code → View → Type 0) (w : View) (k : Text)
    → Q none w
    → Q (some minus_one) w
    → ((n : ℕ)
        → (uniform w.store.zset ≡ true → n ≡ found (find k w.store.zset))
        → Q (some (code n)) w)
    → Wp (zset_exist k) Q w
unfolding zset_exist
Wp-exist Q w k lost failed answered = (failed, (lost, (λ _. failed), answered))

-- The tables of a share: the flag of the user's entry, and the new row.
abbrev pub Listed : Text → Text → Text → Text → View → View → Type 0
Listed time u m f v x =
    (x.tables.share_file_list ≡ v.tables.share_file_list)
    ⊎ (x.tables.share_file_list ≡ v.tables.share_file_list ++ share_row time u m f ∷ [])

abbrev pub rows_of : Text → Text → View → ℕ
rows_of m f v = count (shared_as m f) v.tables.share_file_list

-- 0: the entry is flagged and the file is in the share list, by the new row or by one that the second
-- look found. 3: nothing changed, and the file is in the share list, or in the ranking if ZLEXCOUNT
-- is specified for it. 1 (or no result, for a crash): at most the new row was added.
abbrev pub Shared : Text → Text → Text → Text → View → Option ℕ → View → Type 0
Shared time u m f v none x = Listed time u m f v x
Shared time u m f v (some r) x =
    ((r ≡ 0)
      × (x.tables.user_file_list ≡ (apply (update_shared_status 1 u m f) v.tables).user_file_list)
      × ((x.tables.share_file_list ≡ v.tables.share_file_list ++ share_row time u m f ∷ [])
          ⊎ ((x.tables.share_file_list ≡ v.tables.share_file_list) × (0 < rows_of m f v))))
    ⊎ ((r ≡ 3)
        × (x.tables ≡ v.tables)
        × ((0 < rows_of m f v)
            ⊎ ((uniform v.store.zset ≡ false) ⊎ (found (find (file_id m f) v.store.zset) ≡ 1))))
    ⊎ ((r ≡ 1) × (x.tables.share_file_list ≡ v.tables.share_file_list))

abbrev Positive : ℕ → Type 0
Positive n = 0 < n

module _ (time u m f : Text) (v : View) where
  abbrev Goal : Option ℕ → View → Type 0
  Goal = Shared time u m f v

  -- Step 6 after the insertion.
  inserted-Shared :
      (w : View)
      → w.tables
        ≡ apply
            (insert_share_file (share_row time u m f))
            (apply (update_shared_status 1 u m f) v.tables)
      → Wp (after_insert m f true) Goal w
  unfolding after_insert apply
  inserted-Shared w e =
      Wp-mono (publish m f (release m f 0)) (Quits 0 w) Goal finish w (publish-keeps m f 0 w)
    where
      finish : (r : Option ℕ) (x : View) → Quits 0 w r x → Goal r x
      finish none x h = ground arith
      finish (some n) x h = ground arith

  abbrev rows : Tables → ℕ
  rows t = count (shared_as m f) t.share_file_list

  -- The second look after a refused insertion.
  look_again-Shared :
      (w : View)
      → w.tables ≡ apply (update_shared_status 1 u m f) v.tables
      → Wp (after_insert m f false) Goal w
  unfolding after_insert look_again apply
  look_again-Shared w e =
      Wp->>= (check_whether_have_record (select_share_file m f)) (look_again m f) Goal w
        (Wp-check_share_file (Then (look_again m f) Goal) w m f failed (λ _. failed) present)
    where
      refused : (r : Option ℕ) (x : View) → (x.tables ≡ w.tables) × (r ≡ some 1) → Goal r x
      refused none x h = cc
      refused (some n) x h = ground arith

      failed : Wp (release m f 1) Goal w
      failed =
          Wp-mono (release m f 1) (λ r x. (x.tables ≡ w.tables) × (r ≡ some 1)) Goal refused w
            (release-keeps m f 1 w)

      found_row : 0 < rows_of m f v → (r : Option ℕ) (x : View) → Quits 0 w r x → Goal r x
      found_row l none x h = ground arith
      found_row l (some n) x h = ground arith

      present : 0 < rows_of m f w → Wp (look_again m f (code 1)) Goal w
      present l =
          Wp-mono (publish m f (release m f 0)) (Quits 0 w) Goal
            (found_row (subst Positive (ap rows e) l)) w (publish-keeps m f 0 w)

  -- Steps 4 to 6, the row not being known to be there.
  update-Shared :
      (w : View)
      → w.tables ≡ v.tables
      → Wp (execute_update (update_shared_status 1 u m f) false >>= after_update time u m f) Goal w
  unfolding execute_update after_update execute_create respond ◌>>=◌
  update-Shared w e = (
    Wp-mono (release m f 1) (λ r x. (x.tables ≡ w.tables) × (r ≡ some 1)) Goal refused w
        (release-keeps m f 1 w),
    either_way _ (λ b. Wp (after_update time u m f b) Goal flagged)
        (
          look_again-Shared flagged (ap (apply (update_shared_status 1 u m f)) e),
          inserted-Shared (executed (insert_share_file (share_row time u m f)) flagged) (
              ap
                (λ t.
                  apply (insert_share_file (share_row time u m f))
                    (apply (update_shared_status 1 u m f) t))
                e),
        ),
  )
    where
      flagged : View
      flagged = executed (update_shared_status 1 u m f) w

      refused : (r : Option ℕ) (x : View) → (x.tables ≡ w.tables) × (r ≡ some 1) → Goal r x
      refused none x h = cc
      refused (some n) x h = ground arith

  -- Steps 3 to 6.
  lookup-Shared :
      (w : View)
      → w.tables ≡ v.tables
      → Wp (check_whether_have_record (select_share_file m f) >>= after_lookup time u m f) Goal w
  unfolding after_lookup
  lookup-Shared w e =
      Wp->>= (check_whether_have_record (select_share_file m f)) (after_lookup time u m f) Goal w (
        Wp-check_share_file (Then (after_lookup time u m f) Goal) w m f (update-Shared w e)
          (λ _. update-Shared w e) (λ l. present (subst Positive (ap rows e) l)))
    where
      known : 0 < rows_of m f v → (r : Option ℕ) (x : View) → Quits 3 w r x → Goal r x
      known l none x h = ground arith
      known l (some n) x h = ground arith

      present : 0 < rows_of m f v → Wp (publish m f (release m f 3)) Goal w
      present l =
          Wp-mono (publish m f (release m f 3)) (Quits 3 w) Goal (known l) w (publish-keeps m f 3 w)

  -- Steps 2 to 6, with the ranking still the first one.
  locked-Shared : (w : View) → SameRanking v w → Wp (after_lock time u m f true) Goal w
  unfolding after_lock after_zset
  locked-Shared w s = Wp->>= (zset_exist (file_id m f)) (after_zset time u m f) Goal w (
      Wp-exist (Then (after_zset time u m f) Goal) w (file_id m f)
        (inl (ap (λ t. t.share_file_list) s.tables_eq)) (lookup-Shared w s.tables_eq) answered)
    where
      ranked :
          (uniform v.store.zset ≡ true → found (find (file_id m f) v.store.zset) ≡ 1)
          → (r : Option ℕ) (x : View) → (x.tables ≡ w.tables) × (r ≡ some 3)
          → Goal r x
      ranked h none x q = cc
      ranked h (some n) x q =
          inr (inl (cc, q.0 ∙ s.tables_eq, inr (unless (uniform v.store.zset) h)))

      answered :
          (n : ℕ)
          → (uniform w.store.zset ≡ true → n ≡ found (find (file_id m f) w.store.zset))
          → Wp (after_zset time u m f (code n)) Goal w
      answered n h = elim (Bool-cases (n == 1)) [
        | inl e ↦
            let original : uniform v.store.zset ≡ true
                → n ≡ found (find (file_id m f) v.store.zset) =
              subst (λ z. uniform z ≡ true → n ≡ found (find (file_id m f) z)) s.zset_eq h in
            rw e (
              Wp-mono (release m f 3) (λ r x. (x.tables ≡ w.tables) × (r ≡ some 3)) Goal
                (ranked (λ k. sym (original k) ∙ (==_iff n 1).0 e)) w (release-keeps m f 3 w))
        | inr e ↦ rw e (lookup-Shared w s.tables_eq)
      ]

  pub share-Shared : (now : Text) → Wp (handle_share_file now time u m f) Goal v
  unfolding handle_share_file
  share-Shared now =
      Wp->>= (acquire_share_lock 10 (lock_key m f) now) (after_lock time u m f) Goal v (
        Wp-mono (acquire_share_lock 10 (lock_key m f) now) (λ _ w. SameRanking v w)
          (Then (after_lock time u m f) Goal) next v
          (acquire-SameRanking v 10 (lock_key m f) now v
            (record { tables_eq = refl; zset_eq = refl; hash_eq = refl })))
    where
      next : (b : Option Bool) (w : View) → SameRanking v w → Then (after_lock time u m f) Goal b w
      next none w s = inl (ap (λ t. t.share_file_list) s.tables_eq)
      next (some true) w s = locked-Shared w s
      next (some false) w s =
          unfold after_lock in inr (inr (refl, ap (λ t. t.share_file_list) s.tables_eq))
