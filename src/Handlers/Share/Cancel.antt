-- ===== src/Handlers/Share/Cancel.antt =====
-- What handleCancelShareFile does. HDEL answers 1 for a field that it removes, and the handler takes
-- every answer but 0 for a failure.
use filehub_cloud.Base.{ℕ, Option, none, some, List, [], ◌∷◌, Text, ◌≡◌, ◌⊎◌, refl, inr, arith}
use filehub_cloud.Schema.Statements.{respond, apply, update_shared_status, delete_share_file}
use filehub_cloud.Redis.{find, erase, found, answer, effect}
use filehub_cloud.Program.Defs.{View, Wp, ◌>>=◌, executed}
use filehub_cloud.Program.Rules.{Wp->>=}
use filehub_cloud.Conn.Mysql.{execute_update, execute_drop}
use filehub_cloud.Conn.Cache.{cache_hdel, zset_zrem}
use filehub_cloud.Conn.Rules.{either_way}
use filehub_cloud.Handlers.Share.{
  file_id, after_hdel, after_zrem, after_drop, after_clear, handle_cancel_share_file,
}

find-erase : (k : Text) (h : List (Text × Text)) → find k h ≡ none → erase k h ≡ h
unfolding find erase
find-erase k [] e = refl
find-erase k ((j, x) ∷ h) e = ground (arith, find-erase k h)

found-none : (o : Option Text) → found o ≡ 0 → o ≡ none
found-none none e = refl
found-none (some v) e = absurd (omega arith)

-- 0: the entry's flag and the user's row of the share list are gone, and the hash of file names is
-- what it was. A crash comes after the tables are changed.
abbrev pub Cancelled : Text → Text → Text → View → Option ℕ → View → Type 0
Cancelled u m f v none x =
    x.tables ≡ apply (delete_share_file u m f) (apply (update_shared_status 0 u m f) v.tables)
Cancelled u m f v (some r) x =
    ((r ≡ 0)
      × (x.tables ≡ apply (delete_share_file u m f) (apply (update_shared_status 0 u m f) v.tables))
      × (x.store.hash ≡ v.store.hash))
    ⊎ (r ≡ 1)

module _ (u m f : Text) (v : View) where
  abbrev Goal : Option ℕ → View → Type 0
  Goal = Cancelled u m f v

  -- The tables are done with, and the hash is untouched.
  record Cleared (w : View) : Type 0 where
    tables_eq :
        w.tables ≡ apply (delete_share_file u m f) (apply (update_shared_status 0 u m f) v.tables)
    hash_eq : w.store.hash ≡ v.store.hash

  hdel-Cancelled : (w : View) → Cleared w → Wp (cache_hdel (file_id m f) >>= after_hdel) Goal w
  unfolding cache_hdel after_hdel answer effect ◌>>=◌
  hdel-Cancelled w c =
      ground
        (arith, found-none (find (file_id m f) w.store.hash), find-erase (file_id m f) w.store.hash)

  zrem-Cancelled : (w : View) → Cleared w → Wp (zset_zrem (file_id m f) >>= after_zrem m f) Goal w
  unfolding after_zrem
  zrem-Cancelled w c = Wp->>= (zset_zrem (file_id m f)) (after_zrem m f) Goal w (
      unfold zset_zrem answer effect in
      (
        inr refl,
        (
          c.tables_eq,
          (λ _. inr refl),
          hdel-Cancelled _ (record { tables_eq = c.tables_eq; hash_eq = c.hash_eq }),
        ),
      ))

  pub cancel-Cancelled : Wp (handle_cancel_share_file u m f) Goal v
  unfolding handle_cancel_share_file after_clear after_drop execute_update execute_drop respond
      ◌>>=◌
  cancel-Cancelled = (
    inr refl,
    either_way _ (λ b. Wp (after_clear u m f b) Goal flagged)
        (
          inr refl,
          zrem-Cancelled (executed (delete_share_file u m f) flagged)
              (record { tables_eq = refl; hash_eq = refl }),
        ),
  )
    where
      flagged : View
      flagged = executed (update_shared_status 0 u m f) v
