-- ===== src/Conn/Rules/Ranks.antt =====
-- What the commands on the ranking and the names give.
use filehub_cloud.Base.{
  ℕ, Option, none, some, List, Text, ℤ, take, ◌≡◌, sym, subst, inl, inr, Option-cases,
}
use filehub_cloud.Redis.{find, shown, scored, answer, effect, range}
use filehub_cloud.Program.Defs.{View, Wp}
use filehub_cloud.Conn.Mysql.Numerals.{atoi-decimal}
use filehub_cloud.Conn.Cache.{
  Code, code, minus_one, string_or_none, score_or_error, cache_hget, zset_get_score, zset_zrevrange,
  zset_zcard,
}

pub Wp-hget :
    (f : Text) (Q : Option (Option Text) → View → Type 0) (v : View)
    → Q (some none) v
    → ((s : Text) → find f v.store.hash ≡ some s → Q (some (some s)) v)
    → Wp (cache_hget f) Q v
unfolding cache_hget answer effect
Wp-hget f Q v missing hit = elim (Option-cases (find f v.store.hash)) [
  | inl e ↦ (missing, (missing, (λ _. missing), at missing (sym e)))
  | inr (s, e) ↦ (missing, (missing, (λ _. missing), at (hit s e) (sym e)))
]
  where
    at :
        {o p : Option Text}
        → Q (some (string_or_none (shown o))) v
        → o ≡ p
        → Q (some (string_or_none (shown p))) v
    at h e = subst (λ o. Q (some (string_or_none (shown o))) v) e h

pub Wp-score :
    (m : Text) (Q : Option Code → View → Type 0) (v : View)
    → Q none v
    → Q (some minus_one) v
    → ((n : ℕ) → find m v.store.zset ≡ some n → Q (some (code n)) v)
    → Wp (zset_get_score m) Q v
unfolding zset_get_score answer effect
Wp-score m Q v lost missing hit = elim (Option-cases (find m v.store.zset)) [
  | inl e ↦ (missing, (lost, (λ _. missing), at missing (sym e)))
  | inr (n, e) ↦ (
    missing,
    (
      lost,
      (λ _. missing),
      at (subst (λ k. Q (some (code k)) v) (sym (atoi-decimal n)) (hit n e)) (sym e),
    ),
  )
]
  where
    at :
        {o p : Option ℕ}
        → Q (some (score_or_error (scored o))) v
        → o ≡ p
        → Q (some (score_or_error (scored p))) v
    at h e = subst (λ o. Q (some (score_or_error (scored o))) v) e h

pub Wp-range :
    (start end_pos : ℤ) (n : ℕ) (Q : Option (Option (List Text)) → View → Type 0) (v : View)
    → Q none v
    → Q (some none) v
    → Q (some (some (take n (range start end_pos v.store.zset)))) v
    → Wp (zset_zrevrange start end_pos n) Q v
unfolding zset_zrevrange answer effect
Wp-range start end_pos n Q v lost refused given = (refused, (lost, (λ _. refused), given))

pub Wp-card :
    (Q : Option Code → View → Type 0) (v : View)
    → Q none v
    → Q (some minus_one) v
    → ((n : ℕ) → Q (some (code n)) v)
    → Wp zset_zcard Q v
unfolding zset_zcard answer effect
Wp-card Q v lost refused given = (refused, (lost, (λ _. refused), given _))
