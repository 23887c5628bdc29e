-- ===== src/Client/Orderly.antt =====
-- Use of a connection: when commands are sent, contexts freed, and attempts made.
pub mod Commands
pub mod Session
use filehub_cloud.Base.{
  is_zero, ℤ, negsuc, ℕ, ◌<◌, ◌+◌, ◌%◌, ◌^◌, Bool, true, false, Option, none, some, List, [], ◌∷◌,
  ◌≡◌, refl, sym, ◌∙◌, arith, Bool-cases, inl, inr, Text, ltb,
}
use filehub_cloud.Client.Link.{
  Link, Event, told, attempted, sent, sent_format, freed, Connected, null, broken, connected,
  Always, Always->>=, ◌>>=◌, Reply, done, free,
}
use filehub_cloud.Client.Keys.{joined, stored, m_get, m_get_array, answered_m_get, m_get_text}
use filehub_cloud.Client.Hashes.{h_get_into}
use filehub_cloud.Client.Connecting.{
  CacheConn, authenticated, checked, or_crash, unchecked, cache_init, open_context, authenticate,
  select_db, de_init, guarded, unguarded, after_init, dropped,
}

-- A context is there, after the events, the last one first.
abbrev pub opened : List Event → Bool
opened [] = false
opened (attempted null ∷ es) = opened es
opened (attempted broken ∷ es) = true
opened (attempted connected ∷ es) = true
opened (freed ∷ es) = false
opened (e ∷ es) = opened es

-- What the clock said last.
abbrev pub second : List Event → Option ℕ
second [] = none
second (told t ∷ es) = some t
second (e ∷ es) = second es

-- What it had said last at the last attempt.
abbrev pub attempt : List Event → Option ℕ
attempt [] = none
attempt (attempted o ∷ es) = second es
attempt (e ∷ es) = attempt es

-- The second of an attempt is read from the clock, and later than that of the attempt before.
abbrev pub IsLater : Option ℕ → Option ℕ → Type 0
IsLater a none = ⊥
IsLater none (some t) = Unit
IsLater (some s) (some t) = s < t

-- Commands and redisFree find a context, an attempt finds none and has a later second than the one before.
abbrev pub IsOrderly : List Event → Type 0
IsOrderly [] = Unit
IsOrderly (told t ∷ es) = IsOrderly es
IsOrderly (attempted o ∷ es) = (opened es ≡ false) × IsLater (attempt es) (second es) × IsOrderly es
IsOrderly (sent words ∷ es) = (opened es ≡ true) × IsOrderly es
IsOrderly (sent_format s ∷ es) = (opened es ≡ true) × IsOrderly es
IsOrderly (freed ∷ es) = (opened es ≡ true) × IsOrderly es

-- The field keeps the second of the last attempt.
abbrev pub Kept : Option ℕ → ℕ → Type 0
Kept none last = Unit
Kept (some s) last = s ≡ last

-- What a CacheConn knows of its events.
abbrev pub Knows : CacheConn → List Event → Type 0
Knows c es =
    (opened es ≡ c.context)
    × Kept (attempt es) c.last_connect_time
    × (c.last_connect_time < 2 ^ 63)
    × IsOrderly es

-- What `Init` ends with: 0 only with a context.
abbrev pub Opens : Option (ℤ × CacheConn) → List Event → Type 0
Opens none es = IsOrderly es
Opens (some (i, c)) es = (is_zero i ≡ true → c.context ≡ true) × Knows c es

-- What an operation ends with: a connection, or a crash.
abbrev pub Ends : {A : Type 0} → Option (A × CacheConn) → List Event → Type 0
Ends none es = IsOrderly es
Ends (some (a, c)) es = Knows c es

abbrev pub Keeps : {A : Type 0} → (CacheConn → Link (A × CacheConn)) → Type 0
Keeps f = (c : CacheConn) (es : List Event) → Knows c es → Always (f c) Ends es

pub Knows-sent :
    (c : CacheConn) (es : List Event) (words : List Text)
    → Knows c es
    → c.context ≡ true
    → Knows c (sent words ∷ es)
Knows-sent c es words (o, k, l, r) e = (o, k, l, (o ∙ e, r))

pub Knows-format :
    (c : CacheConn) (es : List Event) (s : Text)
    → Knows c es
    → c.context ≡ true
    → Knows c (sent_format s ∷ es)
Knows-format c es s (o, k, l, r) e = (o, k, l, (o ∙ e, r))

pub Knows-freed :
    (c : CacheConn) (es : List Event)
    → Knows c es
    → c.context ≡ true
    → Knows (record c { context = false }) (freed ∷ es)
Knows-freed c es (o, k, l, r) e = (refl, k, l, (o ∙ e, r))

select_db-Opens :
    (c : CacheConn) (es : List Event)
    → Knows c es
    → c.context ≡ true
    → Always (select_db c) Opens es
unfolding select_db
select_db-Opens c es k e none = (λ _. e, Knows-sent c es [] k e)
select_db-Opens c es k e (some (Reply.status s)) = (λ _. e, Knows-sent c es [] k e)
select_db-Opens c es k e (some _) = (λ _. e, Knows-sent c es [] k e)

authenticated-Opens :
    (c : CacheConn) (es : List Event)
    → Knows c es
    → c.context ≡ true
    → (r : Option Reply) → Always (authenticated c r) Opens es
unfolding authenticated
authenticated-Opens c es k e none = (λ _. e, k)
authenticated-Opens c es k e (some (Reply.error t)) = (λ _. e, k)
authenticated-Opens c es k e (some _) = select_db-Opens c es k e

authenticate-Opens :
    (s : Text) (c : CacheConn) (es : List Event)
    → Knows c es
    → c.context ≡ true
    → Always (authenticate s c) Opens es
unfolding authenticate
authenticate-Opens [] c es k e = select_db-Opens c es k e
authenticate-Opens (b ∷ s) c es k e = authenticated-Opens c _ (Knows-sent c es [] k e) e

IsLater-Kept : {last now : ℕ} (a : Option ℕ) → Kept a last → last < now → IsLater a (some now)
IsLater-Kept none k later = tt
IsLater-Kept (some s) k later = omega (arith, k)

waited : (last now : ℕ) → last < 2 ^ 63 → ltb now ((last + 1) % 2 ^ 64) ≡ false → last < now
waited last now small e = ground arith

open_context-Opens :
    (c : CacheConn) (es : List Event) (now : ℕ)
    → Knows c es
    → c.context ≡ false
    → c.last_connect_time < now
    → now < 2 ^ 63
    → Always (open_context (record c { last_connect_time = now })) Opens (told now ∷ es)
unfolding open_context
open_context-Opens c es now (o, k, l, r) e later small null =
    (λ z. cc, (o, refl, small, (o ∙ e, IsLater-Kept _ k later, r)))
open_context-Opens c es now (o, k, l, r) e later small broken =
    (λ z. cc, (sym e, refl, small, (refl, (o ∙ e, IsLater-Kept _ k later, r))))
open_context-Opens c es now (o, k, l, r) e later small connected =
    authenticate-Opens c.password _ _ (refl, refl, small, (o ∙ e, IsLater-Kept _ k later, r)) refl

pub cache_init-Opens :
    (c : CacheConn) (es : List Event) → Knows c es → Always (cache_init c) Opens es
unfolding cache_init
cache_init-Opens c es (o, k, l, r) = elim (Bool-cases c.context) [
  | inl e ↦ rw e (λ _. refl, (o ∙ e, k, l, r))
  | inr e ↦ rw e (λ now small. elim (Bool-cases (ltb now ((c.last_connect_time + 1) % 2 ^ 64))) [
    | inl soon ↦ rw soon (λ z. cc, (o ∙ e, k, l, r))
    | inr late ↦ rw late (
        open_context-Opens (record c { context = false }) es now (o ∙ e, k, l, r) refl
          (waited c.last_connect_time now l late) small)
  ])
]
