-- ===== src/Util/Config/RoundTrip/Keys.antt =====
-- The order of keys, and maps in this order.
use filehub_cloud.Base.{
  less, suc, ◌≤◌, length, true, false, ◌||◌, Option, none, some, [], ◌∷◌, ◌++◌, Text, All, ◌≡◌,
  refl, ap, subst, arith, Bool-cases, inl, inr,
}
use filehub_cloud.Util.Config.{ConfigMap, insert, assign, find_config, set_pair}

less_irrefl : (a : Text) → less a a ≡ false
unfolding less
less_irrefl [] = refl
less_irrefl (x ∷ a) = ground (arith, less_irrefl a)

less_asym : (a b : Text) → less a b ≡ true → less b a ≡ false
unfolding less
less_asym [] [] h = refl
less_asym [] (y ∷ b) h = refl
less_asym (x ∷ a) [] h = cc
less_asym (x ∷ a) (y ∷ b) h = ground (arith, less_asym a b)

less_trans : (a b c : Text) → less a b ≡ true → less b c ≡ true → less a c ≡ true
unfolding less
less_trans [] [] c h k = k
less_trans [] (y ∷ b) [] h k = cc
less_trans [] (y ∷ b) (z ∷ c) h k = refl
less_trans (x ∷ a) [] c h k = cc
less_trans (x ∷ a) (y ∷ b) [] h k = cc
less_trans (x ∷ a) (y ∷ b) (z ∷ c) h k = ground (arith, less_trans a b c)

less_total : (a b : Text) → less a b ≡ false → less b a ≡ false → a ≡ b
unfolding less
less_total [] [] h k = refl
less_total [] (y ∷ b) h k = cc
less_total (x ∷ a) [] h k = cc
less_total (x ∷ a) (y ∷ b) h k = ground (arith, less_total a b)

-- Every key before those behind it.
abbrev pub IsSorted : ConfigMap → Type 0
IsSorted [] = Unit
IsSorted ((k, v) ∷ m) = All (λ p. less k p.0 ≡ true) m × IsSorted m

pub insert-last :
    (k v : Text) (m : ConfigMap)
    → All (λ p. less p.0 k ≡ true) m
    → insert k v m ≡ m ++ ((k, v) ∷ [])
unfolding insert
insert-last k v [] h = refl
insert-last k v ((j, x) ∷ m) (l, h) =
    rw (less_asym j k l, l) (ap (λ r. (j, x) ∷ r) (insert-last k v m h))

All-insert :
    (P : Text × Text → Type 0) (k v : Text) (m : ConfigMap)
    → P (k, v)
    → All P m
    → All P (insert k v m)
unfolding insert
All-insert P k v [] p h = (p, tt)
All-insert P k v ((j, x) ∷ m) p (q, h) = elim (Bool-cases (less k j)) [
  | inl e ↦ rw e (p, (q, h))
  | inr e ↦ elim (Bool-cases (less j k)) [
    | inl f ↦ rw (e, f) (q, All-insert P k v m p h)
    | inr f ↦ rw (e, f) (q, h)
  ]
]

-- What lies behind a key lies behind a smaller one.
All-less :
    (k j : Text) (m : ConfigMap)
    → less k j ≡ true
    → All (λ p. less j p.0 ≡ true) m
    → All (λ p. less k p.0 ≡ true) m
All-less k j [] l h = tt
All-less k j ((i, x) ∷ m) l (q, h) = (less_trans k j i l q, All-less k j m l h)

insert-IsSorted : (k v : Text) (m : ConfigMap) → IsSorted m → IsSorted (insert k v m)
unfolding insert
insert-IsSorted k v [] h = (tt, tt)
insert-IsSorted k v ((j, x) ∷ m) (q, h) = elim (Bool-cases (less k j)) [
  | inl e ↦ rw e ((e, All-less k j m e q), (q, h))
  | inr e ↦ elim (Bool-cases (less j k)) [
    | inl f ↦ rw (e, f) (All-insert (λ p. less j p.0 ≡ true) k v m f q, insert-IsSorted k v m h)
    | inr f ↦ rw (e, f) (q, h)
  ]
]

found_here :
    (k j v : Text) (m : ConfigMap)
    → less k j ≡ false
    → less j k ≡ false
    → find_config k ((j, v) ∷ m) ≡ some v
unfolding find_config
found_here k j v m e f = rw (e, f) refl

find_config-insert :
    (k v : Text) (m : ConfigMap) → find_config k m ≡ none → find_config k (insert k v m) ≡ some v
unfolding find_config insert
find_config-insert k v [] e = rw (less_irrefl k) refl
find_config-insert k v ((j, x) ∷ m) e = ground (arith, find_config-insert k v m, less_irrefl k)

All-assign :
    (P : Text × Text → Type 0) (k v : Text) (m : ConfigMap)
    → P (k, v)
    → All P m
    → All P (assign k v m)
unfolding assign
All-assign P k v [] p h = tt
All-assign P k v ((j, x) ∷ m) p (q, h) = elim (Bool-cases (less k j)) [
  | inl e ↦ rw e (q, All-assign P k v m p h)
  | inr e ↦ elim (Bool-cases (less j k)) [
    | inl f ↦ rw (e, f) (q, All-assign P k v m p h)
    | inr f ↦ rw (e, f) (subst (λ i. P (i, v)) (less_total k j e f) p, h)
  ]
]

keys-assign :
    (i k v : Text) (m : ConfigMap)
    → All (λ p. less i p.0 ≡ true) m
    → All (λ p. less i p.0 ≡ true) (assign k v m)
unfolding assign
keys-assign i k v [] h = tt
keys-assign i k v ((j, x) ∷ m) (q, h) = elim (Bool-cases (less k j || less j k)) [
  | inl e ↦ rw e (q, keys-assign i k v m h)
  | inr e ↦ rw e (q, h)
]

assign-IsSorted : (k v : Text) (m : ConfigMap) → IsSorted m → IsSorted (assign k v m)
unfolding assign
assign-IsSorted k v [] h = tt
assign-IsSorted k v ((j, x) ∷ m) (q, h) = elim (Bool-cases (less k j || less j k)) [
  | inl e ↦ rw e (keys-assign j k v m q, assign-IsSorted k v m h)
  | inr e ↦ rw e (q, h)
]

find_config-assign :
    (k v x : Text) (m : ConfigMap)
    → find_config k m ≡ some x
    → find_config k (assign k v m) ≡ some v
unfolding find_config assign
find_config-assign k v x [] e = cc
find_config-assign k v x ((j, y) ∷ m) e = ground (arith, find_config-assign k v x m)

length-insert : (k v : Text) (m : ConfigMap) → length (insert k v m) ≤ suc (length m)
unfolding insert
length-insert k v [] = omega arith
length-insert k v ((j, x) ∷ m) = ground (arith, length-insert k v m)

length-assign : (k v : Text) (m : ConfigMap) → length (assign k v m) ≤ suc (length m)
unfolding assign
length-assign k v [] = omega arith
length-assign k v ((j, x) ∷ m) = ground (arith, length-assign k v m)

-- A map with a value set: well-formed as before, at most one pair longer, and with the value.
pub set_pair_lem :
    (P : Text × Text → Type 0) (k v : Text) (m : ConfigMap)
    → P (k, v)
    → All P m
    → IsSorted m
    → All P (set_pair (find_config k m) k v m)
      × IsSorted (set_pair (find_config k m) k v m)
      × (length (set_pair (find_config k m) k v m) ≤ suc (length m))
      × (find_config k (set_pair (find_config k m) k v m) ≡ some v)
unfolding set_pair
set_pair_lem P k v m p h s = by_old (find_config k m) refl
  where
    by_old :
        (o : Option Text)
        → find_config k m ≡ o
        → All P (set_pair o k v m)
          × IsSorted (set_pair o k v m)
          × (length (set_pair o k v m) ≤ suc (length m))
          × (find_config k (set_pair o k v m) ≡ some v)
    by_old none e = (
      All-insert P k v m p h,
      insert-IsSorted k v m s,
      length-insert k v m,
      find_config-insert k v m e,
    )
    by_old (some x) e = (
      All-assign P k v m p h,
      assign-IsSorted k v m s,
      length-assign k v m,
      find_config-assign k v x m e,
    )
