-- ===== src/Pool/Counting.antt =====
-- How often each connection is in a list of connections.
use filehub_cloud.Base.{
  ℕ, zero, suc, ◌+◌, ◌≤◌, ◌<◌, ◌≡◌, List, [], ◌∷◌, arith, length, ◌==◌, leb, count, refl,
}
use filehub_cloud.Pool.{make_conns, contains}

-- How often the list has the connection.
abbrev pub times : ℕ → List ℕ → ℕ
times c xs = count (λ d. d == c) xs

pub length-make_conns : (k n : ℕ) → length (make_conns k n) ≡ n
unfolding make_conns
length-make_conns k zero = refl
length-make_conns k (suc n) = omega (arith, length-make_conns (k + 1) n)

-- Connections below the first number are not made.
pub make_conns-below : (c k n : ℕ) → c < k → times c (make_conns k n) ≡ 0
unfolding make_conns count
make_conns-below c k zero h = refl
make_conns-below c k (suc n) h = ground (arith, make_conns-below c (k + 1) n (omega arith))

pub make_conns-above : (c k n : ℕ) → k + n ≤ c → times c (make_conns k n) ≡ 0
unfolding make_conns count
make_conns-above c k zero h = refl
make_conns-above c k (suc n) h = ground (arith, make_conns-above c (k + 1) n (omega arith))

pub make_conns-once : (c k n : ℕ) → times c (make_conns k n) ≤ 1
unfolding make_conns count
make_conns-once c k zero = omega arith
make_conns-once c k (suc n) =
    ground (arith, make_conns-once c (k + 1) n, make_conns-below c (k + 1) n)

pub contains-times : (c : ℕ) (xs : List ℕ) → contains c xs ≡ leb 1 (times c xs)
unfolding contains count
contains-times c [] = refl
contains-times c (x ∷ xs) = ground (arith, contains-times c xs)
