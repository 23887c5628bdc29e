-- ===== src/Client/Counts.antt =====
-- The counters of application/filehub/api/api_common.cc, kept in Redis.
pub mod Kept
use filehub_cloud.Base.{Bool, [], ◌∷◌, Text, ℤ, pos, negsuc}
use filehub_cloud.Util.Numbers.{atoll}
use filehub_cloud.Client.Link.{Link, done, ◌>>=◌, signed}
use filehub_cloud.Client.Connecting.{CacheConn}
use filehub_cloud.Client.Keys.{get, set, incr, decr}

-- 0 for an answer with a text, -1 for none.
abbrev pub zero_if_answered : Text → ℤ
zero_if_answered [] = negsuc 0
zero_if_answered (b ∷ s) = pos 0

pub cache_set_count : Text → ℤ → CacheConn → Link (ℤ × CacheConn)
unfolding set signed
cache_set_count key count c = set key (signed count) c >>= λ r. done (zero_if_answered r.0, r.1)

-- The result, and the count as it is left.
abbrev pub count_read : Text → ℤ × ℤ
count_read [] = (negsuc 0, pos 0)
count_read (b ∷ s) = (pos 0, atoll (b ∷ s))

pub cache_get_count : Text → CacheConn → Link ((ℤ × ℤ) × CacheConn)
unfolding get
cache_get_count key c = get key c >>= λ r. done (count_read r.0, r.1)

abbrev pub sign_of : ℤ → ℤ
sign_of (pos n) = pos 0
sign_of (negsuc n) = negsuc 0

unfoldable pub cache_incr_count : Text → CacheConn → Link (ℤ × CacheConn)
unfolding incr
cache_incr_count key c = incr key c >>= λ r. done (sign_of (r.0).0, r.1)

-- A count below 0 is set to 0.
abbrev pub after_decr : Text → (ℤ × ℤ) × CacheConn → Link (ℤ × CacheConn)
after_decr key ((negsuc n, count), c) = done (negsuc 0, c)
after_decr key ((pos n, pos m), c) = done (pos 0, c)
after_decr key ((pos n, negsuc m), c) =
    cache_set_count key (pos 0) c >>= λ r. done (sign_of r.0, r.1)

unfoldable pub cache_decr_count : Text → CacheConn → Link (ℤ × CacheConn)
unfolding decr cache_set_count
cache_decr_count key c = decr key (pos 0) c >>= after_decr key
