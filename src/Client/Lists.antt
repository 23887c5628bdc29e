-- ===== src/Client/Lists.antt =====
-- The commands of CacheConn on lists.
use filehub_cloud.Base.{Bool, true, false, List, [], ◌∷◌, Text, bytes, ℤ, negsuc}
use filehub_cloud.Client.Link.{Link, signed}
use filehub_cloud.Client.Connecting.{CacheConn, guarded}
use filehub_cloud.Client.Keys.{reply_integer}
use filehub_cloud.Client.Hashes.{pushed}

unfoldable pub l_push : Text → Text → CacheConn → Link (ℤ × CacheConn)
unfolding guarded
l_push key value = guarded (negsuc 0) (negsuc 0) (bytes "LPUSH" ∷ key ∷ value ∷ []) reply_integer

unfoldable pub r_push : Text → Text → CacheConn → Link (ℤ × CacheConn)
unfolding guarded
r_push key value = guarded (negsuc 0) (negsuc 0) (bytes "RPUSH" ∷ key ∷ value ∷ []) reply_integer

unfoldable pub l_len : Text → CacheConn → Link (ℤ × CacheConn)
unfolding guarded
l_len key = guarded (negsuc 0) (negsuc 0) (bytes "LLEN" ∷ key ∷ []) reply_integer

-- The positions are printed as ints; they are taken to fit.
unfoldable pub l_range :
    Text → ℤ → ℤ → List Text → CacheConn → Link ((Bool × List Text) × CacheConn)
unfolding guarded signed pushed
l_range key start end values =
    guarded (false, values) (false, values) (bytes "LRANGE" ∷ key ∷ signed start ∷ signed end ∷ [])
      (λ a. (true, pushed values a))
