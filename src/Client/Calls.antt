-- ===== src/Client/Calls.antt =====
-- The life of a CacheConn: calls of its operations in any order, and its destructor.
use filehub_cloud.Base.{List, [], ◌∷◌, Text, ℤ}
use filehub_cloud.Client.Link.{Link, done, ◌>>=◌}
use filehub_cloud.Client.Connecting.{CacheConn, cache_init, de_init}
use filehub_cloud.Client.Keys.{
  get, set, set_ex, m_get, is_exists, del, incr_by, incr, decr, flush_db,
}
use filehub_cloud.Client.Hashes.{
  h_del, h_get, h_get_into, h_get_all, h_set, h_incr_by, h_m_set, h_m_get,
}
use filehub_cloud.Client.Lists.{l_push, r_push, l_len, l_range}
use filehub_cloud.Client.Sets.{
  zset_exist, zset_add, zset_zrem, zset_incr, zset_zcard, zset_zrevrange, zset_get_score,
}

pub data Call : Type 0 where
  connects disconnects flushes : Call
  gets exists dels incrs decrs gets_all lens zcards : Text → Call
  sets hdels hgets hgets_into lpushes rpushes zexists zrems zincrs zscores : Text → Text → Call
  sets_ex : Text → ℤ → Text → Call
  mgets : List Text → Call
  incrs_by : Text → ℤ → Call
  hsets : Text → Text → Text → Call
  hincrs_by : Text → Text → ℤ → Call
  hmsets : Text → List (Text × Text) → Call
  hmgets : Text → List Text → Call
  lranges : Text → ℤ → ℤ → Call
  zadds : Text → ℤ → Text → Call
  zranges : Text → ℤ → ℤ → Call

-- The connection that an operation leaves.
abbrev pub left : {A : Type 0} → Link (A × CacheConn) → Link CacheConn
left p = p >>= λ r. done r.1

unfoldable pub perform : Call → CacheConn → Link CacheConn
perform connects c = left (cache_init c)
perform disconnects c = de_init c
perform flushes c = left (flush_db c)
perform (gets k) c = left (get k c)
perform (exists k) c = left (is_exists k c)
perform (dels k) c = left (del k c)
perform (incrs k) c = left (incr k c)
perform (decrs k) c = left (decr k (ℤ.pos 0) c)
perform (gets_all k) c = left (h_get_all k [] c)
perform (lens k) c = left (l_len k c)
perform (zcards k) c = left (zset_zcard k c)
perform (sets k v) c = left (set k v c)
perform (hdels k f) c = left (h_del k f c)
perform (hgets k f) c = left (h_get k f c)
perform (hgets_into k f) c = left (h_get_into k f c)
perform (lpushes k v) c = left (l_push k v c)
perform (rpushes k v) c = left (r_push k v c)
perform (zexists k m) c = left (zset_exist k m c)
perform (zrems k m) c = left (zset_zrem k m c)
perform (zincrs k m) c = left (zset_incr k m c)
perform (zscores k m) c = left (zset_get_score k m c)
perform (sets_ex k n v) c = left (set_ex k n v c)
perform (mgets ks) c = left (m_get ks [] c)
perform (incrs_by k i) c = left (incr_by k i c)
perform (hsets k f v) c = left (h_set k f v c)
perform (hincrs_by k f i) c = left (h_incr_by k f i c)
perform (hmsets k h) c = left (h_m_set k h c)
perform (hmgets k fs) c = left (h_m_get k fs [] c)
perform (lranges k i j) c = left (l_range k i j [] c)
perform (zadds k i m) c = left (zset_add k i m c)
perform (zranges k i j) c = left (zset_zrevrange k i j c)

-- The calls in their order, then the destructor.
unfoldable pub session : List Call → CacheConn → Link CacheConn
unfolding perform
session [] c = de_init c
session (call ∷ calls) c = perform call c >>= session calls
