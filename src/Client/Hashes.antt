-- ===== src/Client/Hashes.antt =====
-- The commands of CacheConn on hashes.
pub mod Stored
use filehub_cloud.Base.{
  ◌++◌, map, ℕ, Bool, true, false, Option, none, some, List, [], ◌∷◌, Text, bytes, ltb, length,
  take, ℤ, pos, negsuc, if◌then◌else◌,
}
use filehub_cloud.Redis.{find, put}
use filehub_cloud.Client.Link.{Link, done, command, Reply, string, array, Element, signed}
use filehub_cloud.Client.Connecting.{CacheConn, after_init, guarded}
use filehub_cloud.Client.Keys.{reply_str, reply_integer, only_string}

unfoldable pub h_del : Text → Text → CacheConn → Link (ℤ × CacheConn)
unfolding guarded
h_del key field = guarded (negsuc 0) (negsuc 0) (bytes "HDEL" ∷ key ∷ field ∷ []) reply_integer

unfoldable pub h_get : Text → Text → CacheConn → Link (Text × CacheConn)
unfolding guarded
h_get key field = guarded [] [] (bytes "HGET" ∷ key ∷ field ∷ []) only_string

-- The code, and what is written to the buffer: at most 1024 bytes and a zero behind them. NULL is an error
-- as any other type, and keeps the context.
abbrev pub answered_h_get : Option Reply → ℤ × Option Text
answered_h_get (some (string s)) = (pos 0, some (take 1024 s))
answered_h_get _ = (negsuc 0, none)

unfoldable pub h_get_into : Text → Text → CacheConn → Link ((ℤ × Option Text) × CacheConn)
unfolding after_init
h_get_into key field =
    after_init (negsuc 0, none)
      λ c. command (bytes "hget" ∷ key ∷ field ∷ []) λ r. done (answered_h_get r, c)

-- `element[i]->str` with its length.
abbrev pub element_str : Element → Text
element_str (Element.string s) = s
element_str (Element.status s) = s
element_str Element.other = []

-- `ret_value.insert`: a key that is there keeps its value.
abbrev pub insert : Text → Text → List (Text × Text) → List (Text × Text)
insert k v m = elim (find k m) [ none ↦ put k v m | some w ↦ m ]

-- The loop with `i += 2`; none for an odd number of elements.
pub paired : List Element → List (Text × Text) → Option (List (Text × Text))
paired [] m = some m
paired (f ∷ []) m = none
paired (f ∷ v ∷ elements) m = paired elements (insert (element_str f) (element_str v) m)

abbrev pub or_else : List (Text × Text) → Option (List (Text × Text)) → List (Text × Text)
or_else m none = m
or_else m (some m') = m'

-- With the map as it is left; the number of elements is tested before the loop.
pub answered_h_get_all : List (Text × Text) → Reply → Bool × List (Text × Text)
unfolding paired
answered_h_get_all m (array elements) = (true, or_else m (paired elements m))
answered_h_get_all m _ = (true, m)

unfoldable pub h_get_all :
    Text → List (Text × Text) → CacheConn → Link ((Bool × List (Text × Text)) × CacheConn)
unfolding guarded answered_h_get_all
h_get_all key m = guarded (false, m) (false, m) (bytes "HGETALL" ∷ key ∷ []) (answered_h_get_all m)

unfoldable pub h_set : Text → Text → Text → CacheConn → Link (ℤ × CacheConn)
unfolding guarded
h_set key field value =
    guarded (negsuc 0) (negsuc 0) (bytes "HSET" ∷ key ∷ field ∷ value ∷ []) reply_integer

unfoldable pub h_incr_by : Text → Text → ℤ → CacheConn → Link (ℤ × CacheConn)
unfolding guarded signed
h_incr_by key field value =
    guarded (negsuc 0) (negsuc 0) (bytes "HINCRBY" ∷ key ∷ field ∷ signed value ∷ []) reply_integer

-- `argv` behind the key.
unfoldable pub argv_of : List (Text × Text) → List Text
argv_of [] = []
argv_of ((f, v) ∷ hash) = f ∷ v ∷ argv_of hash

unfoldable pub h_m_set : Text → List (Text × Text) → CacheConn → Link (Text × CacheConn)
unfolding guarded argv_of
h_m_set key hash = guarded [] [] (bytes "HMSET" ∷ key ∷ argv_of hash) reply_str

-- The loop of `push_back`; nothing for another type.
unfoldable pub pushed : List Text → Reply → List Text
pushed values (array elements) = values ++ map element_str elements
pushed values _ = values

unfoldable pub h_m_get :
    Text → List Text → List Text → CacheConn → Link ((Bool × List Text) × CacheConn)
unfolding guarded pushed
h_m_get key fields values =
    guarded (false, values) (false, values) (bytes "HMGET" ∷ key ∷ fields)
      (λ a. (true, pushed values a))
