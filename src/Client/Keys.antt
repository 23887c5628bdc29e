-- ===== src/Client/Keys.antt =====
-- The commands of CacheConn on keys and strings.
use filehub_cloud.Base.{
  ◌==◌, Bool, true, false, not, Option, none, some, List, [], ◌∷◌, ◌++◌, Text, bytes, ℤ, pos,
  negsuc,
}
use filehub_cloud.Redis.{put}
use filehub_cloud.Client.Link.{
  Link, done, crash, format, Reply, string, status, error, integer, array, Element, signed,
}
use filehub_cloud.Client.Connecting.{CacheConn, after_init, dropped, guarded, starts_ok}

-- `reply->str` with `reply->len`, and `reply->integer`; what the type does not set is empty or 0.
abbrev pub reply_str : Reply → Text
reply_str (string s) = s
reply_str (status s) = s
reply_str (error s) = s
reply_str _ = []

abbrev pub reply_integer : Reply → ℤ
reply_integer (integer i) = i
reply_integer _ = pos 0

abbrev pub only_string : Reply → Text
only_string (string s) = s
only_string _ = []

unfoldable pub get : Text → CacheConn → Link (Text × CacheConn)
unfolding guarded
get key = guarded [] [] (bytes "GET" ∷ key ∷ []) only_string

unfoldable pub set : Text → Text → CacheConn → Link (Text × CacheConn)
unfolding guarded
set key value = guarded [] [] (bytes "SET" ∷ key ∷ value ∷ []) reply_str

unfoldable pub set_ex : Text → ℤ → Text → CacheConn → Link (Text × CacheConn)
unfolding guarded signed
set_ex key timeout value =
    guarded [] [] (bytes "SETEX" ∷ key ∷ signed timeout ∷ value ∷ []) reply_str

-- The keys with a space between two of them.
pub joined : List Text → Text
joined [] = []
joined (k ∷ []) = k
joined (k ∷ j ∷ keys) = k ++ 32 ∷ joined (j ∷ keys)

-- The loop over `reply->element`: each string is put under the key of its index. More elements than keys
-- read behind the end of the keys.
pub stored : List Text → List Element → List (Text × Text) → Option (List (Text × Text))
stored keys [] m = some m
stored [] (e ∷ elements) m = elim e [ Element.string s ↦ none | _ ↦ stored [] elements m ]
stored (k ∷ keys) (e ∷ elements) m = elim e [
  | Element.string s ↦ stored keys elements (put k s m)
  | _ ↦ stored keys elements m
]

abbrev pub m_get_array :
    List (Text × Text)
    → CacheConn
    → Option (List (Text × Text))
    → Link ((Bool × List (Text × Text)) × CacheConn)
m_get_array m c none = crash
m_get_array m c (some m') = done ((true, m'), c)

unfoldable pub answered_m_get :
    List Text
    → List (Text × Text)
    → CacheConn
    → Option Reply
    → Link ((Bool × List (Text × Text)) × CacheConn)
unfolding dropped stored
answered_m_get keys m c none = dropped (false, m) c
answered_m_get keys m c (some (array elements)) = m_get_array m c (stored keys elements m)
answered_m_get keys m c (some a) = done ((true, m), c)

-- The command, unless the keys make an empty text.
unfoldable pub m_get_text :
    List Text
    → List (Text × Text)
    → CacheConn
    → Text
    → Link ((Bool × List (Text × Text)) × CacheConn)
unfolding answered_m_get
m_get_text keys m c [] = done ((false, m), c)
m_get_text keys m c (b ∷ s) = format (bytes "MGET " ++ (b ∷ s)) (answered_m_get keys m c)

-- With the map as it is left.
unfoldable pub m_get :
    List Text → List (Text × Text) → CacheConn → Link ((Bool × List (Text × Text)) × CacheConn)
unfolding after_init joined m_get_text
m_get keys m = after_init (false, m) λ c. m_get_text keys m c (joined keys)

abbrev pub is_nonzero : ℤ → Bool
is_nonzero (pos n) = not (n == 0)
is_nonzero (negsuc n) = true

unfoldable pub is_exists : Text → CacheConn → Link (Bool × CacheConn)
unfolding guarded
is_exists key = guarded false false (bytes "EXISTS" ∷ key ∷ []) (λ a. is_nonzero (reply_integer a))

unfoldable pub del : Text → CacheConn → Link (ℤ × CacheConn)
unfolding guarded
del key = guarded (pos 0) (pos 0) (bytes "DEL" ∷ key ∷ []) reply_integer

unfoldable pub incr_by : Text → ℤ → CacheConn → Link (ℤ × CacheConn)
unfolding guarded signed
incr_by key value =
    guarded (negsuc 0) (negsuc 0) (bytes "INCRBY" ∷ key ∷ signed value ∷ []) reply_integer

-- The result, and the new value of the argument.
unfoldable pub incr : Text → CacheConn → Link ((ℤ × ℤ) × CacheConn)
unfolding guarded
incr key =
    guarded (negsuc 0, pos 0) (negsuc 0, pos 0) (bytes "INCR" ∷ key ∷ [])
      (λ a. (pos 0, reply_integer a))

unfoldable pub decr : Text → ℤ → CacheConn → Link ((ℤ × ℤ) × CacheConn)
unfolding guarded
decr key value =
    guarded (negsuc 0, value) (negsuc 0, value) (bytes "DECR" ∷ key ∷ [])
      (λ a. (pos 0, reply_integer a))

ok_string : Reply → Bool
unfolding starts_ok
ok_string (string s) = starts_ok s
ok_string _ = false

-- The text OK has to come as a string, not as a status.
unfoldable pub flush_db : CacheConn → Link (Bool × CacheConn)
unfolding guarded ok_string
flush_db = guarded false false (bytes "FLUSHDB" ∷ []) ok_string
