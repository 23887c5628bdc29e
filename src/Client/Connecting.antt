-- ===== src/Client/Connecting.antt =====
-- A CacheConn and its connection: the constructor, `Init`, `DeInit`, and the shape of a command.
use filehub_cloud.Base.{
  ℕ, ◌+◌, ◌%◌, ◌^◌, Bool, true, false, Option, none, some, List, [], ◌∷◌, Text, bytes, same, ltb,
  is_zero, if◌then◌else◌, ℤ, pos, negsuc, take,
}
use filehub_cloud.Client.Link.{
  Link, done, crash, time, connect, command, free, ◌>>=◌, Reply, status, error, null, broken,
  connected,
}

-- `context_` is true where it is not NULL.
pub record CacheConn : Type 0 where
  pub context : Bool
  pub last_connect_time : ℕ
  pub server_ip : Text
  pub server_port : ℕ
  pub password : Text
  pub db_index : ℕ
  pub pool_name : Text

-- The port and the index are cut to 16 bits.
unfoldable pub new_cache_conn : Text → ℕ → ℕ → Text → Text → CacheConn
new_cache_conn server_ip server_port db_index password pool_name = record {
  context = false;
  last_connect_time = 0;
  server_ip = server_ip;
  server_port = server_port % 2 ^ 16;
  password = password;
  db_index = db_index % 2 ^ 16;
  pool_name = pool_name;
}

-- `strncmp(reply->str, "OK", 2) == 0`
unfoldable pub starts_ok : Text → Bool
starts_ok s = same (take 2 s) (bytes "OK")

-- The last step of `Init`. It is 2 for every other answer, with the context kept.
unfoldable pub select_db : CacheConn → Link (ℤ × CacheConn)
unfolding starts_ok
select_db c = command (bytes "SELECT" ∷ bytes "0" ∷ []) λ r. elim r [
  | some (status s) ↦ done (if starts_ok s then pos 0 else pos 2, c)
  | _ ↦ done (pos 2, c)
]

unfoldable pub authenticated : CacheConn → Option Reply → Link (ℤ × CacheConn)
unfolding select_db
authenticated c none = done (negsuc 0, c)
authenticated c (some (error e)) = done (negsuc 0, c)
authenticated c (some a) = select_db c

-- AUTH, if there is a password; -1 if it is refused, with the context kept.
unfoldable pub authenticate : Text → CacheConn → Link (ℤ × CacheConn)
unfolding select_db authenticated
authenticate [] c = select_db c
authenticate (b ∷ s) c = command (bytes "AUTH" ∷ (b ∷ s) ∷ []) (authenticated c)

-- The attempt to connect.
unfoldable pub open_context : CacheConn → Link (ℤ × CacheConn)
unfolding authenticate
open_context c = connect c.server_ip c.server_port λ o. elim o [
  | null ↦ done (pos 1, c)
  | broken ↦ free (done (pos 1, c))
  | connected ↦ authenticate c.password (record c { context = true })
]

-- `Init`
unfoldable pub cache_init : CacheConn → Link (ℤ × CacheConn)
unfolding open_context
cache_init c = elim c.context [
  | true ↦ done (pos 0, c)
  | false ↦ time λ now. elim (ltb now ((c.last_connect_time + 1) % 2 ^ 64)) [
    | true ↦ done (pos 1, c)
    | false ↦ open_context (record c { last_connect_time = now })
  ]
]

-- `DeInit`, and the destructor
unfoldable pub de_init : CacheConn → Link CacheConn
de_init c = elim c.context [ true ↦ free (done (record c { context = false })) | false ↦ done c ]

-- `if (Init()) return early;`
unfoldable pub after_init :
    {A : Type 0} → A → (CacheConn → Link (A × CacheConn)) → CacheConn → Link (A × CacheConn)
unfolding cache_init
after_init early go_on c =
    cache_init c >>= λ r. elim (is_zero r.0) [ true ↦ go_on r.1 | false ↦ done (early, r.1) ]

-- `if (!reply) { redisFree(context_); context_ = NULL; return lost; }`
unfoldable pub dropped : {A : Type 0} → A → CacheConn → Link (A × CacheConn)
dropped lost c = free (done (lost, record c { context = false }))

unfoldable pub checked :
    {A : Type 0} → A → (Reply → A) → CacheConn → Option Reply → Link (A × CacheConn)
unfolding dropped
checked lost read c none = dropped lost c
checked lost read c (some a) = done (read a, c)

-- A command that checks its reply for NULL.
unfoldable pub guarded :
    {A : Type 0} → A → A → List Text → (Reply → A) → CacheConn → Link (A × CacheConn)
unfolding after_init checked
guarded early lost words read = after_init early λ c. command words (checked lost read c)

abbrev pub or_crash : {A : Type 0} → Option A → CacheConn → Link (A × CacheConn)
or_crash none c = crash
or_crash (some x) c = done (x, c)

abbrev pub unchecked :
    {A : Type 0} → (Reply → Option A) → CacheConn → Option Reply → Link (A × CacheConn)
unchecked read c none = crash
unchecked read c (some a) = or_crash (read a) c

-- One that reads it unchecked; what `read` has no value for reads a NULL text.
unfoldable pub unguarded :
    {A : Type 0} → A → List Text → (Reply → Option A) → CacheConn → Link (A × CacheConn)
unfolding after_init
unguarded early words read = after_init early λ c. command words (unchecked read c)
