-- ===== src/Main/Connections.antt =====
-- HttpServer of application/filehub/main.cc: the callbacks that muduo calls for the connections. Each runs
-- as a whole: the map is changed and read under one lock. A connection, and the CHttpConn that is made for
-- it, is a number.
pub mod Routed
use filehub_cloud.Base.{ℕ, ◌+◌, ◌%◌, ◌^◌, ◌==◌, Option, none, some, List, [], ◌∷◌, if◌then◌else◌}

-- Association lists by a number.
module _ {V : Type 0} where
  pub lookup : ℕ → List (ℕ × V) → Option V
  lookup k [] = none
  lookup k ((j, v) ∷ m) = if j == k then some v else lookup k m

  pub without : ℕ → List (ℕ × V) → List (ℕ × V)
  without k [] = []
  without k ((j, v) ∷ m) = let rest = without k m in if j == k then rest else (j, v) ∷ rest

-- `s_http_map.insert`: a key that is there keeps its value.
abbrev pub inserted : ℕ → ℕ → List (ℕ × ℕ) → Option ℕ → List (ℕ × ℕ)
inserted uuid http_conn m none = (uuid, http_conn) ∷ m
inserted uuid http_conn m (some old) = m

-- `contexts` is what setContext stored in each connection, the last call first.
pub record HttpServer : Type 0 where
  pub num_threads : ℕ
  pub conn_uuid_generator : ℕ
  pub http_map : List (ℕ × ℕ)
  pub contexts : List (ℕ × ℕ)

abbrev pub new_server : ℕ → HttpServer
new_server num_threads = record {
  num_threads = num_threads;
  conn_uuid_generator = 0;
  http_map = [];
  contexts = [];
}

-- `onConnection` of a connection that is up.
pub on_connected : ℕ → HttpServer → HttpServer
unfolding lookup
on_connected conn s = record s {
  conn_uuid_generator = (s.conn_uuid_generator + 1) % 2 ^ 32;
  http_map =
      inserted s.conn_uuid_generator conn s.http_map (lookup s.conn_uuid_generator s.http_map);
  contexts = (conn, s.conn_uuid_generator) ∷ s.contexts;
}

-- What a message leads to: OnRead in the thread of the connection, or in one of the pool; nothing, since
-- the connection is not in the map; or std::bad_any_cast.
pub data Read : Type 0 where
  on_io on_pool : ℕ → Read
  dropped bad_any_cast : Read

pub erased : HttpServer → Option ℕ → Option HttpServer
unfolding without
erased s none = none
erased s (some uuid) = some (record s { http_map = without uuid s.http_map })

-- `onConnection` of one that is down; none for std::bad_any_cast.
pub on_disconnected : ℕ → HttpServer → Option HttpServer
unfolding lookup erased
on_disconnected conn s = erased s (lookup conn s.contexts)

abbrev pub dispatched : ℕ → Option ℕ → Read
dispatched num_threads none = dropped
dispatched num_threads (some http_conn) =
    if num_threads == 0 then on_io http_conn else on_pool http_conn

pub found_conn : HttpServer → Option ℕ → Read
unfolding lookup
found_conn s none = bad_any_cast
found_conn s (some uuid) = dispatched s.num_threads (lookup uuid s.http_map)

pub on_message : ℕ → HttpServer → Read
unfolding lookup found_conn
on_message conn s = found_conn s (lookup conn s.contexts)

pub data Callback : Type 0 where
  connected disconnected message : ℕ → Callback

abbrev pub or_same : HttpServer → Option HttpServer → HttpServer
or_same s none = s
or_same s (some t) = t

-- The callbacks in the order of their critical sections, and what each message leads to.
unfoldable pub serve : List Callback → HttpServer → List Read
unfolding on_connected on_disconnected on_message
serve [] s = []
serve (connected conn ∷ callbacks) s = serve callbacks (on_connected conn s)
serve (disconnected conn ∷ callbacks) s = serve callbacks (or_same s (on_disconnected conn s))
serve (message conn ∷ callbacks) s = on_message conn s ∷ serve callbacks s
