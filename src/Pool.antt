-- ===== src/Pool.antt =====
-- The connection pools: CDBPool (mysql/db_pool.cc) and CachePool (redis/cache_pool.cc), which have the
-- same code but for the smallest number of connections and the destructor. Connections are numbered
-- in the order in which they are made. The mutex makes each method one step, and a call that waits one
-- more for each time at which it is awake again and has the mutex. The condition variable is the number
-- of the calls that sleep on it, and that of the calls that were woken and have not had the mutex since.
pub mod Counting
pub mod Safety
pub mod Waits
use filehub_cloud.Base.{
  ℕ, zero, suc, ◌+◌, Bool, true, false, not, ◌||◌, ◌==◌, leb, Option, none, some, List, [], ◌∷◌,
  ◌++◌, if◌then◌else◌, ◌-◌,
}

pub record Pool : Type 0 where
  pub free_list : List ℕ
  pub cur_conn_cnt : ℕ
  pub max_conn_cnt : ℕ
  pub abort_request : Bool
  -- the number of the next connection
  pub next_conn : ℕ
  -- the calls in cond_var_.wait: asleep, and woken
  pub waiting : ℕ
  pub woken : ℕ

-- The first `n` connections, appended one by one.
unfoldable pub make_conns : ℕ → ℕ → List ℕ
make_conns first zero = []
make_conns first (suc n) = first ∷ make_conns (first + 1) n

abbrev pub min_db_conn_cnt : ℕ
min_db_conn_cnt = 1

abbrev pub min_cache_conn_cnt : ℕ
min_cache_conn_cnt = 2

-- The constructor and `Init`, if all its connections succeed.
unfoldable pub init : ℕ → ℕ → Pool
unfolding make_conns
init min max = record {
  free_list = make_conns 0 min;
  cur_conn_cnt = min;
  max_conn_cnt = max;
  abort_request = false;
  next_conn = min;
  waiting = 0;
  woken = 0;
}

-- What a call of GetDBConn or GetCacheConn comes to: NULL, a connection, or a wait.
pub data Outcome : Type 0 where
  null : Outcome
  conn : ℕ → Outcome
  waits : Outcome

-- `free_list_.front()` and `pop_front()`; no caller has the list empty.
unfoldable pub pop_front : Pool → List ℕ → Outcome × Pool
pop_front p [] = (null, p)
pop_front p (c ∷ rest) = (conn c, record p { free_list = rest })

abbrev pub is_empty : List ℕ → Bool
is_empty [] = true
is_empty (c ∷ rest) = false

-- A new connection at the end of the list.
unfoldable pub grow : Pool → Pool
grow p = record p {
  free_list = p.free_list ++ p.next_conn ∷ [];
  cur_conn_cnt = p.cur_conn_cnt + 1;
  next_conn = p.next_conn + 1;
}

-- Up to the wait; `connects` is whether a new connection's `Init` succeeds.
unfoldable pub get_conn : Bool → Pool → Outcome × Pool
unfolding pop_front grow
get_conn connects p =
    if p.abort_request
    then (null, p)
    else if is_empty p.free_list
    then if leb p.max_conn_cnt p.cur_conn_cnt
      then (waits, record p { waiting = p.waiting + 1 })
      else if connects
      then pop_front (grow p) (p.free_list ++ p.next_conn ∷ [])
      else (null, p)
    else pop_front p p.free_list

-- The wait's condition.
abbrev pub may_resume : Pool → Bool
may_resume p = not (is_empty p.free_list) || p.abort_request

-- `cond_var_.notify_one()` and `cond_var_.notify_all()`.
unfoldable pub notify_one : Pool → Pool
notify_one p = record p {
  waiting = p.waiting - 1;
  woken = p.woken + (if p.waiting == 0 then 0 else 1);
}

unfoldable pub notify_all : Pool → Pool
notify_all p = record p { waiting = 0; woken = p.woken + p.waiting }

-- A woken call has the mutex again.
abbrev pub awake : Pool → Pool
awake p = record p { woken = p.woken - 1 }

-- A woken call without a limit: it sleeps again unless the condition holds.
unfoldable pub resume : Pool → Outcome × Pool
unfolding pop_front
resume p =
    if may_resume p
    then (if p.abort_request then (null, awake p) else pop_front (awake p) p.free_list)
    else (waits, record (awake p) { waiting = p.waiting + 1 })

-- A call with a limit whose wait has ended, by its condition or its time.
unfoldable pub resume_timed : Pool → Outcome × Pool
unfolding pop_front
resume_timed p =
    if is_empty p.free_list
    then (null, awake p)
    else if p.abort_request
    then (null, awake p)
    else pop_front (awake p) p.free_list

unfoldable pub contains : ℕ → List ℕ → Bool
contains c [] = false
contains c (d ∷ ds) = d == c || contains c ds

-- RelDBConn, RelCacheConn: a connection that is in the list is not put there again.
unfoldable pub rel_conn : ℕ → Pool → Pool
unfolding contains notify_one
rel_conn c p =
    if contains c p.free_list
    then p
    else notify_one (record p { free_list = p.free_list ++ c ∷ [] })

-- The destructors.
pub shut_down_db : Pool → Pool
unfolding notify_all
shut_down_db p = record (notify_all (record p { abort_request = true })) { free_list = [] }

pub shut_down_cache : Pool → Pool
unfolding notify_all
shut_down_cache p = record (notify_all (record p { abort_request = true })) {
  free_list = [];
  cur_conn_cnt = 0;
}
