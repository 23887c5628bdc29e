-- ===== src/Program/Defs.antt =====
-- Programs: what the handlers of application/filehub/api do, with each call of a service (a statement
-- to MySQL, a command to Redis, the file lock, the FastDFS tool) as a node that waits for its result.
-- A handler runs to its end with no other handler in between.
use filehub_cloud.Base.{ℕ, suc, Bool, true, false, Option, none, some, List, ◌∷◌, ◌≡◌, Text}
use filehub_cloud.Schema.Tables.{Tables}
use filehub_cloud.Schema.Statements.{Sql, respond, apply}
use filehub_cloud.Schema.Results.{Reply, refused}
use filehub_cloud.Redis.{
  Store, Command, zlexcount, Answer, error, integer, uniform, find, found, answer, effect,
}

-- What a handler asks of the operating system: the tools fdfs_upload_file and fdfs_file_info, with the path
-- or the id that they are given, and rename and unlink.
pub data Job : Type 0 where
  upload_file file_info : Text → Job
  rename : Text → Text → Job
  unlink : Text → Job

pub data Prog (A : Type 0) : Type 0 where
  done : A → Prog A
  -- a NULL pointer is read, or an exception leaves the handler
  crash : Prog A
  -- mysql_real_query and the calls that fetch its result
  query : Sql → (Reply → Prog A) → Prog A
  -- mysql_stmt_init and mysql_stmt_prepare; true for success
  prepare : (Bool → Prog A) → Prog A
  -- a job; none for a failure, else what is read of its output
  external : Job → (Option Text → Prog A) → Prog A
  -- CacheConn::Init; true for a nonzero result
  init : (Bool → Prog A) → Prog A
  -- redisCommand; none for NULL
  redis : Command → (Option Answer → Prog A) → Prog A
  -- FileInfoLock::TryLockFor, FileInfoLock::Unlock
  try_lock : (Bool → Prog A) → Prog A
  unlock : Prog A → Prog A
  -- system("fdfs_delete_file ..."); true for a nonzero result
  remove_file : Text → (Bool → Prog A) → Prog A

infixl 5 ◌>>=◌ ◌>>◌
unfoldable pub ◌>>=◌ : {A B : Type 0} → Prog A → (A → Prog B) → Prog B
done a >>= f = f a
crash >>= f = crash
query s k >>= f = query s (λ r. k r >>= f)
prepare k >>= f = prepare (λ b. k b >>= f)
external j k >>= f = external j (λ o. k o >>= f)
init k >>= f = init (λ b. k b >>= f)
redis c k >>= f = redis c (λ a. k a >>= f)
try_lock k >>= f = try_lock (λ b. k b >>= f)
unlock p >>= f = unlock (p >>= f)
remove_file i k >>= f = remove_file i (λ b. k b >>= f)

abbrev pub ◌>>◌ : {A B : Type 0} → Prog A → Prog B → Prog B
p >> q = p >>= λ _. q

-- What the services hold: the tables, the Redis data, whether the file lock is held, how many waits
-- for it ran out, how many statements could not be prepared, and the files that were deleted from
-- FastDFS, the last one first.
pub record View : Type 0 where
  pub tables : Tables
  pub store : Store
  pub locked : Bool
  pub timeouts : ℕ
  pub unprepared : ℕ
  pub removed : List Text

abbrev pub executed : Sql → View → View
executed s v = record v { tables = apply s v.tables }

abbrev pub commanded : Command → View → View
commanded c v = record v { store = effect c v.store }

abbrev pub timed_out : View → View
timed_out v = record v { timeouts = suc v.timeouts }

abbrev pub not_prepared : View → View
not_prepared v = record v { unprepared = suc v.unprepared }

-- The weakest precondition. A statement or a command is refused and changes nothing, or has its
-- documented result; the lock is granted or not; ZLEXCOUNT answers any number over unequal scores.
abbrev pub Replies : (c : Command) → (Option Answer → View → Type 0) → View → Type 0
Replies (zlexcount m) K v =
    (n : ℕ)
    → (uniform v.store.zset ≡ true → n ≡ found (find m v.store.zset))
    → K (some (integer n)) v
Replies c K v = K (some (answer c v.store)) (commanded c v)

abbrev pub Wp : {A : Type 0} → Prog A → (Option A → View → Type 0) → View → Type 0
Wp (done a) Q v = Q (some a) v
Wp crash Q v = Q none v
Wp (query s k) Q v = Wp (k refused) Q v × Wp (k (respond s v.tables)) Q (executed s v)
Wp (prepare k) Q v = Wp (k false) Q (not_prepared v) × Wp (k true) Q v
Wp (external j k) Q v = Wp (k none) Q v × ((s : Text) → Wp (k (some s)) Q v)
Wp (init k) Q v = Wp (k true) Q v × Wp (k false) Q v
Wp (redis c k) Q v =
    Wp (k none) Q v × ((e : Text) → Wp (k (some (error e))) Q v) × Replies c (λ a w. Wp (k a) Q w) v
Wp (try_lock k) Q v = Wp (k false) Q (timed_out v) × Wp (k true) Q (record v { locked = true })
Wp (unlock p) Q v = Wp p Q (record v { locked = false })
Wp (remove_file i k) Q v = Wp (k true) Q v × Wp (k false) Q (record v { removed = i ∷ v.removed })
