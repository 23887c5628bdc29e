-- ===== src/Conn/Transactions.antt =====
-- The connection of a CDBConn and its transactions, in application/filehub/mysql/db_pool.cc. The client library
-- of MySQL is a parameter; log output is left out.
use filehub_cloud.Base.{ℕ, ◌%◌, ◌^◌, Bool, true, false, not, Text, bytes, take}

-- The client library: what mysql_init, mysql_real_connect and mysql_real_query report (true for a handle,
-- for success and for a nonzero result), and the last id of an insertion.
pub record MysqlClient : Type 1 where
  pub World : Type 0
  pub mysql_init : World → Bool × World
  pub set_charset : Text → World → World
  pub real_connect : (ip user password db : Text) (port : ℕ) → World → Bool × World
  pub ping : World → World
  pub real_query : Text → World → Bool × World
  pub insert_id : World → ℕ
  pub close : World → World

-- What a pool gives its connections.
pub record PoolSettings : Type 0 where
  pub db_server_ip : Text
  pub db_server_port : ℕ
  pub username : Text
  pub password : Text
  pub db_name : Text

abbrev newline : ℕ
newline = 10

-- The texts of the statements, with their length as the code gives it.
abbrev pub start_text : Text
start_text = take 17 (bytes "start transaction\n")

abbrev pub rollback_text : Text
rollback_text = take 8 (bytes "rollback\n")

abbrev pub commit_text : Text
commit_text = take 6 (bytes "commit\n")

module _ (C : MysqlClient) where
  -- `mysql_` is true where it is not NULL.
  abbrev pub Handled : Type 0
  Handled = (ℕ × Bool) × C.World

  abbrev pub connected : Bool → C.World → Handled
  connected true w = ((0, true), w)
  connected false w = ((2, true), w)

  abbrev pub initialised : PoolSettings → Bool → C.World → Handled
  initialised p false w = ((1, false), w)
  initialised p true w =
      let (ok, w') =
        C.real_connect p.db_server_ip p.username p.password p.db_name p.db_server_port
          (C.set_charset (bytes "utf8mb4") w) in
      connected ok w'

  -- `Init`: the result, and the handle as it is left, which is kept when the connection fails.
  unfoldable pub conn_init : PoolSettings → C.World → Handled
  conn_init p w = let (handle, w') = C.mysql_init w in initialised p handle w'

  -- The destructor.
  unfoldable pub conn_close : Bool → C.World → C.World
  conn_close true w = C.close w
  conn_close false w = w

  -- mysql_ping and mysql_real_query; true for success.
  abbrev pub pinged_query : Text → C.World → Bool × C.World
  pinged_query text w = let (failed, w') = C.real_query text (C.ping w) in (not failed, w')

  unfoldable pub start_transaction : C.World → Bool × C.World
  start_transaction w = pinged_query start_text w

  unfoldable pub rollback : C.World → Bool × C.World
  rollback w = pinged_query rollback_text w

  unfoldable pub commit : C.World → Bool × C.World
  commit w = pinged_query commit_text w

  -- `(uint32_t)`
  unfoldable pub get_insert_id : C.World → ℕ
  get_insert_id w = C.insert_id w % 2 ^ 32
