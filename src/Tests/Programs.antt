-- ===== src/Tests/Programs.antt =====
-- A run of the console client, replacements, the start of the server, and look-ups of counts.
use filehub_cloud.Base.{
  count, false, ℕ, suc, some, List, [], ◌∷◌, Text, bytes, same, decimal, pos, true, ◌≡◌, refl,
}
use filehub_cloud.Api.Json.{JsonReader, Body}
use filehub_cloud.Uploader.{new_user}
use filehub_cloud.Uploader.Session.{client_main, concurrent_of, login_request, user_name}
use filehub_cloud.Uploader.Peer.{Peer, run, exit}
use filehub_cloud.Uploader.Ordered.{IsOrdered, client_main-IsOrdered-run}
use filehub_cloud.Tests.Requests.{echo}
use filehub_cloud.Util.Config.{get_config_name}
use filehub_cloud.Main.Startup.{start, crashes}
use filehub_cloud.Program.Defs as Defs
use filehub_cloud.Program.Servers as Servers
use filehub_cloud.Conn.Mysql.{execute_query, next, get_int}
use filehub_cloud.Schema.Tables.{is_file, of_user}
use filehub_cloud.Schema.Statements.{select_file_info, respond, selected}
use filehub_cloud.Common.Records.{get_result_one_count, db_get_user_files_count}
use filehub_cloud.Tests.Services.{obliging}
use filehub_cloud.Tests.Files.{ann, digest, published}
use filehub_cloud.Util.Replace.{replace_mark_number}
use filehub_cloud.Conn.Transactions.{
  MysqlClient, PoolSettings, conn_init, conn_close, start_transaction, rollback, commit,
  get_insert_id,
}

-- A peer that accepts every login, and a file of three bytes.
abbrev accepting : JsonReader
accepting = record echo { as_int = λ v. some (pos 0) }

abbrev peer : Peer
peer = record {
  World = ℕ;
  on_post = λ r w. (some (bytes "{}"), suc w);
  on_open = λ path w. (some record { size = 3; stored = bytes "abc" }, w);
}

abbrev written : Body → Text
written b = bytes "{}"

abbrev argv : List Text
argv = bytes "client" ∷ bytes "2" ∷ []

client_main-IsOrdered-run_example :
    IsOrdered accepting written
      (λ s. s)
      peer
      (concurrent_of argv)
      (peer.on_post (login_request written (new_user (λ s. s) user_name (bytes "123456"))) 0).0
      (run peer (client_main accepting written (λ s. s) argv) 0)
client_main-IsOrdered-run_example = client_main-IsOrdered-run accepting written (λ s. s) peer argv 0

uploads_end : (run peer (client_main accepting written (λ s. s) (bytes "client" ∷ [])) 0).1 ≡ exit 0
unfolding client_main run
uploads_end = refl

replace_number : replace_mark_number (bytes "id=?") 42 0 ≡ (bytes "id=42", 5)
unfolding replace_mark_number decimal
replace_number = refl

-- A configuration without a log level stops the server with a NULL that is read.
no_log_level :
    start
      (λ path. record { load_ok = true; config_map = [] })
      (λ i. true)
      (λ i. true)
      (bytes "filehub" ∷ [])
    ≡ crashes
unfolding start get_config_name
no_log_level = refl

-- The number of references to the stored file.
one_count :
    (Servers.run obliging (get_result_one_count (select_file_info digest) 0) published).0
    ≡ some (0, 1)
unfolding Servers.run get_result_one_count Defs.◌>>=◌ execute_query respond next selected is_file
    same get_int
one_count = refl

-- The number of a user's files.
ann_count : (Servers.run obliging (db_get_user_files_count ann) published).0 ≡ some (some 1)
unfolding Servers.run db_get_user_files_count Defs.◌>>=◌ execute_query respond next same get_int
    count of_user
ann_count = refl

-- A client library that keeps what it was asked, and loses the connection at a commit.
abbrev library : MysqlClient
library = record {
  World = List Text;
  mysql_init = λ w. (true, w);
  set_charset = λ name w. w;
  real_connect = λ ip user password db port w. (false, w);
  ping = λ w. w;
  real_query = λ text w. (same text (bytes "commit"), text ∷ w);
  insert_id = λ w. 4294967303;
  close = λ w. [];
}

abbrev settings : PoolSettings
settings = record {
  db_server_ip = [];
  db_server_port = 3306;
  username = [];
  password = [];
  db_name = [];
}

-- A failed Init keeps its handle.
init_fails : conn_init library settings [] ≡ ((2, true), [])
unfolding conn_init
init_fails = refl

commit_fails :
    commit library (start_transaction library []).1
    ≡ (false, bytes "commit" ∷ bytes "start transaction" ∷ [])
unfolding start_transaction commit same
commit_fails = refl

rolled_back : rollback library (conn_close library false []) ≡ (true, bytes "rollback" ∷ [])
unfolding rollback conn_close same
rolled_back = refl

short_id : get_insert_id library [] ≡ 7
unfolding get_insert_id
short_id = refl
