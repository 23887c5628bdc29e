-- ===== src/Handlers/Accounts.antt =====
-- Users: verifyUserPassword and setToken of api/api_login.cc, registerUser of api/api_register.cc. The
-- clock's text and the token of uuid_generate_time_safe are arguments. filehub_slave is taken to hold
-- what filehub_master holds.
pub mod Laws
use filehub_cloud.Base.{
  ℕ, zero, suc, ◌+◌, Bool, true, false, Option, none, some, List, [], ◌∷◌, Text, bytes, same,
  if◌then◌else◌,
}
use filehub_cloud.Schema.Tables.{UserInfo}
use filehub_cloud.Schema.Statements.{Sql, select_password, select_user_id, insert_user}
use filehub_cloud.Program.Defs.{Prog, done, ◌>>=◌}
use filehub_cloud.Conn.Mysql.{get_string, execute_query}
use filehub_cloud.Common.Records.{with_row}
use filehub_cloud.Conn.Prepared.{PrepareStatement, init_statement, set_param, statement_execute}
use filehub_cloud.Conn.Cache.{cache_set_ex}

-- Whether it returns 0.
pub verify_user_password : Text → Text → Prog Bool
verify_user_password user_name pwd = do
  result_set ← execute_query (select_password user_name)
  done (with_row false (λ row. same (get_string row "password") pwd) result_set)

-- Whether it returns 0; the result of SETEX is not looked at.
pub set_token : Text → Text → Prog Bool
set_token token user_name = cache_set_ex token 86400 user_name >>= λ _. done true

-- The statement that the six parameters give.
insertion : List Text → Sql
insertion (user_name ∷ nick_name ∷ password ∷ phone ∷ email ∷ create_time ∷ rest) =
    insert_user (record {
      user_name = user_name;
      nick_name = nick_name;
      password = password;
      phone = phone;
      email = email;
      create_time = create_time;
    })
insertion _ = insert_user (record {
  user_name = [];
  nick_name = [];
  password = [];
  phone = [];
  email = [];
  create_time = [];
})

abbrev pub insertion_sql : Text
insertion_sql =
    bytes
      "insert into user_info (`user_name`,`nick_name`,`password`,`phone`,`email`,`create_time`) values(?,?,?,?,?,?)"

-- `SetParam(index++, value)` for one value after the other.
set_params : ℕ → List Text → PrepareStatement → PrepareStatement
unfolding set_param
set_params index [] p = p
set_params index (value ∷ values) p = set_params (index + 1) values (set_param index value p)

insert_with : List Text → PrepareStatement → Prog ℕ
unfolding set_params insertion statement_execute
insert_with values p = do
  inserted ← statement_execute insertion (set_params 0 values p)
  done (if inserted then 0 else 1)

-- 2 for a name that is taken, 1 for a failed insertion. A failed Init of the statement leaves `ret` at 0.
pub register_user : Text → Text → Text → Text → Text → Text → Prog ℕ
unfolding insert_with init_statement
register_user create_time user_name nick_name pwd phone email = do
  result_set ← execute_query (select_user_id user_name)
  with_row
      (init_statement insertion_sql
        (insert_with (user_name ∷ nick_name ∷ pwd ∷ phone ∷ email ∷ create_time ∷ [])) (done 0))
      (λ row. done 2) result_set
