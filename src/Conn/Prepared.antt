-- ===== src/Conn/Prepared.antt =====
-- CPrepareStatement of mysql/db_pool.cc, for text parameters. A statement whose Init fails is not used
-- any further. What the parameters are bound to goes into the statement when it is executed.
use filehub_cloud.Base.{
  ℕ, ◌==◌, Bool, true, false, List, [], Text, ltb, if◌then◌else◌, set, replicate, count,
}
use filehub_cloud.Schema.Statements.{Sql}
use filehub_cloud.Program.Defs.{Prog, done, prepare}
use filehub_cloud.Conn.Mysql.{execute_update}

pub record PrepareStatement : Type 0 where
  pub stmt : Bool
  pub param_cnt : ℕ
  pub param_bind : List Text

-- The constructor.
abbrev pub new_statement : PrepareStatement
new_statement = record { stmt = false; param_cnt = 0; param_bind = [] }

-- mysql_stmt_param_count: the question marks of the statement.
param_count : Text → ℕ
unfolding count
param_count sql = count (λ c. c == 63) sql

-- The statement after Init, if that succeeds.
prepared : Text → PrepareStatement
unfolding param_count
prepared sql = record {
  stmt = true;
  param_cnt = param_count sql;
  param_bind = replicate (param_count sql) [];
}

unfoldable pub init_statement : Text → (PrepareStatement → Prog ℕ) → Prog ℕ → Prog ℕ
unfolding prepared
init_statement sql succeeded failed =
    prepare λ ok. elim ok [ true ↦ succeeded (prepared sql) | false ↦ failed ]

unfoldable pub set_param : ℕ → Text → PrepareStatement → PrepareStatement
set_param index value p =
    if ltb index p.param_cnt then record p { param_bind = set p.param_bind index value } else p

unfoldable pub statement_execute : (List Text → Sql) → PrepareStatement → Prog Bool
statement_execute sql p = if p.stmt then execute_update (sql p.param_bind) true else done false
