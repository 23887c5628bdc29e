-- ===== src/Schema.antt =====
-- The MySQL tables of sql/ and the statements that the handlers of application/filehub/api send.
-- MySQL itself is not modelled: `Sql` names the statements by their parameters (the values go in by
-- `sprintf`, and are taken free of quotes), and `respond` and `apply` write down what MySQL documents
-- for them over this schema; Program.antt states it as an assumption on the server.
pub mod Tables
pub mod Columns
pub mod Statements
pub mod Results
pub mod References
