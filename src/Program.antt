-- ===== src/Program.antt =====
-- A handler as a program over the services that it calls, and the two readings of a program: a run
-- against a server, and the weakest precondition under what the services document.
pub mod Defs
pub mod Servers
pub mod Granted
pub mod Rules
