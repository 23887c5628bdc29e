-- ===== src/Common.antt =====
-- api/api_common.cc: what the handlers share.
pub mod Records
pub mod Rules
pub mod Query
pub mod Suffix
