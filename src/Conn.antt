-- ===== src/Conn.antt =====
-- The connection classes: CDBConn and CResultSet (mysql/db_pool.cc), CacheConn (redis/cache_pool.cc).
pub mod Mysql
pub mod Cache
pub mod Rules
pub mod Prepared
pub mod Transactions
