-- ===== src/Client.antt =====
-- CacheConn of application/filehub/redis/cache_pool.cc with its connection: `Init`, every command, and the
-- counters of api/api_common.cc. The handlers' programs take `Init` as a call that succeeds or fails. Texts hold no zero byte.
pub mod Link
pub mod Connecting
pub mod Answers
pub mod Keys
pub mod Hashes
pub mod Lists
pub mod Sets
pub mod Counts
pub mod Calls
pub mod Orderly
