-- ===== src/Handlers.antt =====
-- The request handlers of application/filehub/api.
pub mod Share
pub mod Delete
pub mod Saved
pub mod Accounts
pub mod Pictures
pub mod Lists
pub mod Ranking
