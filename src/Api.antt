-- ===== src/Api.antt =====
-- The requests of application/filehub/api: what stands in them, what is done, and the responses.
pub mod Json
pub mod Requests
pub mod Files
pub mod Accounts
pub mod Pictures
pub mod Lists
pub mod Shares
pub mod Upload
