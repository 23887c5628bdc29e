-- ===== src/Tests.antt =====
-- Concrete services and data, and the theorems at concrete inputs.
pub mod Services
pub mod Files
pub mod Waits
pub mod Clients
pub mod Programs
pub mod Urls
pub mod Requests
pub mod Wires
pub mod Uploads
pub mod Managers
