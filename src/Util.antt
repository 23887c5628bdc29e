-- ===== src/Util.antt =====
-- Functions of base/util.cc.
pub mod Url
pub mod Config
pub mod Explode
pub mod Search
pub mod Numbers
pub mod Replace
