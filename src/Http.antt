-- ===== src/Http.antt =====
-- The HTTP side of a connection: http_parser_wrapper.cc and http_conn.cc.
pub mod Wrapper
pub mod Routing
pub mod Response
pub mod Serving
