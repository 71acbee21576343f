-- ===== src/Http2.antt =====
-- The HTTP/2 connection, wreq-proto/src/proto/http2.
pub mod Ping
