-- ===== src/Http1.antt =====
-- The HTTP/1 connection, wreq-proto/src/proto/http1.
pub mod Chunked
pub mod Decode
pub mod Encode
pub mod WriteBuf
pub mod Buffered
pub mod Headers
pub mod Role
pub mod Dispatch
pub mod Transaction
pub mod Conn
pub mod State
