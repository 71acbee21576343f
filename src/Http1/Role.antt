-- ===== src/Http1/Role.antt =====
-- The client's role of proto/http1/role.rs: what it takes from `http` and `httparse`, and the module
-- that puts its operations together.
pub mod Decoder
pub mod Fold
pub mod Length
pub mod Parser
pub mod Client
pub mod Rules
pub mod Decided
pub mod Repaired
pub mod Framing
pub mod Written
pub mod Folded
pub mod Within
pub mod Total
use hwire.Base.{ℕ, Bool, Option, List, Bytes}
use hwire.Error.{Header, Parse, too_large, version, status, header, token}
use hwire.Http1.State.{Outside}

-- `httparse::Error`
pub data ParserError : Type 0 where
  bad_header_name bad_header_value bad_new_line bad_status bad_token : ParserError
  too_many_headers bad_version : ParserError

-- `impl From<httparse::Error> for Parse` of error.rs
unfoldable pub from_parser : ParserError → Parse
from_parser bad_header_name = header token
from_parser bad_header_value = header token
from_parser bad_new_line = header token
from_parser bad_token = header token
from_parser bad_status = status
from_parser too_many_headers = too_large
from_parser bad_version = version

-- Where a name or a value stands: its start and its length, from the pointers of `httparse::Header`.
pub record Located : Type 0 where
  pub name_start : ℕ
  pub name_len : ℕ
  pub value_start : ℕ
  pub value_len : ℕ

-- `httparse::Response` of a complete head of `len` bytes
pub record ResponseLine : Type 0 where
  pub len : ℕ
  pub code : ℕ
  pub reason : Bytes
  pub minor : ℕ
  pub located : List Located

pub data Scanned : Type 0 where
  complete : ResponseLine → Scanned
  partial : Scanned
  refused : ParserError → Scanned

-- `http::Uri` as it is displayed, `http::StatusCode` as its number, and the parser of responses with
-- the connection's `h1_parser_config` and room for a number of headers.
pub record RoleCrate (out : Outside) : Type 1 where
  pub Uri : Type 0
  pub uri_str : Uri → Bytes
  pub is_status : ℕ → Bool
  pub canonical_reason : ℕ → Option Bytes
  pub is_informational : ℕ → Bool
  pub parse_response : Bytes → ℕ → Scanned
  pub obsolete_multiline_allowed : Bool

-- `RequestLine` of proto.rs
pub record RequestLine (out : Outside) (r : RoleCrate out) : Type 0 where
  pub method : out.Method
  pub uri : r.Uri
