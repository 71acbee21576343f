-- ===== src/HttpCrate.antt =====
-- What the code takes from the crates `http` and `httparse`: header names, values and maps, and the
-- parser of header lines.
use hwire.Base.{ℕ, Bool, List, Option, Bytes}

-- `httparse::parse_headers`: the (name, value) pairs of a complete block.
pub data Parsed : Type 0 where
  complete : List (Bytes × Bytes) → Parsed
  partial : Parsed
  malformed : Parsed

-- The constants of `http::header` that the code names.
pub data KnownHeader : Type 0 where
  authorization cache_control content_encoding content_length content_range : KnownHeader
  content_type host max_forwards set_cookie te trailer transfer_encoding connection : KnownHeader

-- The constants of `http::Method` that the code names.
pub data KnownMethod : Type 0 where
  get head connect : KnownMethod

pub record HttpCrate : Type 1 where
  pub HeaderName : Type 0
  pub HeaderValue : Type 0
  pub HeaderMap : Type 0
  -- `HeaderMap::new`, `HeaderMap::insert`
  pub empty : HeaderMap
  pub insert : HeaderMap → HeaderName → HeaderValue → HeaderMap
  -- `HeaderName::try_from`, `HeaderValue::from_bytes`
  pub name_try_from : Bytes → Option HeaderName
  pub value_from_bytes : Bytes → Option HeaderValue
  -- `httparse::parse_headers(buf, headers)` with room for `count` headers
  pub parse_headers : Bytes → ℕ → Parsed
  -- equality of names, and the constants
  pub same_name : HeaderName → HeaderName → Bool
  pub known : KnownHeader → HeaderName
  pub name_bytes : HeaderName → Bytes
  pub value_bytes : HeaderValue → Bytes
  -- `IntoIter` of a map: a further value of a name comes with `None`
  pub into_items : HeaderMap → List (Option HeaderName × HeaderValue)
  -- `Iter` of a map
  pub iter : HeaderMap → List (HeaderName × HeaderValue)
  -- `HeaderMap::get`, `HeaderMap::get_all`
  pub get : HeaderMap → HeaderName → Option HeaderValue
  pub get_all : HeaderMap → HeaderName → List HeaderValue
  -- `HeaderValue::from_static`, and `HeaderValue::to_str` as ASCII bytes
  pub from_static : Bytes → HeaderValue
  pub to_str : HeaderValue → Option Bytes
  -- `HeaderMap::append`, `HeaderMap::remove`, and an update of the last value of a name
  pub append : HeaderMap → HeaderName → HeaderValue → HeaderMap
  pub remove : HeaderMap → HeaderName → HeaderMap
  pub set_last : HeaderMap → HeaderName → HeaderValue → HeaderMap
  -- `HeaderValue::from(u64)`, `HeaderValue::from_maybe_shared_unchecked`
  pub from_u64 : ℕ → HeaderValue
  pub unchecked : Bytes → HeaderValue
