-- ===== src/Http1/Role/Decoder.antt =====
-- `Client::decoder` of proto/http1/role.rs: how the body of a response is delimited.
use hwire.Base.{
  ℕ, Bool, true, false, ◌||◌, ◌&&◌, Option, none, some, ◌⊎◌, inl, inr, ◌==◌, leb, if◌then◌else◌,
}
use hwire.HttpCrate.{KnownHeader, KnownMethod, content_length, transfer_encoding}
use hwire.Error.{Parse, header, too_large, content_length_invalid, transfer_encoding_unexpected}
use hwire.Body.Length.{DecodedLength, checked_new, chunked, close_delimited, zero}
use hwire.Http1.Headers.{content_length_parse_all, transfer_encoding_is_chunked}
use hwire.Http1.State.{Outside, Version, http_10}
use hwire.Http1.Transaction.{MessageHead}

-- `Ok(Some((length, wants_upgrade)))`, `Ok(None)`, or an error
abbrev pub Framed : Type 0
Framed = Parse ⊎ Option (DecodedLength × Bool)

abbrev pub body_of : DecodedLength → Bool → Framed
body_of d upgrade = inr (some (d, upgrade))

-- The first match of `decoder`, on the status
pub data StatusKind : Type 0 where
  switching skipped bodiless ordinary : StatusKind

unfoldable pub status_kind : ℕ → StatusKind
status_kind s =
    if s == 101
    then switching
    else if s == 100 || (leb 102 s && leb s 199)
    then skipped
    else if s == 204 || s == 304
    then bodiless
    else ordinary

unfoldable pub is_success : ℕ → Bool
is_success s = leb 200 s && leb s 299

abbrev pub is_10 : Version → Bool
is_10 http_10 = true
is_10 _ = false

abbrev pub checked : Option DecodedLength → Framed
checked none = inl too_large
checked (some d) = body_of d false

module _ (out : Outside) where
  open out use {http, Method, is_method}

  -- `HeaderMap::contains_key`
  abbrev pub is_some_value : Option http.HeaderValue → Bool
  is_some_value none = false
  is_some_value (some v) = true

  unfoldable pub contains_key : http.HeaderMap → KnownHeader → Bool
  contains_key m k = is_some_value (http.get m (http.known k))

  -- The second match, on the method of the request
  unfoldable pub by_method : ℕ → Option Method → Option (DecodedLength × Bool)
  by_method s none = none
  by_method s (some m) =
      if is_method m KnownMethod.head
      then some (zero, false)
      else if is_method m KnownMethod.connect && is_success s
      then some (zero, true)
      else none

  unfoldable pub by_coding : Version → http.HeaderMap → Framed
  by_coding v headers =
      if is_10 v
      then inl (header transfer_encoding_unexpected)
      else if transfer_encoding_is_chunked http headers
      then body_of chunked false
      else body_of close_delimited false

  unfoldable pub by_length : Option ℕ → Bool → Framed
  by_length (some len) present = checked (checked_new len)
  by_length none true = inl (header content_length_invalid)
  by_length none false = body_of close_delimited false

  unfoldable pub by_headers : Version → http.HeaderMap → Framed
  unfolding by_length
  by_headers v headers =
      if contains_key headers transfer_encoding
      then by_coding v headers
      else by_length (content_length_parse_all http headers) (contains_key headers content_length)

  unfoldable pub or_headers : Option (DecodedLength × Bool) → MessageHead out ℕ → Framed
  or_headers (some f) inc = inr (some f)
  or_headers none inc = by_headers inc.version inc.headers

  unfoldable pub by_status : StatusKind → MessageHead out ℕ → Option Method → Framed
  unfolding or_headers
  by_status switching inc method = body_of zero true
  by_status skipped inc method = inr none
  by_status bodiless inc method = body_of zero false
  by_status ordinary inc method = or_headers (by_method inc.subject method) inc

  -- `Client::decoder`
  unfoldable pub decoder : MessageHead out ℕ → Option Method → Framed
  unfolding by_status
  decoder inc method = by_status (status_kind inc.subject) inc method
