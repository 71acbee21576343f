-- ===== src/Http1/Role/Length.antt =====
-- `Client::set_length` and `set_content_length` of proto/http1/role.rs, and `add_chunked` of
-- proto/headers.rs: how the body of a request is delimited.
use hwire.Base.{
  ℕ, Bool, true, false, ◌||◌, Option, none, some, List, [], ◌∷◌, ◌++◌, if◌then◌else◌, Bytes, codes,
}
use hwire.HttpCrate.{KnownMethod, content_length, trailer, transfer_encoding}
use hwire.Http1.Encode.{
  Encoder, new_chunked, new_length, is_chunked, into_chunked_with_trailing_fields,
}
use hwire.Http1.Headers.{split_commas, trim, content_length_parse_all}
use hwire.Http1.Headers
use hwire.Http1.State.{Outside, Version, http_11}
use hwire.Http1.Transaction.{BodyLength, known, unknown}
use hwire.Http1.Role.Decoder.{contains_key}

abbrev pub is_11 : Version → Bool
is_11 http_11 = true
is_11 _ = false

module _ (out : Outside) where
  open out use {http, Method, is_method}
  open http use {HeaderName, HeaderValue, HeaderMap}

  abbrev pub Sized : Type 0
  Sized = HeaderMap × Encoder http

  -- `set_content_length`, without its debugging branch
  unfoldable pub set_content_length : HeaderMap → ℕ → Sized
  set_content_length headers len =
      (http.insert headers (http.known content_length) (http.from_u64 len), new_length http len)

  abbrev pub te_name : HeaderName
  te_name = http.known transfer_encoding

  abbrev pub put_back : HeaderMap → Option HeaderValue → Option HeaderMap
  put_back headers none = none
  put_back headers (some v) = some (http.set_last headers te_name v)

  abbrev pub chunked_onto : HeaderMap → Option HeaderValue → Option HeaderMap
  chunked_onto headers none =
      some (http.insert headers te_name (http.from_static (codes "chunked")))
  chunked_onto headers (some line) =
      put_back headers (http.value_from_bytes (http.value_bytes line ++ codes ", chunked"))

  -- `add_chunked`; `none` is the panic of its `expect`.
  unfoldable pub add_chunked : HeaderMap → Option HeaderMap
  add_chunked headers =
      chunked_onto headers (Headers.last_value http (http.get_all headers te_name))

  abbrev pub with_name : Option HeaderName → List HeaderName → List HeaderName
  with_name none ns = ns
  with_name (some n) ns = n ∷ ns

  unfoldable pub names_of : List Bytes → List HeaderName
  names_of [] = []
  names_of (p ∷ ps) = with_name (http.name_try_from (trim p)) (names_of ps)

  unfoldable pub text_names : Option Bytes → List HeaderName
  unfolding names_of
  text_names none = []
  text_names (some s) = names_of (split_commas s)

  -- The names in the values of `Trailer`
  unfoldable pub trailer_fields : List HeaderValue → List HeaderName
  trailer_fields [] = []
  trailer_fields (v ∷ vs) = text_names (http.to_str v) ++ trailer_fields vs

  abbrev pub with_fields : Encoder http → List HeaderName → Encoder http
  with_fields enc [] = enc
  with_fields enc (n ∷ ns) = into_chunked_with_trailing_fields http enc (n ∷ ns)

  -- The closure that is mapped over the encoder
  unfoldable pub allow_trailers : HeaderMap → Encoder http → Encoder http
  unfolding trailer_fields
  allow_trailers headers enc =
      if is_chunked http enc
      then with_fields enc (trailer_fields (http.get_all headers (http.known trailer)))
      else enc

  -- A request in HTTP/1.0, or in a version that is none of HTTP/1.1
  unfoldable pub without_chunked : HeaderMap → Option ℕ → BodyLength → Sized
  unfolding set_content_length
  without_chunked headers (some len) body = (headers, new_length http len)
  without_chunked headers none (known len) = set_content_length headers len
  without_chunked headers none unknown = (headers, new_length http 0)

  -- The user set `Transfer-Encoding`, and `chunked` ends it now.
  abbrev pub drop_length : Option ℕ → HeaderMap → HeaderMap
  drop_length (some n) headers = http.remove headers (http.known content_length)
  drop_length none headers = headers

  unfoldable pub coded : Option ℕ → Option HeaderMap → Option Sized
  unfolding allow_trailers
  coded existing none = none
  coded existing (some headers) =
      some (drop_length existing headers, allow_trailers headers (new_chunked http))

  -- `GET`, `HEAD` and `CONNECT`
  unfoldable pub seldom_has_body : Method → Bool
  seldom_has_body m =
      is_method m KnownMethod.get
      || (is_method m KnownMethod.head || is_method m KnownMethod.connect)

  abbrev pub insert_chunked : HeaderMap → HeaderMap
  insert_chunked headers = http.insert headers te_name (http.from_static (codes "chunked"))

  -- The user did not set `Transfer-Encoding`.
  unfoldable pub uncoded : Method → HeaderMap → Option ℕ → BodyLength → Sized
  unfolding allow_trailers set_content_length
  uncoded m headers (some len) body = (headers, new_length http len)
  uncoded m headers none (known len) = set_content_length headers len
  uncoded m headers none unknown =
      if seldom_has_body m
      then (headers, new_length http 0)
      else (insert_chunked headers, allow_trailers (insert_chunked headers) (new_chunked http))

  unfoldable pub respect_coding : HeaderMap → Option HeaderMap
  unfolding add_chunked
  respect_coding headers =
      if Headers.is_chunked http (http.get_all headers te_name)
      then some headers
      else add_chunked headers

  unfoldable pub with_chunked : Method → HeaderMap → Option ℕ → BodyLength → Option Sized
  unfolding uncoded
  with_chunked m headers existing body =
      if contains_key out headers transfer_encoding
      then coded existing (respect_coding headers)
      else some (uncoded m headers existing body)

  -- `Client::set_length`, on the version, the method and the headers of the head
  unfoldable pub set_length : Version → Method → HeaderMap → Option BodyLength → Option Sized
  unfolding without_chunked with_chunked
  set_length v m headers none = some (http.remove headers te_name, new_length http 0)
  set_length v m headers (some body) =
      let existing = content_length_parse_all http headers in
      if is_11 v
      then with_chunked m headers existing body
      else some (without_chunked (http.remove headers te_name) existing body)
