-- ===== src/Http1/Encode.antt =====
-- `Encoder` of proto/http1/encode.rs. A message is its bytes.
pub mod Size
pub mod Total
pub mod Framing
use hwire.Base
use hwire.Base.{
  ℕ, zero, suc, ◌+◌, ◌-◌, ◌/◌, ◌%◌, Bool, true, false, not, ◌&&◌, ◌||◌, Option, none, some, List,
  [], ◌∷◌, ◌++◌, ltb, ◌==◌, if◌then◌else◌, Bytes, take, codes, sub_u64,
}
use hwire.HttpCrate.{
  HttpCrate, authorization, cache_control, content_encoding, content_length, content_range,
  content_type, host, max_forwards, set_cookie, te, trailer, transfer_encoding,
}

-- Upper-case hexadecimal, `{len:X}` of `core::fmt`.
abbrev pub upper_digit : ℕ → ℕ
upper_digit d = if ltb d 10 then b'0' + d else b'A' + (d - 10)

-- A number below 16 ^ fuel has at most `fuel` digits.
unfoldable pub upper_hex : ℕ → ℕ → Bytes
upper_hex zero n = []
upper_hex (suc fuel) n =
    let more = upper_hex fuel (n / 16) in
    if ltb n 16 then upper_digit n ∷ [] else more ++ (upper_digit (n % 16) ∷ [])

abbrev pub chunk_size_max_bytes : ℕ
chunk_size_max_bytes = 16

-- The bytes that were written to the array of `chunk_size_max_bytes + 2`.
pub record ChunkSize : Type 0 where
  pub bytes : Bytes
  pub pos : ℕ

-- `write_str`; `none` is the panic where the array is full.
unfoldable pub write_str : ChunkSize → Bytes → Option ChunkSize
write_str c num =
    if ltb (chunk_size_max_bytes + 2) (Base.length (c.bytes ++ num))
    then none
    else some (record c { bytes = c.bytes ++ num })

abbrev then_write : Option ChunkSize → Bytes → Option ChunkSize
then_write none num = none
then_write (some c) num = write_str c num

-- `ChunkSize::new`
unfoldable pub new_chunk_size : ℕ → Option ChunkSize
new_chunk_size len =
    then_write (write_str (record { bytes = []; pos = 0 }) (upper_hex 16 len)) (codes "\r\n")

module _ (http : HttpCrate) where
  open http use {
    HeaderName, HeaderValue, HeaderMap, empty, insert, same_name, known, name_bytes, value_bytes,
    into_items, iter,
  }

  pub data Kind : Type 0 where
    chunked : Option (List HeaderName) → Kind
    length : ℕ → Kind

  pub record Encoder : Type 0 where
    pub kind : Kind
    pub is_last : Bool

  -- `BufKind`
  pub data EncodedBuf : Type 0 where
    exact : Bytes → EncodedBuf
    limited : Bytes → ℕ → EncodedBuf
    chunk : ChunkSize → Bytes → Bytes → EncodedBuf
    chunked_end : Bytes → EncodedBuf
    trailers : Bytes → Bytes → Bytes → EncodedBuf

  -- The bytes that the buffer has still to give.
  abbrev pub content : EncodedBuf → Bytes
  content (exact b) = b
  content (limited b n) = take n b
  content (chunk c b suffix) = Base.drop c.pos c.bytes ++ (b ++ suffix)
  content (chunked_end b) = b
  content (trailers a b c) = a ++ (b ++ c)

  abbrev pub new_chunked : Encoder
  new_chunked = record { kind = chunked none; is_last = false }

  abbrev pub new_length : ℕ → Encoder
  new_length n = record { kind = length n; is_last = false }

  abbrev with_fields : Kind → List HeaderName → Encoder → Encoder
  with_fields (chunked old) fields e = record e { kind = chunked (some fields) }
  with_fields (length n) fields e = e

  unfoldable pub into_chunked_with_trailing_fields : Encoder → List HeaderName → Encoder
  into_chunked_with_trailing_fields e fields = with_fields e.kind fields e

  abbrev kind_is_eof : Kind → Bool
  kind_is_eof (chunked fields) = false
  kind_is_eof (length n) = n == 0

  abbrev pub is_eof : Encoder → Bool
  is_eof e = kind_is_eof e.kind

  abbrev kind_is_chunked : Kind → Bool
  kind_is_chunked (chunked fields) = true
  kind_is_chunked (length n) = false

  abbrev pub is_chunked : Encoder → Bool
  is_chunked e = kind_is_chunked e.kind

  abbrev pub is_close_delimited : Encoder → Bool
  is_close_delimited e = false

  -- `Ok(None)`, `Ok(Some(buf))`, and `Err(NotEof(n))`
  pub data EndResult : Type 0 where
    at_end : EndResult
    end_with : EncodedBuf → EndResult
    not_eof : ℕ → EndResult

  end_kind : Kind → EndResult
  end_kind (chunked fields) = end_with (chunked_end (codes "0\r\n\r\n"))
  end_kind (length n) = if n == 0 then at_end else not_eof n

  -- `Encoder::end`
  unfoldable pub end_body : Encoder → EndResult
  unfolding end_kind
  end_body e = end_kind e.kind

  abbrev chunk_of : Option ChunkSize → Bytes → Bytes → Option EncodedBuf
  chunk_of none msg suffix = none
  chunk_of (some c) msg suffix = some (chunk c msg suffix)

  -- The new kind and the buffer; `none` is the panic of `ChunkSize::new`.
  encode_kind : Kind → Bytes → Option (Kind × EncodedBuf)
  encode_kind (chunked fields) msg =
      elim (chunk_of (new_chunk_size (Base.length msg)) msg (codes "\r\n")) [
        | none ↦ none
        | some buf ↦ some (chunked fields, buf)
      ]
  encode_kind (length remaining) msg =
      if ltb remaining (Base.length msg)
      then some (length 0, limited msg remaining)
      else some (length (sub_u64 remaining (Base.length msg)), exact msg)

  -- `Encoder::encode`
  unfoldable pub encode : Encoder → Bytes → Option (Encoder × EncodedBuf)
  unfolding encode_kind
  encode e msg = elim (encode_kind e.kind msg) [
    | none ↦ none
    | some (k, buf) ↦ some (record e { kind = k }, buf)
  ]

  -- What `encode_and_end` puts into the write buffer, and its answer.
  and_end_kind : Kind → Bool → Bytes → Option (EncodedBuf × Bool)
  and_end_kind (chunked fields) last msg =
      elim (chunk_of (new_chunk_size (Base.length msg)) msg (codes "\r\n0\r\n\r\n")) [
        | none ↦ none
        | some buf ↦ some (buf, not last)
      ]
  and_end_kind (length remaining) last msg =
      if Base.length msg == remaining
      then some (exact msg, not last)
      else if ltb remaining (Base.length msg)
      then some (limited msg remaining, not last)
      else some (exact msg, false)

  -- `Encoder::encode_and_end`
  unfoldable pub encode_and_end : Encoder → Bytes → Option (EncodedBuf × Bool)
  unfolding and_end_kind
  encode_and_end e msg = and_end_kind e.kind e.is_last msg

  pub contains : List HeaderName → HeaderName → Bool
  contains [] n = false
  contains (a ∷ rest) n = same_name a n || contains rest n

  abbrev forbidden : List HeaderName
  forbidden =
      known authorization
      ∷ known cache_control
      ∷ known content_encoding
      ∷ known content_length
      ∷ known content_range
      ∷ known content_type
      ∷ known host
      ∷ known max_forwards
      ∷ known set_cookie
      ∷ known trailer
      ∷ known transfer_encoding
      ∷ known te
      ∷ []

  pub is_valid_trailer_field : HeaderName → Bool
  unfolding contains
  is_valid_trailer_field n = not (contains forbidden n)

  abbrev current : Option HeaderName → Option HeaderName → Option HeaderName
  current (some n) cur = some n
  current none cur = cur

  -- `none` is the panic of `expect("current header name")`.
  filter_one : List HeaderName → Option HeaderName → HeaderValue → HeaderMap → Option HeaderMap
  unfolding contains is_valid_trailer_field
  filter_one allowed none v m = none
  filter_one allowed (some n) v m =
      if contains allowed n && is_valid_trailer_field n then some (insert m n v) else some m

  filter_trailers :
      List HeaderName
      → Option HeaderName
      → List (Option HeaderName × HeaderValue)
      → HeaderMap
      → Option HeaderMap
  unfolding filter_one
  filter_trailers allowed cur [] m = some m
  filter_trailers allowed cur ((o, v) ∷ items) m = elim (filter_one allowed (current o cur) v m) [
    | none ↦ none
    | some m' ↦ filter_trailers allowed (current o cur) items m'
  ]

  -- `write_headers` of proto/http1/role.rs
  unfoldable pub write_headers : List (HeaderName × HeaderValue) → Bytes
  write_headers [] = []
  write_headers ((n, v) ∷ hs) =
      name_bytes n ++ (codes ": " ++ (value_bytes v ++ (codes "\r\n" ++ write_headers hs)))

  -- `None` of `encode_trailers`, a buffer, or the panic
  pub data TrailersResult : Type 0 where
    no_trailers : TrailersResult
    some_trailers : EncodedBuf → TrailersResult
    no_name : TrailersResult

  abbrev trailers_of : Bytes → TrailersResult
  trailers_of [] = no_trailers
  trailers_of (b ∷ bs) = some_trailers (trailers (codes "0\r\n") (b ∷ bs) (codes "\r\n"))

  trailers_kind : Kind → HeaderMap → TrailersResult
  unfolding filter_trailers write_headers
  trailers_kind (chunked (some allowed)) m =
      elim (filter_trailers allowed none (into_items m) empty) [
        | none ↦ no_name
        | some m' ↦ trailers_of (write_headers (iter m'))
      ]
  trailers_kind (chunked none) m = no_trailers
  trailers_kind (length n) m = no_trailers

  -- `Encoder::encode_trailers`
  unfoldable pub encode_trailers : Encoder → HeaderMap → TrailersResult
  unfolding trailers_kind
  encode_trailers e m = trailers_kind e.kind m
