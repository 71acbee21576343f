-- ===== src/Http1/Decode.antt =====
-- `Decoder` of proto/http1/decode.rs.
pub mod Total
pub mod Sound
pub mod RoundTrip
pub mod Sized
use hwire.Base
use hwire.Base.{
  ℕ, zero, suc, Bool, true, false, Option, none, some, List, [], ◌∷◌, ltb, leb, ◌==◌, if◌then◌else◌,
  Bytes, to_usize, sub_u64,
}
use hwire.Body.Length.{DecodedLength, danger_len, same}
use hwire.Body.Length
use hwire.HttpCrate.{HttpCrate, complete, partial, malformed}
use hwire.Io.{
  IoError, incomplete_body, trailers_count_overflow, invalid_header_name, invalid_header_value,
  partial_header, invalid_headers, Out, ready, failed, pending, panicked, MemRead,
}
use hwire.Http1.Chunked.{
  ChunkedState, start, end, StepArgs, step, default_max_headers, trailer_limit,
}

-- The fields of `Kind::Chunked`.
pub record ChunkedDecoder : Type 0 where
  pub state : ChunkedState
  pub chunk_len : ℕ
  pub extensions_cnt : ℕ
  pub trailers_buf : Option Bytes
  pub trailers_cnt : ℕ
  pub h1_max_headers : Option ℕ
  pub h1_max_header_size : Option ℕ

pub data Kind : Type 0 where
  length : ℕ → Kind
  chunked : ChunkedDecoder → Kind
  eof : Bool → Kind

pub record Decoder : Type 0 where
  pub kind : Kind

pub data Frame (HeaderMap : Type 0) : Type 0 where
  data_frame : Bytes → Frame HeaderMap
  trailers : HeaderMap → Frame HeaderMap

abbrev pub new_chunked : Option ℕ → Option ℕ → ChunkedDecoder
new_chunked max_headers max_header_size = record {
  state = start;
  chunk_len = 0;
  extensions_cnt = 0;
  trailers_buf = none;
  trailers_cnt = 0;
  h1_max_headers = max_headers;
  h1_max_header_size = max_header_size;
}

-- `Decoder::new`
unfoldable pub new : DecodedLength → Option ℕ → Option ℕ → Decoder
new len max_headers max_header_size =
    if same len Length.chunked
    then record { kind = chunked (new_chunked max_headers max_header_size) }
    else if same len Length.close_delimited
    then record { kind = eof false }
    else record { kind = length (danger_len len) }

abbrev pub is_end : ChunkedState → Bool
is_end end = true
is_end _ = false

abbrev kind_is_eof : Kind → Bool
kind_is_eof (length n) = n == 0
kind_is_eof (chunked c) = is_end c.state
kind_is_eof (eof b) = b

unfoldable pub is_eof : Decoder → Bool
is_eof d = kind_is_eof d.kind

abbrev pub unwrap_or : Option ℕ → ℕ → ℕ
unwrap_or none d = d
unwrap_or (some n) d = n

abbrev pub max_headers_of : ChunkedDecoder → ℕ
max_headers_of c = unwrap_or c.h1_max_headers default_max_headers

abbrev pub step_args : {R : Type 0} → ChunkedDecoder → R → StepArgs R
step_args c r = record {
  reader = r;
  chunk_size = c.chunk_len;
  chunk_buf = none;
  extensions_cnt = c.extensions_cnt;
  trailers_buf = c.trailers_buf;
  trailers_cnt = c.trailers_cnt;
  max_headers_cnt = max_headers_of c;
  max_headers_bytes = unwrap_or c.h1_max_header_size trailer_limit;
}

-- What a step wrote through the borrowed fields.
abbrev pub store : {R : Type 0} → ChunkedDecoder → StepArgs R → ChunkedState → ChunkedDecoder
store c s st = record c {
  state = st;
  chunk_len = s.chunk_size;
  extensions_cnt = s.extensions_cnt;
  trailers_buf = s.trailers_buf;
  trailers_cnt = s.trailers_cnt;
}

module _ (http : HttpCrate) where
  open http use {HeaderMap, empty, insert, name_try_from, value_from_bytes, parse_headers}

  pub data TrailersResult : Type 0 where
    good : HeaderMap → TrailersResult
    bad : IoError → TrailersResult

  insert_one : Option http.HeaderName → Option http.HeaderValue → HeaderMap → TrailersResult
  insert_one none value map = bad invalid_header_name
  insert_one (some n) none map = bad invalid_header_value
  insert_one (some n) (some v) map = good (insert map n v)

  collect : List (Bytes × Bytes) → HeaderMap → TrailersResult
  unfolding insert_one
  collect [] map = good map
  collect ((n, v) ∷ hs) map = elim (insert_one (name_try_from n) (value_from_bytes v) map) [
    | good map' ↦ collect hs map'
    | bad e ↦ bad e
  ]

  unfoldable pub decode_trailers : Bytes → ℕ → TrailersResult
  unfolding collect
  decode_trailers buf count = elim (parse_headers buf count) [
    | complete hs ↦ collect hs empty
    | partial ↦ bad partial_header
    | malformed ↦ bad invalid_headers
  ]

  module _ {R : Type 0} (m : MemRead R) where
    abbrev result_of :
        ChunkedDecoder → R → TrailersResult → Out (ChunkedDecoder × R) (Frame HeaderMap)
    result_of c r (good map) = ready (c, r) (trailers map)
    result_of c r (bad e) = failed (c, r) e

    -- the branch at `ChunkedState::End`
    pub finish : Option Bytes → ChunkedDecoder → R → Out (ChunkedDecoder × R) (Frame HeaderMap)
    finish none c r = ready (c, r) (data_frame [])
    finish (some buf) c r =
        if leb (max_headers_of c) c.trailers_cnt
        then failed (c, r) trailers_count_overflow
        else result_of (record c { trailers_buf = none }) r (decode_trailers buf c.trailers_cnt)

    abbrev pub ChunkedResult : Type 0
    ChunkedResult = Option (Out (ChunkedDecoder × R) (Frame HeaderMap))

    -- `if let Some(buf) = buf`; `loop` is the next round
    pub yield_or :
        (ChunkedDecoder → R → ChunkedResult) → Option Bytes → ChunkedDecoder → R → ChunkedResult
    yield_or loop none c r = loop c r
    yield_or loop (some buf) c r = some (ready (c, r) (data_frame buf))

    -- one round of the loop, behind the step
    pub after_step :
        (ChunkedDecoder → R → ChunkedResult)
        → ChunkedDecoder
        → Out (StepArgs R) ChunkedState
        → ChunkedResult
    after_step loop c (ready s st) =
        if is_end st
        then some (finish s.trailers_buf (store c s st) s.reader)
        else yield_or loop s.chunk_buf (store c s st) s.reader
    after_step loop c (failed s e) = some (failed (store c s c.state, s.reader) e)
    after_step loop c (pending s) = some (pending (store c s c.state, s.reader))
    after_step loop c panicked = some panicked

    -- The loop of `decode` for `Kind::Chunked`; `none` means that the fuel ran out.
    unfoldable pub decode_chunked : ℕ → ChunkedDecoder → R → ChunkedResult
    unfolding finish yield_or after_step
    decode_chunked zero c r = none
    decode_chunked (suc fuel) c r =
        after_step (decode_chunked fuel) c (step m c.state (step_args c r))

    abbrev pub sized_read : ℕ → R → Bytes → Out (Kind × R) (Frame HeaderMap)
    sized_read remaining r buf =
        let num = Base.length buf in
        if ltb remaining num
        then ready (length 0, r) (data_frame buf)
        else if num == 0
        then failed (length remaining, r) incomplete_body
        else ready (length (sub_u64 remaining num), r) (data_frame buf)

    abbrev pub after_read : ℕ → Out R Bytes → Out (Kind × R) (Frame HeaderMap)
    after_read remaining (ready r buf) = sized_read remaining r buf
    after_read remaining (failed r e) = failed (length remaining, r) e
    after_read remaining (pending r) = pending (length remaining, r)
    after_read remaining panicked = panicked

    -- `Kind::Length`
    unfoldable pub decode_length : ℕ → R → Out (Kind × R) (Frame HeaderMap)
    decode_length remaining r =
        if remaining == 0
        then ready (length remaining, r) (data_frame [])
        else after_read remaining (m.read_mem r (to_usize remaining))

    abbrev is_empty : Bytes → Bool
    is_empty [] = true
    is_empty (b ∷ bs) = false

    -- `Kind::Eof`
    unfoldable pub decode_eof : Bool → R → Out (Kind × R) (Frame HeaderMap)
    decode_eof true r = ready (eof true, r) (data_frame [])
    decode_eof false r = elim (m.read_mem r 8192) [
      | ready r' slice ↦ ready (eof (is_empty slice), r') (data_frame slice)
      | failed r' e ↦ failed (eof false, r') e
      | pending r' ↦ pending (eof false, r')
      | panicked ↦ panicked
    ]

    abbrev pub with_kind : {A : Type 0} → Out (Kind × R) A → Out (Decoder × R) A
    with_kind (ready (k, r) a) = ready (record { kind = k }, r) a
    with_kind (failed (k, r) e) = failed (record { kind = k }, r) e
    with_kind (pending (k, r)) = pending (record { kind = k }, r)
    with_kind panicked = panicked

    abbrev pub as_kind :
        {A : Type 0} → Option (Out (ChunkedDecoder × R) A) → Option (Out (Kind × R) A)
    as_kind none = none
    as_kind (some (ready (c, r) a)) = some (ready (chunked c, r) a)
    as_kind (some (failed (c, r) e)) = some (failed (chunked c, r) e)
    as_kind (some (pending (c, r))) = some (pending (chunked c, r))
    as_kind (some panicked) = some panicked

    decode_kind : ℕ → Kind → R → Option (Out (Kind × R) (Frame HeaderMap))
    decode_kind fuel (length n) r = some (decode_length n r)
    decode_kind fuel (chunked c) r = as_kind (decode_chunked fuel c r)
    decode_kind fuel (eof b) r = some (decode_eof b r)

    -- `Decoder::decode`
    unfoldable pub decode : ℕ → Decoder → R → Option (Out (Decoder × R) (Frame HeaderMap))
    unfolding decode_kind
    decode fuel d r = elim (decode_kind fuel d.kind r) [ none ↦ none | some o ↦ some (with_kind o) ]
