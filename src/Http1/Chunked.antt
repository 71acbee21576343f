-- ===== src/Http1/Chunked.antt =====
-- The chunked state machine of proto/http1/decode.rs, one function for each `read_*`.
pub mod Safety
pub mod Grammar
mod Moves
mod Suffix
pub mod Progress
pub mod Sound
pub mod Unique
pub mod Plain
use hwire.Base.{
  ℕ, ◌+◌, ◌-◌, Bool, true, false, ◌&&◌, ◌||◌, Option, none, some, [], ◌∷◌, ◌++◌, ltb, leb, ◌==◌,
  if◌then◌else◌, Bytes, length, to_usize, add_u64, sub_u64, checked_mul, checked_add,
}
use hwire.Io.{
  incomplete_body, unexpected_eof, overflow, missing_size_digit, invalid_size, invalid_size_lws,
  extension_newline, extensions_over_limit, invalid_size_lf, invalid_body_cr, invalid_body_lf,
  trailers_over_limit, trailers_count_overflow, invalid_trailer_lf, invalid_end_lf, Out, ready,
  failed, pending, panicked, ◌>>=◌, ◌>>◌, ret, fail, MemRead,
}

abbrev pub chunked_extensions_limit : ℕ
chunked_extensions_limit = 16384

abbrev pub trailer_limit : ℕ
trailer_limit = 16384

abbrev pub default_max_headers : ℕ
default_max_headers = 100

pub data ChunkedState : Type 0 where
  start size size_lws extension size_lf body body_cr body_lf : ChunkedState
  trailer trailer_lf end_cr end_lf end : ChunkedState

-- `StepArgs` with the reader and the fields that it borrows from the decoder.
pub record StepArgs (R : Type 0) : Type 0 where
  pub reader : R
  pub chunk_size : ℕ
  pub chunk_buf : Option Bytes
  pub extensions_cnt : ℕ
  pub trailers_buf : Option Bytes
  pub trailers_cnt : ℕ
  pub max_headers_cnt : ℕ
  pub max_headers_bytes : ℕ

abbrev pub is_digit : ℕ → Bool
is_digit b = leb b'0' b && leb b b'9'

abbrev pub is_lower_hex : ℕ → Bool
is_lower_hex b = leb b'a' b && leb b b'f'

abbrev pub is_upper_hex : ℕ → Bool
is_upper_hex b = leb b'A' b && leb b b'F'

abbrev pub is_lws : ℕ → Bool
is_lws b = b == b'\t' || b == b' '

abbrev pub M : Type 0 → Type 0 → Type 0
M R A = StepArgs R → Out (StepArgs R) A

module _ {R : Type 0} where
  -- `or_overflow!` on a new size
  abbrev set_size : Option ℕ → M R (Unit {0})
  set_size none s = failed s overflow
  set_size (some n) s = ready (record s { chunk_size = n }) tt

  -- one more digit of the size, in radix 16
  abbrev pub push_digit : ℕ → M R (Unit {0})
  push_digit d = do
    (λ s. set_size (checked_mul s.chunk_size 16) s)
    (λ s. set_size (checked_add s.chunk_size d) s)

  -- `put_u8!` into the buffer `buf`
  abbrev put_byte : Bytes → ℕ → M R (Unit {0})
  put_byte buf b s =
      let buf' = buf ++ b ∷ [] in
      let s' = record s { trailers_buf = some buf' } in
      if leb s.max_headers_bytes (length buf') then failed s' trailers_over_limit else ready s' tt

  -- `put_u8!(trailers_buf.as_mut().expect(..), ..)`
  abbrev expect_put : ℕ → Option Bytes → M R (Unit {0})
  expect_put b none s = panicked
  expect_put b (some buf) s = put_byte buf b s

  -- `if let Some(trailers_buf) = trailers_buf { put_u8!(..) }`
  abbrev put_if_some : ℕ → Option Bytes → M R (Unit {0})
  put_if_some b none s = ready s tt
  put_if_some b (some buf) s = put_byte buf b s

  -- the first byte after an empty line: it opens the buffer, with no test of the limit
  abbrev open_or_put : ℕ → Option Bytes → M R (Unit {0})
  open_or_put b none s = ready (record s { trailers_buf = some (b ∷ []) }) tt
  open_or_put b (some buf) s = put_byte buf b s

  -- What `byte!` makes of a read of one byte.
  abbrev pub first_byte : StepArgs R → Out R Bytes → Out (StepArgs R) ℕ
  first_byte s (ready r []) = failed (record s { reader = r }) unexpected_eof
  first_byte s (ready r (b ∷ bs)) = ready (record s { reader = r }) b
  first_byte s (failed r e) = failed (record s { reader = r }) e
  first_byte s (pending r) = pending (record s { reader = r })
  first_byte s panicked = panicked

module _ {R : Type 0} (m : MemRead R) where
  -- `byte!`
  unfoldable pub byte : M R ℕ
  byte s = first_byte s (m.read_mem s.reader 1)

  pub start_byte : ℕ → M R ChunkedState
  start_byte b =
      if is_digit b
      then (do push_digit (b - b'0'); ret size)
      else if is_lower_hex b
      then (do push_digit (b + 10 - b'a'); ret size)
      else if is_upper_hex b
      then (do push_digit (b + 10 - b'A'); ret size)
      else fail missing_size_digit

  pub read_start : M R ChunkedState
  unfolding start_byte
  read_start = do b ← byte; start_byte b

  pub size_byte : ℕ → M R ChunkedState
  size_byte b =
      if is_digit b
      then (do push_digit (b - b'0'); ret size)
      else if is_lower_hex b
      then (do push_digit (b + 10 - b'a'); ret size)
      else if is_upper_hex b
      then (do push_digit (b + 10 - b'A'); ret size)
      else if is_lws b
      then ret size_lws
      else if b == b';'
      then ret extension
      else if b == b'\r'
      then ret size_lf
      else fail invalid_size

  pub read_size : M R ChunkedState
  unfolding size_byte
  read_size = do b ← byte; size_byte b

  pub read_size_lws : M R ChunkedState
  read_size_lws = do
    b ← byte
    if is_lws b
        then ret size_lws
        else if b == b';'
        then ret extension
        else if b == b'\r'
        then ret size_lf
        else fail invalid_size_lws

  abbrev count_extension : M R ChunkedState
  count_extension s =
      let n = add_u64 s.extensions_cnt 1 in
      let s' = record s { extensions_cnt = n } in
      if leb chunked_extensions_limit n then failed s' extensions_over_limit else ready s' extension

  pub read_extension : M R ChunkedState
  read_extension = do
    b ← byte
    if b == b'\r'
        then ret size_lf
        else if b == b'\n'
        then fail extension_newline
        else count_extension

  pub read_size_lf : M R ChunkedState
  read_size_lf = do
    b ← byte
    if b == b'\n'
        then (λ s. if s.chunk_size == 0 then ready s end_cr else ready s body)
        else fail invalid_size_lf

  -- The bytes that a read of the body returned.
  abbrev take_slice : StepArgs R → Bytes → Out (StepArgs R) ChunkedState
  take_slice s [] = failed (record s { chunk_size = 0 }) incomplete_body
  take_slice s (b ∷ bs) =
      let rem = sub_u64 s.chunk_size (length (b ∷ bs)) in
      let s' = record s { chunk_buf = some (b ∷ bs); chunk_size = rem } in
      if ltb 0 rem then ready s' body else ready s' body_cr

  -- What a read of the body makes of the reader's answer.
  abbrev pub body_read : StepArgs R → Out R Bytes → Out (StepArgs R) ChunkedState
  body_read s (ready r slice) = take_slice (record s { reader = r }) slice
  body_read s (failed r e) = failed (record s { reader = r }) e
  body_read s (pending r) = pending (record s { reader = r })
  body_read s panicked = panicked

  pub read_body : M R ChunkedState
  read_body s = body_read s (m.read_mem s.reader (to_usize s.chunk_size))

  pub read_body_cr : M R ChunkedState
  read_body_cr = do b ← byte; if b == b'\r' then ret body_lf else fail invalid_body_cr

  pub read_body_lf : M R ChunkedState
  read_body_lf = do b ← byte; if b == b'\n' then ret start else fail invalid_body_lf

  pub read_trailer : M R ChunkedState
  read_trailer = do
    b ← byte
    (λ s. expect_put b s.trailers_buf s)
    if b == b'\r' then ret trailer_lf else ret trailer

  -- the flag is `*trailers_cnt >= h1_max_headers`
  abbrev count_unless : Bool → M R (Unit {0})
  count_unless true s = failed s trailers_count_overflow
  count_unless false s = ready (record s { trailers_cnt = add_u64 s.trailers_cnt 1 }) tt

  abbrev count_trailer : M R (Unit {0})
  count_trailer s = count_unless (leb s.max_headers_cnt s.trailers_cnt) s

  abbrev trailer_lf_byte : ℕ → M R ChunkedState
  trailer_lf_byte b s =
      if b == b'\n'
      then (do count_trailer; (λ t. expect_put b t.trailers_buf t); ret end_cr) s
      else failed s invalid_trailer_lf

  pub read_trailer_lf : M R ChunkedState
  read_trailer_lf = do b ← byte; trailer_lf_byte b

  pub read_end_cr : M R ChunkedState
  read_end_cr = do
    b ← byte
    if b == b'\r'
        then (do (λ s. put_if_some b s.trailers_buf s); ret end_lf)
        else (do (λ s. open_or_put b s.trailers_buf s); ret trailer)

  pub read_end_lf : M R ChunkedState
  read_end_lf = do
    b ← byte
    if b == b'\n' then (do (λ s. put_if_some b s.trailers_buf s); ret end) else fail invalid_end_lf

  -- `ChunkedState::step`
  unfoldable pub step : ChunkedState → M R ChunkedState
  unfolding read_start read_size read_size_lws read_extension read_size_lf read_body read_body_cr
      read_body_lf read_trailer read_trailer_lf read_end_cr read_end_lf
  step start = read_start
  step size = read_size
  step size_lws = read_size_lws
  step extension = read_extension
  step size_lf = read_size_lf
  step body = read_body
  step body_cr = read_body_cr
  step body_lf = read_body_lf
  step trailer = read_trailer
  step trailer_lf = read_trailer_lf
  step end_cr = read_end_cr
  step end_lf = read_end_lf
  step end = ret end
