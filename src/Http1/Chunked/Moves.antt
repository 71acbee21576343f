-- ===== src/Http1/Chunked/Moves.antt =====
-- What one step of the machine reads and does, as equations.
use hwire.Base.{
  ℕ, ◌+◌, ◌*◌, ◌<◌, ◌≡◌, ◌≢◌, ◌⊎◌, true, Option, none, some, [], ◌∷◌, ◌++◌, ◌==◌, if◌then◌else◌,
  Bytes, arith,
}
use hwire.Io.{Out, ready, failed, pending, panicked, MemRead, ReadLaws, Delivers}
use hwire.Http1.Chunked.{
  ChunkedState, start, size, size_lws, extension, size_lf, body, body_cr, body_lf, trailer,
  trailer_lf, end_cr, end_lf, end, StepArgs, step, byte, first_byte, is_lws,
}
use hwire.Http1.Chunked.Grammar.{is_hex, hex_val}

-- `t` is `s` with another reader.
pub record SameBut {R : Type 0} (s t : StepArgs R) : Type 0 where
  pub size_same : t.chunk_size ≡ s.chunk_size
  pub buf_same : t.chunk_buf ≡ s.chunk_buf
  pub ext_same : t.extensions_cnt ≡ s.extensions_cnt
  pub trailers_same : t.trailers_buf ≡ s.trailers_buf
  pub cnt_same : t.trailers_cnt ≡ s.trailers_cnt
  pub max_cnt_same : t.max_headers_cnt ≡ s.max_headers_cnt
  pub max_bytes_same : t.max_headers_bytes ≡ s.max_headers_bytes

abbrev pub push : Option Bytes → ℕ → Option Bytes
push none b = none
push (some buf) b = some (buf ++ b ∷ [])

abbrev pub open_with : Option Bytes → ℕ → Option Bytes
open_with none b = some (b ∷ [])
open_with (some buf) b = some (buf ++ b ∷ [])

-- The state and the size behind a byte.
abbrev pub Moves : ChunkedState → ℕ → ℕ → ChunkedState → ℕ → Type 0
Moves start n b st k = (is_hex b ≡ true) × (st ≡ size) × (k ≡ n * 16 + hex_val b)
Moves size n b st k =
    ((is_hex b ≡ true) × (st ≡ size) × (k ≡ n * 16 + hex_val b))
    ⊎ ((is_lws b ≡ true) × (st ≡ size_lws) × (k ≡ n))
    ⊎ ((b ≡ b';') × (st ≡ extension) × (k ≡ n))
    ⊎ ((b ≡ b'\r') × (st ≡ size_lf) × (k ≡ n))
Moves size_lws n b st k =
    ((is_lws b ≡ true) × (st ≡ size_lws) × (k ≡ n))
    ⊎ ((b ≡ b';') × (st ≡ extension) × (k ≡ n))
    ⊎ ((b ≡ b'\r') × (st ≡ size_lf) × (k ≡ n))
Moves extension n b st k =
    ((b ≡ b'\r') × (st ≡ size_lf) × (k ≡ n))
    ⊎ ((b ≢ b'\r') × (b ≢ b'\n') × (st ≡ extension) × (k ≡ n))
Moves size_lf n b st k =
    ((b ≡ b'\n') × (n ≡ 0) × (st ≡ end_cr) × (k ≡ n))
    ⊎ ((b ≡ b'\n') × (0 < n) × (st ≡ body) × (k ≡ n))
Moves body_cr n b st k = (b ≡ b'\r') × (st ≡ body_lf) × (k ≡ n)
Moves body_lf n b st k = (b ≡ b'\n') × (st ≡ start) × (k ≡ n)
Moves trailer n b st k =
    ((b ≡ b'\r') × (st ≡ trailer_lf) × (k ≡ n)) ⊎ ((b ≢ b'\r') × (st ≡ trailer) × (k ≡ n))
Moves trailer_lf n b st k = (b ≡ b'\n') × (st ≡ end_cr) × (k ≡ n)
Moves end_cr n b st k =
    ((b ≡ b'\r') × (st ≡ end_lf) × (k ≡ n)) ⊎ ((b ≢ b'\r') × (st ≡ trailer) × (k ≡ n))
Moves end_lf n b st k = (b ≡ b'\n') × (st ≡ end) × (k ≡ n)
Moves body n b st k = ⊥
Moves end n b st k = ⊥

-- The trailer buffer behind a byte.
abbrev pub buffered : ChunkedState → Option Bytes → ℕ → Option Bytes
buffered trailer buf b = push buf b
buffered trailer_lf buf b = push buf b
buffered end_cr buf b = if b == b'\r' then push buf b else open_with buf b
buffered end_lf buf b = push buf b
buffered _ buf b = buf

abbrev pub IsByteState : ChunkedState → Type 0
IsByteState body = ⊥
IsByteState end = ⊥
IsByteState _ = Unit

module _ {R : Type 0} (m : MemRead R) (laws : ReadLaws m) where
  abbrev ByteReads : StepArgs R → Out (StepArgs R) ℕ → Type 0
  ByteReads s (ready t b) = (laws.rest s.reader ≡ b ∷ laws.rest t.reader) × SameBut s t
  ByteReads s (failed t e) = (laws.rest t.reader ≡ laws.rest s.reader) × SameBut s t
  ByteReads s (pending t) = (laws.rest t.reader ≡ laws.rest s.reader) × SameBut s t
  ByteReads s panicked = ⊥

  same_reader : (s : StepArgs R) (r : R) → SameBut s (record s { reader = r })
  same_reader s r = ground arith

  first_byte-reads :
      (s : StepArgs R) (o : Out R Bytes)
      → Delivers laws.rest (laws.rest s.reader) 1 o
      → ByteReads s (first_byte s o)
  first_byte-reads s (ready r []) h = (ground arith, same_reader s r)
  first_byte-reads s (ready r (b ∷ [])) h = (h.0, same_reader s r)
  first_byte-reads s (ready r (b ∷ c ∷ bs)) h = absurd (omega (arith, h.1))
  first_byte-reads s (failed r e) h = (h, same_reader s r)
  first_byte-reads s (pending r) h = (h, same_reader s r)
  first_byte-reads s panicked h = absurd h

  pub byte-reads : (s : StepArgs R) → ByteReads s (byte m s)
  unfolding byte
  byte-reads s = first_byte-reads s (m.read_mem s.reader 1) (laws.delivers s.reader 1)

  -- A step that reads one byte.
  pub record ByteStep (st st' : ChunkedState) (s t : StepArgs R) (b : ℕ) : Type 0 where
    pub reads : laws.rest s.reader ≡ b ∷ laws.rest t.reader
    pub moves : Moves st s.chunk_size b st' t.chunk_size
    pub buffers : t.trailers_buf ≡ buffered st s.trailers_buf b
    pub buf_kept : t.chunk_buf ≡ s.chunk_buf

  abbrev pub head : Bytes → ℕ
  head [] = 0
  head (b ∷ bs) = b

  abbrev pub next_byte : StepArgs R → ℕ
  next_byte s = head (laws.rest s.reader)

  pub step-ByteStep :
      (st : ChunkedState) (s t : StepArgs R) (st' : ChunkedState)
      → IsByteState st
      → step m st s ≡ ready t st'
      → ByteStep st st' s t (next_byte s)
  unfolding step
  step-ByteStep start s t st' p h = ground (arith, byte-reads s)
  step-ByteStep size s t st' p h = ground (arith, byte-reads s)
  step-ByteStep size_lws s t st' p h = ground (arith, byte-reads s)
  step-ByteStep extension s t st' p h = ground (arith, byte-reads s)
  step-ByteStep size_lf s t st' p h = ground (arith, byte-reads s)
  step-ByteStep body_cr s t st' p h = ground (arith, byte-reads s)
  step-ByteStep body_lf s t st' p h = ground (arith, byte-reads s)
  step-ByteStep trailer s t st' p h = ground (arith, byte-reads s)
  step-ByteStep trailer_lf s t st' p h = ground (arith, byte-reads s)
  step-ByteStep end_cr s t st' p h = ground (arith, byte-reads s)
  step-ByteStep end_lf s t st' p h = ground (arith, byte-reads s)
  step-ByteStep body s t st' p h = absurd p
  step-ByteStep end s t st' p h = absurd p
