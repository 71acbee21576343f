-- ===== src/Http1/Chunked/Safety.antt =====
-- What holds of the chunked decoder's counters and buffer between two steps.
use hwire.Base.{ℕ, ◌≤◌, ◌<◌, ◌≡◌, ◌⊎◌, Option, none, some, Bytes, length, u64_mod, to_usize, arith}
use hwire.Io.{Out, ready, failed, pending, panicked, MemRead, ReadLaws}
use hwire.Http1.Chunked.{
  ChunkedState, start, size, size_lws, extension, size_lf, body, body_cr, body_lf, trailer,
  trailer_lf, end_cr, end_lf, end, StepArgs, step, byte, chunked_extensions_limit,
}

abbrev pub HasBuffer : ChunkedState → Option Bytes → Type 0
HasBuffer trailer none = ⊥
HasBuffer trailer_lf none = ⊥
HasBuffer _ _ = Unit

-- One byte is put into a new buffer before the limit is looked at.
abbrev pub Fits : ℕ → Option Bytes → Type 0
Fits limit none = Unit
Fits limit (some buf) = (length buf < limit) ⊎ (length buf ≡ 1)

abbrev pub HasSize : ChunkedState → ℕ → Type 0
HasSize body n = 0 < n
HasSize start n = n ≡ 0
HasSize body_cr n = n ≡ 0
HasSize body_lf n = n ≡ 0
HasSize _ n = Unit

-- No trailer byte is kept before the last chunk.
abbrev pub IsFresh : ChunkedState → Option Bytes → Type 0
IsFresh trailer buf = Unit
IsFresh trailer_lf buf = Unit
IsFresh end_cr buf = Unit
IsFresh end_lf buf = Unit
IsFresh end buf = Unit
IsFresh _ buf = buf ≡ none

pub record StepInv {R : Type 0} (st : ChunkedState) (s : StepArgs R) : Type 0 where
  pub has_buffer : HasBuffer st s.trailers_buf
  pub has_size : HasSize st s.chunk_size
  pub is_fresh : IsFresh st s.trailers_buf
  pub size_fits : s.chunk_size < u64_mod
  pub extensions_fit : s.extensions_cnt < chunked_extensions_limit
  pub count_fits : s.trailers_cnt ≤ s.max_headers_cnt
  pub buffer_fits : Fits s.max_headers_bytes s.trailers_buf
  pub max_is_usize : s.max_headers_cnt < u64_mod

abbrev pub Keeps : {R : Type 0} → ChunkedState → Out (StepArgs R) ChunkedState → Type 0
Keeps st (ready s st') = StepInv st' s
Keeps st (failed s e) = Unit
Keeps st (pending s) = StepInv st s
Keeps st panicked = ⊥

module _ {R : Type 0} (m : MemRead R) (laws : ReadLaws m) where
  -- No step panics, and each keeps the invariant unless it returns an error.
  pub step-StepInv : (st : ChunkedState) (s : StepArgs R) → StepInv st s → Keeps st (step m st s)
  unfolding step byte
  step-StepInv start s i = ground (arith, laws.delivers s.reader 1)
  step-StepInv size s i = ground (arith, laws.delivers s.reader 1)
  step-StepInv size_lws s i = ground (arith, laws.delivers s.reader 1)
  step-StepInv extension s i = ground (arith, laws.delivers s.reader 1)
  step-StepInv size_lf s i = ground (arith, laws.delivers s.reader 1)
  step-StepInv body s i = ground (arith, laws.delivers s.reader (to_usize s.chunk_size))
  step-StepInv body_cr s i = ground (arith, laws.delivers s.reader 1)
  step-StepInv body_lf s i = ground (arith, laws.delivers s.reader 1)
  step-StepInv trailer s i = ground (arith, laws.delivers s.reader 1)
  step-StepInv trailer_lf s i = ground (arith, laws.delivers s.reader 1)
  step-StepInv end_cr s i = ground (arith, laws.delivers s.reader 1)
  step-StepInv end_lf s i = ground (arith, laws.delivers s.reader 1)
  step-StepInv end s i = i
