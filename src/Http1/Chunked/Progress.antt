-- ===== src/Http1/Chunked/Progress.antt =====
-- Every step takes bytes from the reader, and leaves the limits as they are.
use hwire.Base.{ℕ, ◌≤◌, ◌<◌, ◌≡◌, ap, [], ◌∷◌, ◌++◌, Bytes, length, length-append, to_usize, arith}
use hwire.Io.{Out, ready, failed, pending, panicked, MemRead, ReadLaws, Delivers}
use hwire.Http1.Chunked.{ChunkedState, body, end, StepArgs, step, body_read}
use hwire.Http1.Chunked.Safety.{StepInv}
use hwire.Http1.Chunked.Moves.{byte-reads}

pub record SameLimits {R : Type 0} (s t : StepArgs R) : Type 0 where
  pub count_limit : t.max_headers_cnt ≡ s.max_headers_cnt
  pub bytes_limit : t.max_headers_bytes ≡ s.max_headers_bytes

abbrev pub IsEnd : ChunkedState → Type 0
IsEnd end = Unit
IsEnd _ = ⊥

positive : (n : ℕ) → 0 < n → 0 < to_usize n
positive n h = ground arith

module _ {R : Type 0} (m : MemRead R) (laws : ReadLaws m) where
  -- Behind a step from a state that is not the end.
  abbrev pub Advances : StepArgs R → Out (StepArgs R) ChunkedState → Type 0
  Advances s (ready t st) =
      (length (laws.rest t.reader) < length (laws.rest s.reader)) × SameLimits s t
  Advances s (failed t e) =
      (length (laws.rest t.reader) ≤ length (laws.rest s.reader)) × SameLimits s t
  Advances s (pending t) = (laws.rest t.reader ≡ laws.rest s.reader) × SameLimits s t
  Advances s panicked = ⊥

  length-read : {w : Bytes} (b : ℕ) (bs v : Bytes) → w ≡ (b ∷ bs) ++ v → length v < length w
  length-read b bs v e = omega (arith, ap length e, length-append bs v)

  body_read-Advances :
      (s : StepArgs R) (o : Out R Bytes) {len : ℕ}
      → 0 < len
      → Delivers laws.rest (laws.rest s.reader) len o
      → Advances s (body_read m s o)
  body_read-Advances s (ready r []) h d = ground (arith, ap length d.0)
  body_read-Advances s (ready r (b ∷ bs)) h d = ground (arith, length-read b bs (laws.rest r) d.0)
  body_read-Advances s (failed r e) h d = ground (arith, ap length d)
  body_read-Advances s (pending r) h d = (d, ground arith)
  body_read-Advances s panicked h d = d

  pub step-Advances :
      (st : ChunkedState) (s : StepArgs R)
      → (IsEnd st → ⊥)
      → StepInv st s
      → Advances s (step m st s)
  unfolding step
  step-Advances body s n i =
      body_read-Advances s _ (positive s.chunk_size i.has_size)
        (laws.delivers s.reader (to_usize s.chunk_size))
  step-Advances end s n i = absurd (n tt)
  step-Advances _ s n i = ground (arith, byte-reads m laws s)
