-- ===== src/Http1/Decode/Total.antt =====
-- The chunked decoder always returns, and never panics.
use hwire.Base.{
  ℕ, zero, suc, ◌≤◌, ◌<◌, ◌≡◌, Bool-cases, inl, inr, refl, sym, ap, subst, ◌⊎◌, Option, none, some,
  length, u64_mod, arith, leb, Bytes,
}
use hwire.HttpCrate.{HttpCrate}
use hwire.Io.{Out, ready, failed, pending, panicked, MemRead, ReadLaws}
use hwire.Http1.Chunked.{ChunkedState, end, StepArgs, step}
use hwire.Http1.Chunked.Safety.{StepInv, Keeps, HasBuffer, IsFresh, Fits, step-StepInv}
use hwire.Http1.Chunked.Progress.{SameLimits, IsEnd, Advances, step-Advances}
use hwire.Http1.Decode.{
  ChunkedDecoder, max_headers_of, step_args, store, new_chunked, TrailersResult, good, bad,
  result_of, ChunkedResult, finish, yield_or, after_step, decode_chunked,
}

abbrev pub Inv : {R : Type 0} → ChunkedDecoder → R → Type 0
Inv c r = StepInv c.state (step_args c r)

pub IsEnd-cases : (st : ChunkedState) → (st ≡ end) ⊎ (IsEnd st → ⊥)
IsEnd-cases end = inl refl
IsEnd-cases _ = inr (λ h. h)

pub store-Inv :
    {R : Type 0} (c : ChunkedDecoder) (r : R) (st : ChunkedState) (t : StepArgs R)
    → SameLimits (step_args c r) t
    → StepInv st t
    → Inv (store c t st) t.reader
store-Inv c r st t l i = record {
  has_buffer = i.has_buffer;
  has_size = i.has_size;
  is_fresh = i.is_fresh;
  size_fits = i.size_fits;
  extensions_fit = i.extensions_fit;
  count_fits = omega (arith, i.count_fits, l.count_limit);
  buffer_fits = subst (λ q. Fits q t.trailers_buf) l.bytes_limit i.buffer_fits;
  max_is_usize = omega (arith, i.max_is_usize, l.count_limit);
}

-- A decoder whose limit of headers is a `usize`.
pub new_chunked-Inv :
    {R : Type 0} (max_headers max_size : Option ℕ) (r : R)
    → max_headers_of (new_chunked max_headers max_size) < u64_mod
    → Inv (new_chunked max_headers max_size) r
new_chunked-Inv max_headers max_size r h = ground arith

pub taken-Inv :
    {R : Type 0} (c : ChunkedDecoder) (r : R)
    → Inv c r
    → c.state ≡ end
    → Inv (record c { trailers_buf = none }) r
taken-Inv c r i e = record {
  has_buffer = subst (λ q. HasBuffer q none) (sym e) tt;
  has_size = i.has_size;
  is_fresh = subst (λ q. IsFresh q none) (sym e) tt;
  size_fits = i.size_fits;
  extensions_fit = i.extensions_fit;
  count_fits = i.count_fits;
  buffer_fits = tt;
  max_is_usize = i.max_is_usize;
}

module _ (http : HttpCrate) {R : Type 0} (m : MemRead R) (laws : ReadLaws m) where
  -- The call returned, with a decoder that is well formed unless the call failed, and has not read
  -- backwards.
  abbrev pub Returns : ℕ → ChunkedResult http m → Type 0
  Returns n none = ⊥
  Returns n (some (ready (c, r) frame)) = Inv c r × (length (laws.rest r) ≤ n)
  Returns n (some (failed (c, r) e)) = Unit
  Returns n (some (pending (c, r))) = Inv c r × (length (laws.rest r) ≤ n)
  Returns n (some panicked) = ⊥

  trailers-Returns :
      (n : ℕ) (c : ChunkedDecoder) (r : R) (t : TrailersResult http)
      → Inv c r
      → length (laws.rest r) ≤ n
      → Returns n (some (result_of http m c r t))
  trailers-Returns n c r (good map) i h = (i, h)
  trailers-Returns n c r (bad e) i h = tt

  finish-Returns :
      (n : ℕ) (buf : Option Bytes) (c : ChunkedDecoder) (r : R)
      → Inv c r
      → c.state ≡ end
      → length (laws.rest r) ≤ n
      → Returns n (some (finish http m buf c r))
  unfolding finish
  finish-Returns n none c r i e h = (i, h)
  finish-Returns n (some buf) c r i e h =
      elim (Bool-cases (leb (max_headers_of c) c.trailers_cnt)) [
        | inl over ↦ rw over tt
        | inr fits ↦
            rw fits
              (trailers-Returns n (record c { trailers_buf = none }) r _ (taken-Inv c r i e) h)
      ]

  yield-Returns :
      (n : ℕ) (loop : ChunkedDecoder → R → ChunkedResult http m) (buf : Option Bytes)
      (c : ChunkedDecoder) (r : R)
      → Inv c r
      → length (laws.rest r) ≤ n
      → Returns n (loop c r)
      → Returns n (yield_or http m loop buf c r)
  unfolding yield_or
  yield-Returns n loop none c r i h l = l
  yield-Returns n loop (some buf) c r i h l = (i, h)

  weaken-Returns : (n k : ℕ) (o : ChunkedResult http m) → n ≤ k → Returns n o → Returns k o
  weaken-Returns n k none h p = p
  weaken-Returns n k (some (ready (c, r) frame)) h p = (p.0, omega (arith, p.1))
  weaken-Returns n k (some (failed (c, r) e)) h p = tt
  weaken-Returns n k (some (pending (c, r))) h p = (p.0, omega (arith, p.1))
  weaken-Returns n k (some panicked) h p = p

  abbrev Loop : ℕ → (ChunkedDecoder → R → ChunkedResult http m) → Type 0
  Loop fuel loop =
      (c : ChunkedDecoder) (r : R)
      → Inv c r
      → length (laws.rest r) < fuel
      → Returns (length (laws.rest r)) (loop c r)

  ready-Returns :
      (fuel : ℕ) (loop : ChunkedDecoder → R → ChunkedResult http m) (c : ChunkedDecoder) (r : R)
      (t : StepArgs R) (st : ChunkedState)
      → Loop fuel loop
      → length (laws.rest r) ≤ fuel
      → StepInv st t
      → Advances m laws (step_args c r) (ready t st)
      → Returns (length (laws.rest r)) (after_step http m loop c (ready t st))
  unfolding after_step
  ready-Returns fuel loop c r t end l h i a =
      finish-Returns _ t.trailers_buf (store c t end) t.reader (store-Inv c r end t a.1 i) refl
        (omega arith)
  ready-Returns fuel loop c r t _ l h i a =
      let i' = store-Inv c r _ t a.1 i in
      yield-Returns _ loop t.chunk_buf (store c t _) t.reader i' (omega arith) (
        weaken-Returns _ _ (loop (store c t _) t.reader) (omega arith)
          (l _ t.reader i' (omega arith)))

  after_step-Returns :
      (fuel : ℕ) (loop : ChunkedDecoder → R → ChunkedResult http m) (c : ChunkedDecoder) (r : R)
      (o : Out (StepArgs R) ChunkedState)
      → Loop fuel loop
      → length (laws.rest r) ≤ fuel
      → Keeps c.state o
      → Advances m laws (step_args c r) o
      → Returns (length (laws.rest r)) (after_step http m loop c o)
  unfolding after_step
  after_step-Returns fuel loop c r (ready t st) l h k a = ready-Returns fuel loop c r t st l h k a
  after_step-Returns fuel loop c r (failed t e) l h k a = tt
  after_step-Returns fuel loop c r (pending t) l h k a =
      (store-Inv c r c.state t a.1 k, omega (arith, ap length a.0))
  after_step-Returns fuel loop c r panicked l h k a = k

  round-Returns :
      (fuel : ℕ) (loop : ChunkedDecoder → R → ChunkedResult http m) (c : ChunkedDecoder) (r : R)
      → Loop fuel loop
      → length (laws.rest r) ≤ fuel
      → Inv c r
      → Returns (length (laws.rest r)) (after_step http m loop c (step m c.state (step_args c r)))
  round-Returns fuel loop c r l h i = elim (IsEnd-cases c.state) [
    | inl e ↦ rw e (
        unfold after_step step in
        finish-Returns _ c.trailers_buf (store c (step_args c r) end) r (rw e at i) refl
          (omega arith))
    | inr ne ↦
        after_step-Returns fuel loop c r _ l h (step-StepInv m laws c.state _ i)
          (step-Advances m laws c.state _ ne i)
  ]

  -- With more fuel than bytes that are left, a well-formed decoder returns: the loop ends, no
  -- `expect` fails, and unless an error is returned the decoder is well formed again.
  pub decode_chunked-Returns :
      (fuel : ℕ) (c : ChunkedDecoder) (r : R)
      → Inv c r
      → length (laws.rest r) < fuel
      → Returns (length (laws.rest r)) (decode_chunked http m fuel c r)
  unfolding decode_chunked
  decode_chunked-Returns zero c r i h = elim h [ ]
  decode_chunked-Returns (suc fuel) c r i h =
      round-Returns fuel (decode_chunked http m fuel) c r (decode_chunked-Returns fuel)
        (omega arith) i
