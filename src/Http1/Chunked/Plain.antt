-- ===== src/Http1/Chunked/Plain.antt =====
-- The steps of the chunked decoder over a slice, where the coding is as the encoder writes it.
use hwire.Base.{
  ltb, drop-front, take-front, ℕ, min, suc, ◌+◌, ◌*◌, ◌<◌, ◌≡◌, ◌≢◌, refl, true, none, some, [],
  ◌∷◌, ◌++◌, Bytes, length, length-append, u64_mod, to_usize, sub_u64, arith,
}
use hwire.Io.{ready}
use hwire.Io.Slice.{slice_reader, read_slice}
use hwire.Http1.Chunked.Grammar.{is_hex, hex_val}
use hwire.Http1.Chunked.{
  StepArgs, start, size, size_lf, body, body_cr, body_lf, end_cr, end_lf, end, byte, step,
}

abbrev Args : Type 0
Args = StepArgs Bytes

byte_of :
    (s : Args) (b : ℕ) (x : Bytes)
    → byte slice_reader (record s { reader = b ∷ x }) ≡ ready (record s { reader = x }) b
unfolding byte read_slice
byte_of s b x = ground arith

pub start-digit :
    (s : Args) (b : ℕ) (x : Bytes)
    → is_hex b ≡ true
    → s.chunk_size ≡ 0
    → step slice_reader start (record s { reader = b ∷ x })
      ≡ ready (record s { reader = x; chunk_size = s.chunk_size * 16 + hex_val b }) size
unfolding step
start-digit s b x h0 h1 = ground (arith, byte_of s b x, h0, h1)

pub size-digit :
    (s : Args) (b : ℕ) (x : Bytes)
    → is_hex b ≡ true
    → s.chunk_size * 16 + hex_val b < u64_mod
    → step slice_reader size (record s { reader = b ∷ x })
      ≡ ready (record s { reader = x; chunk_size = s.chunk_size * 16 + hex_val b }) size
unfolding step
size-digit s b x h0 h1 = ground (arith, byte_of s b x, h0, h1)

pub size-cr :
    (s : Args) (x : Bytes)
    → step slice_reader size (record s { reader = b'\r' ∷ x })
      ≡ ready (record s { reader = x }) size_lf
unfolding step
size-cr s x = ground (arith, byte_of s b'\r' x)

pub size_lf-more :
    (s : Args) (x : Bytes)
    → 0 < s.chunk_size
    → step slice_reader size_lf (record s { reader = b'\n' ∷ x })
      ≡ ready (record s { reader = x }) body
unfolding step
size_lf-more s x h0 = ground (arith, byte_of s b'\n' x, h0)

pub size_lf-last :
    (s : Args) (x : Bytes)
    → s.chunk_size ≡ 0
    → step slice_reader size_lf (record s { reader = b'\n' ∷ x })
      ≡ ready (record s { reader = x }) end_cr
unfolding step
size_lf-last s x h0 = ground (arith, byte_of s b'\n' x, h0)

pub body_cr-cr :
    (s : Args) (x : Bytes)
    → step slice_reader body_cr (record s { reader = b'\r' ∷ x })
      ≡ ready (record s { reader = x }) body_lf
unfolding step
body_cr-cr s x = ground (arith, byte_of s b'\r' x)

pub body_lf-lf :
    (s : Args) (x : Bytes)
    → step slice_reader body_lf (record s { reader = b'\n' ∷ x })
      ≡ ready (record s { reader = x }) start
unfolding step
body_lf-lf s x = ground (arith, byte_of s b'\n' x)

pub end_cr-cr :
    (s : Args) (x : Bytes)
    → s.trailers_buf ≡ none
    → step slice_reader end_cr (record s { reader = b'\r' ∷ x })
      ≡ ready (record s { reader = x }) end_lf
unfolding step
end_cr-cr s x h0 = ground (arith, byte_of s b'\r' x, h0)

pub end_lf-lf :
    (s : Args) (x : Bytes)
    → s.trailers_buf ≡ none
    → step slice_reader end_lf (record s { reader = b'\n' ∷ x })
      ≡ ready (record s { reader = x }) end
unfolding step
end_lf-lf s x h0 = ground (arith, byte_of s b'\n' x, h0)

read_front : (p x : Bytes) → p ≢ [] → read_slice (p ++ x) (length p) ≡ ready x p
unfolding read_slice
read_front [] x h = absurd (h refl)
read_front (b ∷ p) x h =
    let n : min (suc (length p)) (length (b ∷ (p ++ x))) ≡ suc (length p) =
      omega (arith, length-append p x) in
    let t : ltb 0 (suc (length p)) ≡ true = ground arith in
    rw (n, t, take-front (length p) p x refl, drop-front (length p) p x refl) refl

pub body-piece :
    (s : Args) (p x : Bytes)
    → p ≢ []
    → s.chunk_size ≡ length p
    → length p < u64_mod
    → step slice_reader body (record s { reader = p ++ x })
      ≡ ready (record s { reader = x; chunk_buf = some p; chunk_size = 0 }) body_cr
unfolding step
body-piece s [] x h k l = absurd (h refl)
body-piece s (b ∷ p) x h k l =
    let u : to_usize s.chunk_size ≡ length (b ∷ p) = ground (arith, k, l) in
    let z : sub_u64 s.chunk_size (length (b ∷ p)) ≡ 0 = omega (arith, k, l) in
    ground (arith, read_front (b ∷ p) x h, u, z)
