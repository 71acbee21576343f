-- ===== src/Http1/Decode/Sized.antt =====
-- Bodies with a length.
use hwire.Base.{
  ℕ, ◌+◌, ◌-◌, ◌≤◌, ◌<◌, ◌≡◌, ◌⊎◌, inl, inr, refl, sym, false, ap, ◌∙◌, Bool-cases, [], ◌∷◌, ◌++◌,
  Bytes, ltb, ◌==◌, to_usize, u64_mod, sub_u64, sub_u64-eq, arith,
}
use hwire.Base
use hwire.HttpCrate.{HttpCrate}
use hwire.Io.{Out, ready, failed, pending, panicked, MemRead, ReadLaws, Delivers, IoError}
use hwire.Http1.Decode.{Kind, length, Frame, data_frame, decode_length, sized_read, after_read}

module _ (http : HttpCrate) {R : Type 0} (m : MemRead R) (laws : ReadLaws m) where
  open http use {HeaderMap}
  open laws use {rest}

  pub data SizedCall (n : ℕ) (r : R) : Out (Kind × R) (Frame HeaderMap) → Type 0 where
    frame :
        (k : ℕ) (r' : R) (bs : Bytes)
        → rest r ≡ bs ++ rest r'
        → n ≡ Base.length bs + k
        → (bs ≡ [] → n ≡ 0)
        → SizedCall n r (ready (length k, r') (data_frame bs))
    fails : (r' : R) (e : IoError) → rest r' ≡ rest r → SizedCall n r (failed (length n, r') e)
    waits : (r' : R) → rest r' ≡ rest r → SizedCall n r (pending (length n, r'))

  sized_read-SizedCall :
      (n : ℕ) (r r' : R) (buf : Bytes)
      → n < u64_mod
      → rest r ≡ buf ++ rest r'
      → Base.length buf ≤ n
      → SizedCall n r (sized_read http m n r' buf)
  sized_read-SizedCall n r r' [] w e l = elim (Bool-cases (ltb n 0)) [
    | inl q ↦ absurd (ground arith)
    | inr q ↦ rw q (fails r' _ (sym e))
  ]
  sized_read-SizedCall n r r' (b ∷ bs) w e l = elim (Bool-cases (ltb n (Base.length (b ∷ bs)))) [
    | inl q ↦ absurd (ground arith)
    | inr q ↦
        let s = sub_u64-eq n (Base.length (b ∷ bs)) w l in
        let nz : (Base.length (b ∷ bs) == 0) ≡ false = ground arith in
        rw (q, s, nz)
          (frame (n - Base.length (b ∷ bs)) r' (b ∷ bs) e (omega arith) (λ z. absurd (cc)))
  ]

  read-SizedCall :
      (n : ℕ) (r : R) (o : Out R Bytes)
      → n < u64_mod
      → Delivers rest (rest r) (to_usize n) o
      → SizedCall n r (after_read http m n o)
  read-SizedCall n r (ready r' buf) w (e, l, z) =
      sized_read-SizedCall n r r' buf w e (ground (arith, l))
  read-SizedCall n r (failed r' x) w d = fails r' x d
  read-SizedCall n r (pending r') w d = waits r' d
  read-SizedCall n r panicked w d = absurd d

  -- A call with `n` bytes to go returns a frame whose bytes it took off the front of what is to come
  -- and off the count, and which is empty only where nothing is to go; where it fails or waits, the
  -- count stays and nothing is lost.
  pub decode_length-SizedCall :
      (n : ℕ) (r : R) → n < u64_mod → SizedCall n r (decode_length http m n r)
  unfolding decode_length
  decode_length-SizedCall n r w = elim (Bool-cases (n == 0)) [
    | inl q ↦ rw q (let z : n ≡ 0 = ground arith in frame n r [] refl (omega arith) (λ y. z))
    | inr q ↦ rw q (read-SizedCall n r _ w (laws.delivers r (to_usize n)))
  ]
