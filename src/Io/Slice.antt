-- ===== src/Io/Slice.antt =====
-- The reader over a slice of bytes, `impl MemRead for &[u8]` of proto/http1/decode.rs.
use hwire.Base.{
  ℕ, min, zero, suc, ◌≡◌, ◌⊎◌, inl, inr, refl, sym, [], ◌∷◌, ◌++◌, Bytes, length, take, drop, ltb,
  if◌then◌else◌, take-append-drop, length-take, arith,
}
use hwire.Io.{MemRead, Out, ready, ReadLaws, Delivers, IsSteady}

unfoldable pub read_slice : Bytes → ℕ → Out Bytes Bytes
read_slice s len =
    let n = min len (length s) in if ltb 0 n then ready (drop n s) (take n s) else ready s []

abbrev pub slice_reader : MemRead Bytes
slice_reader = record { read_mem = read_slice }

take_min-append-drop : (n : ℕ) (s : Bytes) → s ≡ take n s ++ drop n s
take_min-append-drop n s = sym (take-append-drop n s)

take-ne-nil : (n : ℕ) (s : Bytes) → take n s ≡ [] → (s ≡ []) ⊎ (n ≡ 0)
take-ne-nil zero s h = inr refl
take-ne-nil (suc n) [] h = inl refl
take-ne-nil (suc n) (x ∷ s) h = absurd (cc)

empty_of_min : (len : ℕ) (s : Bytes) → min len (length s) ≡ 0 → (s ≡ []) ⊎ (len ≡ 0)
empty_of_min len [] h = inl refl
empty_of_min len (x ∷ s) h = inr (omega arith)

pub read_slice-Delivers : (s : Bytes) (len : ℕ) → Delivers (λ t. t) s len (read_slice s len)
unfolding read_slice
read_slice-Delivers s len = ground (
  arith,
  take_min-append-drop (min len (length s)) s,
  length-take (min len (length s)) s,
  take-ne-nil (min len (length s)) s,
  empty_of_min len s,
)

-- A slice keeps the contract of a reader.
abbrev pub slice-ReadLaws : ReadLaws slice_reader
slice-ReadLaws = record { rest = λ s. s; delivers = read_slice-Delivers }

pub slice-IsSteady : IsSteady slice_reader
unfolding read_slice
slice-IsSteady s len = ground arith
