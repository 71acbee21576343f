-- ===== src/Http1/Encode/Size.antt =====
-- The size line that the encoder writes in front of a chunk.
use hwire.Base.{
  ℕ, zero, suc, ◌+◌, ◌*◌, ◌/◌, ◌%◌, ◌≤◌, ◌<◌, ◌≡◌, ◌≢◌, refl, true, false, Bool-cases, inl, inr,
  some, [], ◌∷◌, ◌++◌, Bytes, length, length-append, ltb, ltb→lt, codes, u64_mod, arith,
}
use hwire.Http1.Chunked.Grammar.{is_hex, hex_val, number_from, AllHex, IsSize}
use hwire.Http1.Encode.{upper_digit, upper_hex, ChunkSize, write_str, new_chunk_size}

abbrev pow16 : ℕ → ℕ
pow16 zero = 1
pow16 (suc f) = 16 * pow16 f

upper_digit-is_hex : (d : ℕ) → d < 16 → is_hex (upper_digit d) ≡ true
upper_digit-is_hex d h = ground arith

upper_digit-hex_val : (d : ℕ) → d < 16 → hex_val (upper_digit d) ≡ d
upper_digit-hex_val d h = ground arith

number_from-concat :
    (acc : ℕ) (xs : Bytes) (b : ℕ)
    → number_from acc (xs ++ (b ∷ [])) ≡ number_from acc xs * 16 + hex_val b
number_from-concat acc [] b = refl
number_from-concat acc (x ∷ xs) b = number_from-concat (acc * 16 + hex_val x) xs b

AllHex-concat : (xs : Bytes) (b : ℕ) → AllHex xs → is_hex b ≡ true → AllHex (xs ++ (b ∷ []))
AllHex-concat [] b h p = (p, tt)
AllHex-concat (x ∷ xs) b h p = (h.0, AllHex-concat xs b h.1 p)

concat-ne-nil : (xs : Bytes) (b : ℕ) → xs ++ (b ∷ []) ≢ []
concat-ne-nil [] b e = cc
concat-ne-nil (x ∷ xs) b e = cc

record IsHexOf (f n : ℕ) (digits : Bytes) : Type 0 where
  is_size : IsSize digits n
  short : length digits ≤ f

concat-IsHexOf :
    (f n : ℕ) (digits : Bytes)
    → IsHexOf f (n / 16) digits
    → IsHexOf (suc f) n (digits ++ (upper_digit (n % 16) ∷ []))
concat-IsHexOf f n digits h =
    let d : n % 16 < 16 = omega arith in
    record {
      is_size = record {
        some_digit = concat-ne-nil digits (upper_digit (n % 16));
        all_hex = AllHex-concat digits _ h.is_size.all_hex (upper_digit-is_hex (n % 16) d);
        value = omega (
          arith,
          number_from-concat 0 digits (upper_digit (n % 16)),
          upper_digit-hex_val (n % 16) d,
          h.is_size.value,
        );
      };
      short = omega (arith, length-append digits (upper_digit (n % 16) ∷ []), h.short);
    }

large-positive : (f n : ℕ) → 16 ≤ n → n < 16 * pow16 f → 0 < f
large-positive zero n a b = absurd (omega arith)
large-positive (suc f) n a b = omega arith

pub ge_of_ltb : (n k : ℕ) → ltb n k ≡ false → k ≤ n
ge_of_ltb n k h = ground arith

upper_hex-IsHexOf : (f n : ℕ) → 0 < f → n < pow16 f → IsHexOf f n (upper_hex f n)
unfolding upper_hex
upper_hex-IsHexOf zero n p h = elim p [ ]
upper_hex-IsHexOf (suc f) n p h = elim (Bool-cases (ltb n 16)) [
  | inl small ↦ rw small (record {
    is_size = record {
      some_digit = λ e. cc;
      all_hex = (upper_digit-is_hex n (ltb→lt n 16 small), tt);
      value = omega (arith, upper_digit-hex_val n (ltb→lt n 16 small));
    };
    short = omega arith;
  })
  | inr large ↦ rw large (
      concat-IsHexOf f n (upper_hex f (n / 16))
        (upper_hex-IsHexOf f (n / 16) (large-positive f n (ge_of_ltb n 16 large) h) (omega arith)))
]

write_str-some :
    (c : ChunkSize) (num : Bytes)
    → length (c.bytes ++ num) ≤ 18
    → write_str c num ≡ some (record c { bytes = c.bytes ++ num })
unfolding write_str
write_str-some c num h = ground arith

-- For every `usize` the size line fits into the array, so the `expect` of `ChunkSize::new` holds;
-- its digits are those of the number, and CR LF follows them.
pub new_chunk_size-IsSize :
    (len : ℕ)
    → len < u64_mod
    → (digits : Bytes) × IsSize digits len
      × (new_chunk_size len ≡ some (record { bytes = digits ++ codes "\r\n"; pos = 0 }))
unfolding new_chunk_size
new_chunk_size-IsSize len h =
    let x = upper_hex-IsHexOf 16 len (omega arith) h in
    let d = upper_hex 16 len in
    (
      d,
      x.is_size,
      rw (write_str-some (record { bytes = []; pos = 0 }) d (omega (arith, x.short))) (
          write_str-some (record { bytes = d; pos = 0 }) (codes "\r\n")
            (omega (arith, x.short, length-append d (codes "\r\n")))),
    )
