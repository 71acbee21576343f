-- ===== src/Http1/Headers/Numbers.antt =====
-- A number's text is one part of a header's value.
use hwire.Base.{ℕ, ◌≤◌, ◌≡◌, refl, sym, ap, ◌∙◌, subst, false, [], ◌∷◌, ◌==◌, Bytes, arith}
use hwire.Http1.Headers.{split_commas, trim, trim_start, trim_end, is_space}
use hwire.Http1.Headers.ContentLength.{AllParts}
use hwire.Http1.Headers.Digits.{AllDigits, IsNumber}

digits_apart : (s : Bytes) (c : ℕ) → AllDigits (c ∷ s) → split_commas (c ∷ s) ≡ (c ∷ s) ∷ []
digits_apart [] c (d, ds) = let q : (c == b',') ≡ false = ground (arith, d) in rw q refl
digits_apart (b ∷ bs) c (d, ds) =
    let q : (c == b',') ≡ false = ground (arith, d) in
    let e = digits_apart bs b ds in rw (q, e) refl

not_space : (c : ℕ) → (b'0' ≤ c) × (c ≤ b'9') → is_space c ≡ false
not_space c d = ground (arith, d)

trim_end-digits : (s : Bytes) → AllDigits s → trim_end s ≡ s
trim_end-digits [] d = refl
trim_end-digits (c ∷ cs) (d, ds) = rw (trim_end-digits cs ds, not_space c d) refl

trim_start-digits : (s : Bytes) → AllDigits s → trim_start s ≡ s
trim_start-digits [] d = refl
trim_start-digits (c ∷ cs) (d, ds) = rw (not_space c d) refl

trim-digits : (s : Bytes) → AllDigits s → trim s ≡ s
trim-digits s d = ap trim_end (trim_start-digits s d) ∙ trim_end-digits s d

pub number-AllParts : (s : Bytes) (n : ℕ) → IsNumber s n → AllParts n (split_commas s)
number-AllParts [] n i = absurd (i.some_digit refl)
number-AllParts (c ∷ cs) n i =
    rw (digits_apart cs c i.digits)
      (subst (λ x. IsNumber x n) (sym (trim-digits (c ∷ cs) i.digits)) i, tt)
