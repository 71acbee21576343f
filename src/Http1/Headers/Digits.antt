-- ===== src/Http1/Headers/Digits.antt =====
-- What `from_digits` accepts.
use hwire.Base.{
  ℕ, ◌+◌, ◌-◌, ◌*◌, ◌≤◌, ◌<◌, ◌≡◌, ◌≢◌, ◌⊎◌, inl, inr, refl, sym, ap, ◌∙◌, Bool, true, false, ◌&&◌,
  Bool-cases, Option, none, some, [], ◌∷◌, leb, Bytes, u64_max, checked_mul, arith,
}
use hwire.Http1.Headers.{step_digit, digits_from, from_digits}

abbrev pub AllDigits : Bytes → Type 0
AllDigits [] = Unit
AllDigits (b ∷ bs) = ((b'0' ≤ b) × (b ≤ b'9')) × AllDigits bs

-- The number that digits stand for, behind those that were read before.
abbrev pub decimal_from : ℕ → Bytes → ℕ
decimal_from r [] = r
decimal_from r (b ∷ bs) = decimal_from (r * 10 + (b - b'0')) bs

-- A text of DIGITs, at least one, that stands for a `u64`
pub record IsNumber (bs : Bytes) (n : ℕ) : Type 0 where
  pub some_digit : bs ≢ []
  pub digits : AllDigits bs
  pub value : decimal_from 0 bs ≡ n
  pub fits : n ≤ u64_max

decimal_from_mono : (r : ℕ) (bs : Bytes) → r ≤ decimal_from r bs
decimal_from_mono r [] = omega arith
decimal_from_mono r (b ∷ bs) = omega (arith, decimal_from_mono (r * 10 + (b - b'0')) bs)

is_digit : ℕ → Bool
is_digit b = leb b'0' b && leb b b'9'

abbrev next_digit : ℕ → ℕ → Option ℕ
next_digit r b = step_digit b (checked_mul r 10)

-- One digit more, or an overflow
step_digit-cases :
    (r b : ℕ)
    → ((next_digit r b ≡ some (r * 10 + (b - b'0'))) × (r * 10 + (b - b'0') ≤ u64_max))
      ⊎ ((next_digit r b ≡ none) × (u64_max < r * 10 + (b - b'0')))
unfolding step_digit
step_digit-cases r b = ground arith

digit_test : (b : ℕ) → is_digit b ≡ true → (b'0' ≤ b) × (b ≤ b'9')
unfolding is_digit
digit_test b h = ground arith

not_digit_test : (b : ℕ) → is_digit b ≡ false → (b'0' ≤ b) × (b ≤ b'9') → ⊥
unfolding is_digit
not_digit_test b h d = ground arith

-- The loop goes on with a digit that fits, and else returns nothing.
digits_from-cases :
    (r b : ℕ) (bs : Bytes)
    → (((b'0' ≤ b) × (b ≤ b'9'))
        × (r * 10 + (b - b'0') ≤ u64_max)
        × (digits_from r (b ∷ bs) ≡ digits_from (r * 10 + (b - b'0')) bs))
      ⊎ ((digits_from r (b ∷ bs) ≡ none)
          × (((b'0' ≤ b) × (b ≤ b'9')) → u64_max < r * 10 + (b - b'0')))
unfolding digits_from is_digit
digits_from-cases r b bs = elim (Bool-cases (is_digit b)) [
  | inr e ↦ inr (rw e refl, λ d. absurd (not_digit_test b e d))
  | inl e ↦ elim (step_digit-cases r b) [
    | inl (q, k) ↦ inl (digit_test b e, k, rw (e, q) refl)
    | inr (q, k) ↦ inr (rw (e, q) refl, λ d. k)
  ]
]

digits_from_sound :
    (r : ℕ) (bs : Bytes) (n : ℕ)
    → r ≤ u64_max
    → digits_from r bs ≡ some n
    → AllDigits bs × (decimal_from r bs ≡ n) × (n ≤ u64_max)
digits_from_sound r [] n h e =
    let q : digits_from r [] ≡ some r = unfold digits_from in refl in
    let z : r ≡ n = cc in (tt, z, omega arith)
digits_from_sound r (b ∷ bs) n h e = elim (digits_from-cases r b bs) [
  | inl (d, k, q) ↦
      let (ds, v, f) = digits_from_sound (r * 10 + (b - b'0')) bs n k (sym q ∙ e) in ((d, ds), v, f)
  | inr (q, k) ↦ absurd (cc)
]

digits_from_complete :
    (r : ℕ) (bs : Bytes)
    → AllDigits bs
    → decimal_from r bs ≤ u64_max
    → digits_from r bs ≡ some (decimal_from r bs)
digits_from_complete r [] d h = unfold digits_from in refl
digits_from_complete r (b ∷ bs) (d, ds) h = elim (digits_from-cases r b bs) [
  | inl (_, k, q) ↦ q ∙ digits_from_complete (r * 10 + (b - b'0')) bs ds h
  | inr (q, k) ↦ absurd (let m = decimal_from_mono (r * 10 + (b - b'0')) bs in omega (arith, k d))
]

-- `from_digits` returns a number exactly for the texts of digits that stand for it and fit a `u64`.
pub from_digits-IsNumber :
    (bs : Bytes) (n : ℕ)
    → (from_digits bs ≡ some n → IsNumber bs n) × (IsNumber bs n → from_digits bs ≡ some n)
unfolding from_digits
from_digits-IsNumber [] n = (λ e. absurd (cc), λ i. absurd (i.some_digit refl))
from_digits-IsNumber (b ∷ bs) n = (
  λ e.
      let (d, v, f) = digits_from_sound 0 (b ∷ bs) n (omega arith) e in
      record { some_digit = λ z. absurd (cc); digits = d; value = v; fits = f },
  λ i. digits_from_complete 0 (b ∷ bs) i.digits (omega (arith, i.value, i.fits)) ∙ ap some i.value,
)
