-- ===== src/Http1/Buffered/Bounds.antt =====
-- The sizes of reads that `ReadStrategy` asks for.
use hwire.Base.{
  ℕ, refl, sym, ap, subst, ◌∙◌, zero, suc, ◌+◌, ◌-◌, ◌*◌, ◌/◌, ◌≤◌, ◌<◌, ◌≡◌, Bool, true, false,
  ltb, leb, usize_max, if◌then◌else◌, Bool-cases, inl, inr, arith, ◌==◌,
}
use hwire.Http1.Buffered.{
  ReadStrategy, adaptive, exact, init_buffer_size, record_read, incr_power_of_two,
  prev_power_of_two, shr, bits,
}

-- 2 ^ k
abbrev two_to : ℕ → ℕ
two_to zero = 1
two_to (suc k) = 2 * two_to k

bits-le : (fuel n : ℕ) → bits fuel n ≤ fuel
bits-le zero n = omega arith
bits-le (suc fuel) n = elim (Bool-cases (n == 0)) [
  | inl e ↦ rw e (omega arith)
  | inr e ↦ rw e (let h = bits-le fuel (n / 2) in omega arith)
]

-- A shift drops that many bits.
shr-bound : (k m n : ℕ) → n < two_to (k + m) → shr n k < two_to m
shr-bound zero m n h = let e : 0 + m ≡ m = omega arith in subst (λ i. n < two_to i) e h
shr-bound (suc k) m n h =
    let e : suc k + m ≡ suc (k + m) = omega arith in
    let h' : n < two_to (suc (k + m)) = subst (λ i. n < two_to i) e h in
    shr-bound k m (n / 2) (omega arith)

bits_zero : (fuel : ℕ) → bits fuel 0 ≡ 0
bits_zero zero = refl
bits_zero (suc fuel) = refl

bits-two_to : (fuel n : ℕ) → 0 < n → n < two_to fuel → two_to (bits fuel n) ≤ 2 * n
bits-two_to zero n p h = omega arith
bits-two_to (suc fuel) n p h = elim (Bool-cases (n == 0)) [
  | inl e ↦ absurd (ground arith)
  | inr e ↦ rw e (elim (Bool-cases (ltb n 2)) [
    | inl one ↦
        let z : n / 2 ≡ 0 = ground arith in
        let q : bits fuel (n / 2) ≡ 0 = ap (bits fuel) z ∙ bits_zero fuel in rw q (omega arith)
    | inr more ↦
        let t : 2 ≤ n = ground arith in
        let i = bits-two_to fuel (n / 2) (omega arith) (omega arith) in omega arith
  ])
]

shifted-le : (b n : ℕ) → b ≤ 64 → two_to b ≤ 2 * n → 4 ≤ n → shr usize_max (64 - b + 2) + 1 ≤ n
shifted-le zero n l h p = omega arith
shifted-le (suc zero) n l h p = omega arith
shifted-le (suc (suc c)) n l h p =
    let e : 64 - suc (suc c) + 2 + c ≡ 64 = omega arith in
    let all : usize_max < two_to 64 = omega arith in
    let s =
      shr-bound (64 - suc (suc c) + 2) c usize_max
        (subst (λ i. usize_max < two_to i) (sym e) all) in
    omega arith

prev_power_of_two-le : (n : ℕ) → 4 ≤ n → n ≤ usize_max → prev_power_of_two n ≤ n
unfolding prev_power_of_two
prev_power_of_two-le n p h =
    let all : n < two_to 64 = omega arith in
    shifted-le (bits 64 n) n (bits-le 64 n) (bits-two_to 64 n (omega arith) all) p

-- The next size is between the first one and the limit, which is a `usize`.
abbrev pub WellSized : ReadStrategy → Type 0
WellSized (adaptive d n m) = (init_buffer_size ≤ n) × (n ≤ m) × (m ≤ usize_max)
WellSized (exact e) = Unit

if-WellSized :
    (b : Bool) (s r : ReadStrategy) → WellSized s → WellSized r → WellSized (if b then s else r)
if-WellSized true s r h k = h
if-WellSized false s r h k = k

incr_power_of_two-ge : (n : ℕ) → n ≤ usize_max → n ≤ incr_power_of_two n
unfolding incr_power_of_two
incr_power_of_two-ge n h = omega arith

-- Whatever was read, the next size stays between the first one and the limit.
pub record_read-WellSized :
    (s : ReadStrategy) (bytes_read : ℕ) → WellSized s → WellSized (record_read s bytes_read)
unfolding record_read
record_read-WellSized (exact e) k h = tt
record_read-WellSized (adaptive d n m) k (l, u, w) =
    let p = prev_power_of_two-le n (omega arith) (omega arith) in
    let q = incr_power_of_two-ge n (omega arith) in
    if-WellSized (leb n k) _ _ (omega arith, omega arith, w)
      (if-WellSized (ltb k (prev_power_of_two n)) _ _
        (if-WellSized d _ _ (omega arith, omega arith, w) (l, u, w)) (l, u, w))
