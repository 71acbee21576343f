-- ===== src/Tests/Maps.antt =====
-- The header maps of the test crate keep to what `http` documents.
use hwire.Base.{
  inr, inl, ◌-◌, append-nil, ℕ, zero, suc, ◌+◌, ◌*◌, ◌/◌, ◌%◌, ◌≤◌, ◌<◌, ◌≡◌, ◌≢◌, refl, ap, ◌∙◌,
  true, false, Bool-cases, none, some, List, [], ◌∷◌, ◌++◌, ◌==◌, ltb, Bytes, u64_max, arith,
}
use hwire.Tests.Crate.{crate, equal, values, others, replace_last, under, front, digits, decimal}
use hwire.Http1.Headers.{last_value}
use hwire.Http1.Headers.Digits.{AllDigits, decimal_from, IsNumber}
use hwire.Http1.Headers.MapLaws.{MapLaws}

abbrev Map : Type 0
Map = List (Bytes × Bytes)

equal_refl : (s : Bytes) → equal s s ≡ true
equal_refl [] = refl
equal_refl (b ∷ bs) = let q : (b == b) ≡ true = ground arith in rw (q, equal_refl bs) refl

equal-eq : (s t : Bytes) → equal s t ≡ true → s ≡ t
equal-eq [] [] e = refl
equal-eq [] (y ∷ ys) e = absurd (cc)
equal-eq (x ∷ xs) [] e = absurd (cc)
equal-eq (x ∷ xs) (y ∷ ys) e =
    let q : x ≡ y = ground (arith, e) in
    let h : equal xs ys ≡ true = ground (arith, e) in rw (q, equal-eq xs ys h) refl

values-others : (m : Map) (k : Bytes) → values (others m k) k ≡ []
values-others [] k = refl
values-others ((j, w) ∷ m) k = elim (Bool-cases (equal j k)) [
  | inl q ↦ rw q (values-others m k)
  | inr q ↦ rw (q, q) (values-others m k)
]

values-others_other :
    (m : Map) (k j : Bytes) → equal k j ≡ false → values (others m k) j ≡ values m j
values-others_other [] k j e = refl
values-others_other ((i, w) ∷ m) k j e = elim (Bool-cases (equal i k)) [
  | inl q ↦
      let z : equal i j ≡ false = ap (λ x. equal x j) (equal-eq i k q) ∙ e in
      rw (q, z) (values-others_other m k j e)
  | inr q ↦ elim (Bool-cases (equal i j)) [
    | inl p ↦ rw (q, p, values-others_other m k j e) refl
    | inr p ↦ rw (q, p) (values-others_other m k j e)
  ]
]

values-append : (m l : Map) (k : Bytes) → values (m ++ l) k ≡ values m k ++ values l k
values-append [] l k = refl
values-append ((i, w) ∷ m) l k = elim (Bool-cases (equal i k)) [
  | inl q ↦ rw (q, values-append m l k) refl
  | inr q ↦ rw (q, values-append m l k) refl
]

values-under : (k : Bytes) (vs : List Bytes) → values (under k vs) k ≡ vs
values-under k [] = refl
values-under k (v ∷ vs) = rw (equal_refl k, values-under k vs) refl

values-under_other :
    (k j : Bytes) (vs : List Bytes) → equal k j ≡ false → values (under k vs) j ≡ []
values-under_other k j [] e = refl
values-under_other k j (v ∷ vs) e = rw (e, values-under_other k j vs e) refl

-- A name gets new values.
values_set : (m : Map) (k : Bytes) (vs : List Bytes) → values (others m k ++ under k vs) k ≡ vs
values_set m k vs =
    values-append (others m k) (under k vs) k
    ∙ ap (λ x. x ++ values (under k vs) k) (values-others m k)
    ∙ values-under k vs

values_set_other :
    (m : Map) (k j : Bytes) (vs : List Bytes)
    → equal k j ≡ false
    → values (others m k ++ under k vs) j ≡ values m j
values_set_other m k j vs e =
    values-append (others m k) (under k vs) j
    ∙ ap (λ x. x ++ values (under k vs) j) (values-others_other m k j e)
    ∙ ap (λ x. values m j ++ x) (values-under_other k j vs e)
    ∙ append-nil (values m j)

last-replace_last :
    (vs : List Bytes) (v : Bytes) → vs ≢ [] → last_value crate (replace_last vs v) ≡ some v
last-replace_last [] v h = absurd (h refl)
last-replace_last (w ∷ []) v h = refl
last-replace_last (w ∷ (x ∷ [])) v h = refl
last-replace_last (w ∷ (x ∷ (y ∷ ws))) v h = last-replace_last (x ∷ (y ∷ ws)) v (λ e. cc)

AllDigits-append : (xs : Bytes) (d : ℕ) → AllDigits xs → d < 10 → AllDigits (xs ++ (b'0' + d) ∷ [])
AllDigits-append [] d a h = ((omega arith, omega (arith, h)), tt)
AllDigits-append (x ∷ xs) d (a, more) h = (a, AllDigits-append xs d more h)

decimal_from-append :
    (r : ℕ) (xs : Bytes) (d : ℕ)
    → decimal_from r (xs ++ (b'0' + d) ∷ []) ≡ decimal_from r xs * 10 + d
decimal_from-append r [] d = omega arith
decimal_from-append r (x ∷ xs) d = decimal_from-append (r * 10 + (x - b'0')) xs d

abbrev pow10 : ℕ → ℕ
pow10 zero = 1
pow10 (suc n) = 10 * pow10 n

record Stands (s : Bytes) (n : ℕ) : Type 0 where
  digits : AllDigits s
  value : decimal_from 0 s ≡ n

digits-Stands : (fuel n : ℕ) → n < pow10 fuel → Stands (digits fuel n) n
digits-Stands zero n h = record { digits = tt; value = omega (arith, h) }
digits-Stands (suc fuel) n h = elim (Bool-cases (ltb n 10)) [
  | inl q ↦
      let k : n < 10 = ground (arith, q) in
      rw q (record { digits = AllDigits-append [] n tt k; value = omega arith })
  | inr q ↦
      let s = digits-Stands fuel (n / 10) (omega (arith, h)) in
      rw q (record {
        digits = AllDigits-append (digits fuel (n / 10)) (n % 10) s.digits (omega arith);
        value = decimal_from-append 0 (digits fuel (n / 10)) (n % 10) ∙ (omega (arith, s.value));
      })
]

append_one-ne : (xs : Bytes) (d : ℕ) → xs ++ d ∷ [] ≢ []
append_one-ne [] d e = cc
append_one-ne (x ∷ xs) d e = cc

digits-ne : (fuel n : ℕ) → digits (suc fuel) n ≢ []
digits-ne fuel n = elim (Bool-cases (ltb n 10)) [
  | inl q ↦ rw q (λ e. cc)
  | inr q ↦ rw q (append_one-ne (digits fuel (n / 10)) (b'0' + n % 10))
]

decimal-IsNumber : (n : ℕ) → n ≤ u64_max → IsNumber (decimal n) n
decimal-IsNumber n h =
    let s = digits-Stands 20 n (omega (arith, h)) in
    record { some_digit = digits-ne 19 n; digits = s.digits; value = s.value; fits = h }

front-nil : (vs : List Bytes) → front vs ≡ none → vs ≡ []
front-nil [] e = refl
front-nil (v ∷ vs) e = absurd (cc)

front-ne : (vs : List Bytes) (v : Bytes) → front vs ≡ some v → vs ≢ []
front-ne [] v e z = absurd (cc)
front-ne (w ∷ vs) v e z = cc

pub crate-MapLaws : MapLaws crate
crate-MapLaws = record {
  get_all-insert = λ m k v. values_set m k (v ∷ []);
  insert_other = λ m k j v e. values_set_other m k j (v ∷ []) e;
  get_all-remove = values-others;
  remove_other = values-others_other;
  last-set_last = λ m k v h.
      ap (last_value crate) (values_set m k (replace_last (values m k) v))
      ∙ last-replace_last (values m k) v h;
  set_last_other = λ m k j v e. values_set_other m k j (replace_last (values m k) v) e;
  get_none = λ m k e. front-nil (values m k) e;
  get_some = λ m k v e. front-ne (values m k) v e;
  apart = refl;
  apart_back = refl;
  to_str-bytes = λ v s e. (cc);
  bytes-from_static = refl;
  bytes-from_bytes = λ b v e. (cc);
  longer_is_valid = λ v e. cc;
  number = λ n h. (decimal n, (refl, decimal-IsNumber n h));
}
