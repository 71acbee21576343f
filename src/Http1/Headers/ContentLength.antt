-- ===== src/Http1/Headers/ContentLength.antt =====
-- What `content_length_parse_all_values` accepts.
use hwire.Base.{
  ℕ, ◌≡◌, ◌≢◌, ◌⊎◌, inl, inr, refl, sym, ap, subst, ◌∙◌, Bool-cases, Option, none, some, List, [],
  ◌∷◌, ◌==◌, Bytes, arith,
}
use hwire.HttpCrate.{HttpCrate}
use hwire.Http1.Headers.Digits.{IsNumber, from_digits-IsNumber}
use hwire.Http1.Headers.{
  from_digits, agree, agree_parts, agree_line, split_commas, onto_first, trim, parse_values,
  content_length_parse_all_values,
}

-- Nothing was read before, or the same number.
Compat : Option ℕ → ℕ → Type 0
Compat l n = (l ≡ none) ⊎ (l ≡ some n)

abbrev pub AllParts : ℕ → List Bytes → Type 0
AllParts n [] = Unit
AllParts n (p ∷ ps) = IsNumber (trim p) n × AllParts n ps

abbrev pub LineOf : ℕ → Option Bytes → Type 0
LineOf n none = ⊥
LineOf n (some line) = AllParts n (split_commas line)

record Agreed (l : Option ℕ) (o : Option ℕ) (l' : Option ℕ) : Type 0 where
  number : ℕ
  parsed : o ≡ some number
  now : l' ≡ some number
  before : Compat l number

agree-Agreed : (l o l' : Option ℕ) → agree l o ≡ some l' → Agreed l o l'
unfolding agree Compat
agree-Agreed l none l' e = absurd (cc)
agree-Agreed none (some n) l' e = record { number = n; parsed = refl; now = cc; before = inl refl }
agree-Agreed (some k) (some n) l' e = elim (Bool-cases (k == n)) [
  | inl q ↦
      let z : k ≡ n = ground arith in
      record { number = n; parsed = refl; now = ground (arith, e); before = inr (ap some z) }
  | inr q ↦ absurd (ground (arith, e))
]

agree_parts_sound :
    (n : ℕ) (ps : List Bytes) (l l' : Option ℕ)
    → agree_parts l ps ≡ some l'
    → Compat l' n
    → AllParts n ps × Compat l n
unfolding agree_parts Compat
agree_parts_sound n [] l l' e c = let q : l ≡ l' = cc in (tt, subst (λ x. Compat x n) (sym q) c)
agree_parts_sound n (p ∷ ps) l l' e c =
    go (λ k q. agree_parts_sound n ps k l' q c) (agree l (from_digits (trim p))) refl e
  where
    go :
        ((k : Option ℕ) → agree_parts k ps ≡ some l' → AllParts n ps × Compat k n)
        → (o : Option (Option ℕ)) → agree l (from_digits (trim p)) ≡ o
        → ◌≡◌ {A = Option (Option ℕ)} (elim o [ none ↦ none | some k ↦ agree_parts k ps ]) (some l')
        → AllParts n (p ∷ ps) × Compat l n
    go ih none h q = absurd (cc)
    go ih (some k) h q =
        let a = agree-Agreed l (from_digits (trim p)) k h in
        let (rest, c') = ih k q in
        let same : a.number ≡ n = elim c' [
          | inl z ↦ (let now = a.now in absurd (cc))
          | inr z ↦ (let now = a.now in cc)
        ] in
        let (number, back) = from_digits-IsNumber (trim p) n in
        ((number (a.parsed ∙ ap some same), rest), subst (Compat l) same a.before)

AllValues-line :
    (n : ℕ) (line : Option Bytes) (l l' : Option ℕ)
    → agree_line l line ≡ some l'
    → Compat l' n
    → LineOf n line × Compat l n
unfolding agree_line
AllValues-line n none l l' e c = absurd (cc)
AllValues-line n (some t) l l' e c = agree_parts_sound n (split_commas t) l l' e c

agree_complete : (n : ℕ) (l : Option ℕ) → Compat l n → agree l (some n) ≡ some (some n)
unfolding agree Compat
agree_complete n none c = refl
agree_complete n (some k) (inl e) = absurd (cc)
agree_complete n (some k) (inr e) = let z : k ≡ n = cc in ground (arith, z)

abbrev parts_after : List Bytes → Option (Option ℕ) → Option (Option ℕ)
parts_after ps none = none
parts_after ps (some k) = agree_parts k ps

-- A part that is the number carries on with it.
agree_parts-step :
    (n : ℕ) (p : Bytes) (ps : List Bytes) (l : Option ℕ)
    → IsNumber (trim p) n
    → Compat l n
    → agree_parts l (p ∷ ps) ≡ agree_parts (some n) ps
unfolding agree_parts
agree_parts-step n p ps l i c =
    let (_, back) = from_digits-IsNumber (trim p) n in
    ap (parts_after ps) (ap (agree l) (back i) ∙ agree_complete n l c)

agree_parts-rest :
    (n : ℕ) (ps : List Bytes) → AllParts n ps → agree_parts (some n) ps ≡ some (some n)
agree_parts-rest n [] a = unfold agree_parts in refl
agree_parts-rest n (p ∷ ps) (i, a) =
    agree_parts-step n p ps (some n) i (unfold Compat in (inr refl)) ∙ agree_parts-rest n ps a

agree_parts_complete :
    (n : ℕ) (ps : List Bytes) (l : Option ℕ)
    → ps ≢ []
    → AllParts n ps
    → Compat l n
    → agree_parts l ps ≡ some (some n)
agree_parts_complete n [] l ne a c = absurd (ne refl)
agree_parts_complete n (p ∷ ps) l ne (i, a) c =
    agree_parts-step n p ps l i c ∙ agree_parts-rest n ps a

onto_first-cons : (c : ℕ) (ps : List Bytes) → onto_first c ps ≢ []
onto_first-cons c [] e = cc
onto_first-cons c (p ∷ ps) e = cc

pub split_commas-cons : (s : Bytes) → split_commas s ≢ []
split_commas-cons [] = λ e. cc
split_commas-cons (c ∷ cs) = elim (Bool-cases (c == b',')) [
  | inl q ↦ rw q (λ e. cc)
  | inr q ↦ rw q (onto_first-cons c (split_commas cs))
]

agree_line_complete :
    (n : ℕ) (line : Option Bytes) (l : Option ℕ)
    → LineOf n line
    → Compat l n
    → agree_line l line ≡ some (some n)
unfolding agree_line
agree_line_complete n none l a c = absurd a
agree_line_complete n (some t) l a c =
    agree_parts_complete n (split_commas t) l (split_commas-cons t) a c

module _ (http : HttpCrate) where
  open http use {HeaderValue, to_str}

  -- Each value is a list of parts between commas, and each part is the number.
  abbrev pub AllValues : ℕ → List HeaderValue → Type 0
  AllValues n [] = Unit
  AllValues n (h ∷ hs) = LineOf n (to_str h) × AllValues n hs

  parse_values_sound :
      (n : ℕ) (hs : List HeaderValue) (l : Option ℕ)
      → parse_values http l hs ≡ some n
      → AllValues n hs × Compat l n
  unfolding parse_values Compat
  parse_values_sound n [] l e = (tt, inr e)
  parse_values_sound n (h ∷ hs) l e =
      go (λ k q. parse_values_sound n hs k q) (agree_line l (to_str h)) refl e
    where
      go :
          ((k : Option ℕ) → parse_values http k hs ≡ some n → AllValues n hs × Compat k n)
          → (o : Option (Option ℕ)) → agree_line l (to_str h) ≡ o
          → ◌≡◌ {A = Option ℕ} (elim o [ none ↦ none | some k ↦ parse_values http k hs ]) (some n)
          → AllValues n (h ∷ hs) × Compat l n
      go ih none q z = absurd (cc)
      go ih (some k) q z =
          let (rest, c) = ih k z in
          let (line, before) = AllValues-line n (to_str h) l k q c in ((line, rest), before)

  abbrev values_after : List HeaderValue → Option (Option ℕ) → Option ℕ
  values_after hs none = none
  values_after hs (some k) = parse_values http k hs

  parse_values-step :
      (n : ℕ) (h : HeaderValue) (hs : List HeaderValue) (l : Option ℕ)
      → LineOf n (to_str h)
      → Compat l n
      → parse_values http l (h ∷ hs) ≡ parse_values http (some n) hs
  unfolding parse_values
  parse_values-step n h hs l i c = ap (values_after hs) (agree_line_complete n (to_str h) l i c)

  parse_values-rest :
      (n : ℕ) (hs : List HeaderValue) → AllValues n hs → parse_values http (some n) hs ≡ some n
  parse_values-rest n [] a = unfold parse_values in refl
  parse_values-rest n (h ∷ hs) (i, a) =
      parse_values-step n h hs (some n) i (unfold Compat in (inr refl)) ∙ parse_values-rest n hs a

  -- A length is returned exactly where there is a value and every part between commas, of every value,
  -- is a text of digits for that same number, which fits a `u64`.
  pub content_length_parse_all_values-AllValues :
      (values : List HeaderValue) (n : ℕ)
      → (content_length_parse_all_values http values ≡ some n → (values ≢ []) × AllValues n values)
        × ((values ≢ []) × AllValues n values
            → content_length_parse_all_values http values ≡ some n)
  unfolding content_length_parse_all_values Compat
  content_length_parse_all_values-AllValues [] n = (
    λ e. let q : parse_values http none [] ≡ none = unfold parse_values in refl in absurd (cc),
    λ p. let (ne, a) = p in absurd (ne refl),
  )
  content_length_parse_all_values-AllValues (h ∷ hs) n = (
    λ e. let (a, c) = parse_values_sound n (h ∷ hs) none e in ((λ z. absurd (cc)), a),
    λ p.
        let (ne, (i, a)) = p in
        parse_values-step n h hs none i (inl refl) ∙ parse_values-rest n hs a,
  )
