-- ===== src/Http1/Conn/Scan.antt =====
-- The scan for the end of a head, `is_complete_fast` of proto/http1/role.rs, next to a description of
-- that end.
use hwire.Base.{
  ◌≢◌, subst, ℕ, zero, suc, ◌-◌, ◌+◌, ◌≤◌, ◌≡◌, ◌↔◌, ◌⊎◌, inl, inr, refl, sym, ap, ◌∙◌, Bool, true,
  false, ◌&&◌, Bool-cases, [], ◌∷◌, ◌==◌, if◌then◌else◌, Bytes, take, drop, arith, ==_iff,
}
use hwire.Http1.Conn.Read.{starts_newline, starts_crlf_end, has_end, is_complete_fast}

-- The end of a line, and an empty line behind it, each of which ends with CRLF or with a bare LF
pub data HasBlankLine : Bytes → Type 0 where
  empty_lf : (rest : Bytes) → HasBlankLine (b'\n' ∷ (b'\n' ∷ rest))
  empty_crlf : (rest : Bytes) → HasBlankLine (b'\n' ∷ (b'\r' ∷ (b'\n' ∷ rest)))
  behind : (b : ℕ) {bs : Bytes} → HasBlankLine bs → HasBlankLine (b ∷ bs)

-- Every LF stands behind a CR, where `before` is the byte in front.
abbrev pub EndsInCrlf : ℕ → Bytes → Type 0
EndsInCrlf before [] = Unit
EndsInCrlf before (b ∷ bs) = (b ≡ b'\n' → before ≡ b'\r') × EndsInCrlf b bs

abbrev pub HasNoCr : Bytes → Type 0
HasNoCr [] = Unit
HasNoCr (b ∷ bs) = (b ≢ b'\r') × HasNoCr bs

-- All lines end with CRLF, or all with a bare LF.
abbrev pub EndsAlike : Bytes → Type 0
EndsAlike bytes = EndsInCrlf 0 bytes ⊎ HasNoCr bytes

-- What the scan looks for: two line ends of the same kind, one behind the other
pub data HasTerminator : Bytes → Type 0 where
  crlf : (rest : Bytes) → HasTerminator (b'\r' ∷ (b'\n' ∷ (b'\r' ∷ (b'\n' ∷ rest))))
  lf : (rest : Bytes) → HasTerminator (b'\n' ∷ (b'\n' ∷ rest))
  later : (b : ℕ) {bs : Bytes} → HasTerminator bs → HasTerminator (b ∷ bs)

newline_start : (bs : Bytes) → starts_newline bs ≡ true → (rest : Bytes) × (bs ≡ b'\n' ∷ rest)
newline_start [] e = absurd (cc)
newline_start (b ∷ bs) e = (bs, ap (λ x. x ∷ bs) ((==_iff b b'\n').0 e))

crlf_start :
    (bs : Bytes)
    → starts_crlf_end bs ≡ true
    → (rest : Bytes) × (bs ≡ b'\n' ∷ (b'\r' ∷ (b'\n' ∷ rest)))
crlf_start [] e = absurd (cc)
crlf_start (a ∷ []) e = absurd (cc)
crlf_start (a ∷ (b ∷ [])) e = absurd (cc)
crlf_start (a ∷ (b ∷ (c ∷ rest))) e =
    let x : a ≡ b'\n' = ground (arith, e) in
    let y : b ≡ b'\r' = ground (arith, e) in
    let z : c ≡ b'\n' = ground (arith, e) in (rest, rw (x, y, z) refl)

-- A terminator starts at the byte before `bs`.
hit : ℕ → Bytes → Bool
hit b bs = if b == b'\r' then starts_crlf_end bs else (b == b'\n' && starts_newline bs)

has_end-cons : (b : ℕ) (bs : Bytes) → has_end (b ∷ bs) ≡ (if hit b bs then true else has_end bs)
unfolding has_end hit
has_end-cons b bs = elim (Bool-cases (b == b'\r')) [ inl q ↦ rw q refl | inr q ↦ rw q refl ]

hit-HasTerminator : (b : ℕ) (bs : Bytes) → hit b bs ≡ true → HasTerminator (b ∷ bs)
unfolding hit
hit-HasTerminator b bs e = elim (Bool-cases (b == b'\r')) [
  | inl q ↦
      let x : b ≡ b'\r' = ground (arith, q) in
      let h : starts_crlf_end bs ≡ true = cc in
      let (rest, y) = crlf_start bs h in rw (x, y) (crlf rest)
  | inr q ↦
      let h : (b == b'\n' && starts_newline bs) ≡ true =
        subst (λ x. (if x then starts_crlf_end bs else (b == b'\n' && starts_newline bs)) ≡ true) q
          e in
      let x : b ≡ b'\n' = ground (arith, h) in
      let k : starts_newline bs ≡ true = ground (arith, h) in
      let (rest, y) = newline_start bs k in rw (x, y) (lf rest)
]

has_end_sound : (bs : Bytes) → has_end bs ≡ true → HasTerminator bs
has_end_sound [] e = let q : has_end [] ≡ false = unfold has_end in refl in absurd (cc)
has_end_sound (b ∷ bs) e = elim (Bool-cases (hit b bs)) [
  | inl q ↦ hit-HasTerminator b bs q
  | inr q ↦
      let z : has_end bs ≡ true =
        sym (has_end-cons b bs ∙ ap (λ x. if x then true else has_end bs) q) ∙ e in
      later b (has_end_sound bs z)
]

if_same : (x : Bool) → (if x then true else true) ≡ true
if_same true = refl
if_same false = refl

pub has_end_complete : {bs : Bytes} → HasTerminator bs → has_end bs ≡ true
has_end_complete (crlf rest) = has_end-cons b'\r' _ ∙ (unfold hit in refl)
has_end_complete (lf rest) = has_end-cons b'\n' _ ∙ (unfold hit in refl)
has_end_complete (later b {bs} h) =
    has_end-cons b bs
    ∙ ap (λ x. if hit b bs then true else x) (has_end_complete h)
    ∙ if_same (hit b bs)

starts_newline-take : (n : ℕ) (bs : Bytes) → 3 ≤ n → starts_newline (take n bs) ≡ starts_newline bs
starts_newline-take (suc n) [] h = refl
starts_newline-take zero bs h = absurd (omega (arith, h))
starts_newline-take (suc n) (b ∷ bs) h = refl

starts_crlf_end-take :
    (n : ℕ) (bs : Bytes) → 3 ≤ n → starts_crlf_end (take n bs) ≡ starts_crlf_end bs
starts_crlf_end-take (suc (suc (suc n))) [] h = refl
starts_crlf_end-take (suc (suc (suc n))) (a ∷ []) h = refl
starts_crlf_end-take (suc (suc (suc n))) (a ∷ (b ∷ [])) h = refl
starts_crlf_end-take (suc (suc (suc n))) (a ∷ (b ∷ (c ∷ rest))) h = refl
starts_crlf_end-take zero bs h = absurd (omega (arith, h))
starts_crlf_end-take (suc zero) bs h = absurd (omega (arith, h))
starts_crlf_end-take (suc (suc zero)) bs h = absurd (omega (arith, h))

hit-take : (b n : ℕ) (bs : Bytes) → 3 ≤ n → hit b (take n bs) ≡ hit b bs
unfolding hit
hit-take b n bs h = rw (starts_newline-take n bs h, starts_crlf_end-take n bs h) refl

-- Nothing ends at the first byte, and nothing behind it in the part that was scanned.
none_here :
    (b : ℕ) (bs : Bytes)
    → (if hit b bs then true else has_end bs) ≡ false
    → (hit b bs ≡ false) × (has_end bs ≡ false)
none_here b bs e = go (hit b bs) e
  where
    go : (x : Bool) → (if x then true else has_end bs) ≡ false → (x ≡ false) × (has_end bs ≡ false)
    go true e = absurd (cc)
    go false e = (refl, e)

has_end-drop :
    (k n : ℕ) (bs : Bytes)
    → k + 3 ≤ n
    → has_end (take n bs) ≡ false
    → has_end (drop k bs) ≡ has_end bs
has_end-drop zero n bs h e = refl
has_end-drop (suc k) n [] h e = refl
has_end-drop (suc k) zero (b ∷ bs) h e = absurd (omega (arith, h))
has_end-drop (suc k) (suc n) (b ∷ bs) h e =
    let (x, y) = none_here b (take n bs) (sym (has_end-cons b (take n bs)) ∙ e) in
    let z = sym (hit-take b n bs (omega (arith, h))) ∙ x in
    has_end-drop k n bs (omega (arith, h)) y
    ∙ sym (has_end-cons b bs ∙ ap (λ w. if w then true else has_end bs) z)

fast-has_end :
    (n : ℕ) (bs : Bytes) → has_end (take n bs) ≡ false → is_complete_fast bs n ≡ has_end bs
unfolding is_complete_fast
fast-has_end n bs e = elim (le-cases n) [
  | inl h ↦ rw h refl
  | inr h ↦ has_end-drop (n - 3) n bs (omega (arith, h)) e
]
  where
    le-cases : (n : ℕ) → (n - 3 ≡ 0) ⊎ (3 ≤ n)
    le-cases n = ground arith

terminator-HasBlankLine : {bs : Bytes} → HasTerminator bs → HasBlankLine bs
terminator-HasBlankLine (crlf rest) = behind b'\r' (empty_crlf rest)
terminator-HasBlankLine (lf rest) = empty_lf rest
terminator-HasBlankLine (later b h) = behind b (terminator-HasBlankLine h)

crlf-HasTerminator :
    (before : ℕ) {bs : Bytes} → HasBlankLine bs → EndsInCrlf before bs → HasTerminator (before ∷ bs)
crlf-HasTerminator before (empty_lf rest) (x, (y, rest_ok)) =
    let z : b'\n' ≡ b'\r' = y refl in absurd (omega (arith, z))
crlf-HasTerminator before (empty_crlf rest) (x, rest_ok) = rw (x refl) (crlf rest)
crlf-HasTerminator before (behind b h) (x, rest_ok) = later before (crlf-HasTerminator b h rest_ok)

no_cr-HasTerminator : {bs : Bytes} → HasBlankLine bs → HasNoCr bs → HasTerminator bs
no_cr-HasTerminator (empty_lf rest) k = lf rest
no_cr-HasTerminator (empty_crlf rest) (x, (y, rest_ok)) = absurd (y refl)
no_cr-HasTerminator (behind b h) (x, rest_ok) = later b (no_cr-HasTerminator h rest_ok)

alike-has_end : (bs : Bytes) → EndsAlike bs → HasBlankLine bs → has_end bs ≡ true
alike-has_end bs (inl k) h =
    let z : has_end (0 ∷ bs) ≡ has_end bs = has_end-cons 0 bs ∙ (unfold hit in refl) in
    sym z ∙ has_end_complete (crlf-HasTerminator 0 h k)
alike-has_end bs (inr k) h = has_end_complete (no_cr-HasTerminator h k)

-- Where all lines of a message end alike, with CRLF or with a bare LF, and the part of it that was
-- there before had no blank line: the fast scan, which starts three bytes before the end of that
-- part, finds a blank line exactly where the whole message has one.
pub is_complete_fast-HasBlankLine :
    (bytes : Bytes) (prev_len : ℕ)
    → EndsAlike bytes
    → (HasBlankLine (take prev_len bytes) → ⊥)
    → (is_complete_fast bytes prev_len ≡ true) ↔ HasBlankLine bytes
is_complete_fast-HasBlankLine bytes prev_len alike fresh =
    let e = fast-has_end prev_len bytes (elim (Bool-cases (has_end (take prev_len bytes))) [
      | inl q ↦ absurd (fresh (terminator-HasBlankLine (has_end_sound (take prev_len bytes) q)))
      | inr q ↦ q
    ]) in
    (
      λ h. terminator-HasBlankLine (has_end_sound bytes (sym e ∙ h)),
      λ h. e ∙ alike-has_end bytes alike h,
    )
