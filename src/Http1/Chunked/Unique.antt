-- ===== src/Http1/Chunked/Unique.antt =====
-- The grammar of chunked coding is unambiguous: a stream of bytes starts with one body at most.
use hwire.Base.{
  ℕ, ◌+◌, ◌*◌, ◌≡◌, ◌≢◌, refl, sym, ap, ◌∙◌, [], ◌∷◌, ◌++◌, append_assoc, Bytes, length,
  length-append, ◌==◌, if◌then◌else◌, arith,
}
use hwire.Http1.Chunked.Grammar.{
  is_hex, hex_val, number_from, AllHex, IsSize, Extension, ext_end, ext_byte, LineEnd, line_end,
  line_lws, line_ext, FieldLine, field_end, field_byte, TrailerSection, empty_line, field_line,
  ChunkedBody, last_chunk, chunk,
}

-- What follows the first CR and the byte behind it
abbrev past_one : Bytes → Bytes
past_one [] = []
past_one (b ∷ bs) = bs

abbrev past_line : Bytes → Bytes
past_line [] = []
past_line (b ∷ bs) = let more = past_line bs in if b == b'\r' then past_one bs else more

past_line-step : (b : ℕ) (bs : Bytes) → b ≢ b'\r' → past_line (b ∷ bs) ≡ past_line bs
past_line-step b bs h = ground arith

Extension-past : {l : Bytes} → Extension l → (x : Bytes) → past_line (l ++ x) ≡ x
Extension-past ext_end x = refl
Extension-past (ext_byte {b} {l} h k e) x = past_line-step b (l ++ x) h ∙ Extension-past e x

LineEnd-past : {l : Bytes} → LineEnd l → (x : Bytes) → past_line (l ++ x) ≡ x
LineEnd-past line_end x = refl
LineEnd-past (line_lws {b} {l} h e) x =
    past_line-step b (l ++ x) (λ z. ground (arith, h, z)) ∙ LineEnd-past e x
LineEnd-past (line_ext {l} e) x = past_line-step b';' (l ++ x) (ground arith) ∙ Extension-past e x

FieldLine-past : {l : Bytes} → FieldLine l → (x : Bytes) → past_line (l ++ x) ≡ x
FieldLine-past field_end x = refl
FieldLine-past (field_byte {b} {l} h e) x = past_line-step b (l ++ x) h ∙ FieldLine-past e x

digits-past : (ds : Bytes) → AllHex ds → (x : Bytes) → past_line (ds ++ x) ≡ past_line x
digits-past [] h x = refl
digits-past (b ∷ ds) h x =
    past_line-step b (ds ++ x) (λ z. ground (arith, h.0, z)) ∙ digits-past ds h.1 x

-- The number that the digits in front stand for
abbrev size_from : ℕ → Bytes → ℕ
size_from acc [] = acc
size_from acc (b ∷ bs) =
    let more = size_from (acc * 16 + hex_val b) bs in if is_hex b then more else acc

size_from-line : {l : Bytes} → LineEnd l → (acc : ℕ) (x : Bytes) → size_from acc (l ++ x) ≡ acc
size_from-line line_end acc x = refl
size_from-line (line_lws {b} {l} h e) acc x = ground (arith, h)
size_from-line (line_ext e) acc x = refl

size_from-digits :
    (ds : Bytes) {l : Bytes}
    → AllHex ds
    → LineEnd l
    → (acc : ℕ) (x : Bytes) → size_from acc (ds ++ (l ++ x)) ≡ number_from acc ds
size_from-digits [] h e acc x = size_from-line e acc x
size_from-digits (b ∷ ds) h e acc x = rw (h.0) (size_from-digits ds h.1 e (acc * 16 + hex_val b) x)

-- A size line gives its number and what is behind it.
line_number :
    {ds l : Bytes} {n : ℕ}
    → IsSize ds n
    → LineEnd l
    → (x : Bytes) → (size_from 0 (ds ++ (l ++ x)) ≡ n) × (past_line (ds ++ (l ++ x)) ≡ x)
line_number {ds} {l} s e x = (
  size_from-digits ds s.all_hex e 0 x ∙ s.value,
  digits-past ds s.all_hex (l ++ x) ∙ LineEnd-past e x,
)

same_line :
    {ds l ds' l' : Bytes} {n n' : ℕ}
    → IsSize ds n
    → LineEnd l
    → IsSize ds' n'
    → LineEnd l'
    → (x x' : Bytes) → ds ++ (l ++ x) ≡ ds' ++ (l' ++ x')
    → (n ≡ n') × (x ≡ x')
same_line s e s' e' x x' h =
    let (a, b) = line_number s e x in
    let (a', b') = line_number s' e' x' in
    (sym a ∙ ap (size_from 0) h ∙ a', sym b ∙ ap past_line h ∙ b')

pub same_parts : (a b x y : Bytes) → length a ≡ length b → a ++ x ≡ b ++ y → (a ≡ b) × (x ≡ y)
same_parts [] [] x y e h = (refl, h)
same_parts [] (c ∷ b) x y e h = absurd (omega (arith, e))
same_parts (c ∷ a) [] x y e h = absurd (omega (arith, e))
same_parts (c ∷ a) (d ∷ b) x y e h =
    let (p, q) = same_parts a b x y (omega (arith, e)) (cc) in (cc, q)

section_ends :
    {s s' : Bytes}
    → TrailerSection s
    → TrailerSection s'
    → (x x' : Bytes) → s ++ x ≡ s' ++ x'
    → x ≡ x'
section_ends empty_line empty_line x x' h = cc
section_ends empty_line (field_line b l s) x x' h = absurd (b (cc))
section_ends (field_line b l s) empty_line x x' h = absurd (b (cc))
section_ends (field_line {l = l} {section = s} b f t) (field_line {l = l'} {section = s'} b' f' t')
      x x' h =
    section_ends t t' x x' (
      sym (FieldLine-past f (s ++ x))
      ∙ ap past_line (sym (append_assoc l s x) ∙ ap past_one h ∙ append_assoc l' s' x')
      ∙ FieldLine-past f' (s' ++ x'))

-- Two bodies at the start of one stream
pub record SameBody (d d' s s' x x' : Bytes) : Type 0 where
  pub payload : d ≡ d'
  pub section : s ≡ s'
  pub rest : x ≡ x'

last_assoc : (a b c x : Bytes) → (a ++ (b ++ c)) ++ x ≡ a ++ (b ++ (c ++ x))
last_assoc a b c x = simp append_assoc

chunk_assoc :
    (a b p w x : Bytes)
    → (a ++ (b ++ (p ++ (b'\r' ∷ b'\n' ∷ w)))) ++ x ≡ a ++ (b ++ (p ++ (b'\r' ∷ b'\n' ∷ (w ++ x))))
chunk_assoc a b p w x = simp append_assoc

no_piece : (p : Bytes) → length p ≡ 0 → p ≡ []
no_piece [] e = refl
no_piece (b ∷ p) e = absurd (omega (arith, e))

same_section : (s s' x x' : Bytes) → s ++ x ≡ s' ++ x' → x ≡ x' → (s ≡ s') × (x ≡ x')
same_section s s' x x' h e =
    let n : length s ≡ length s' =
      omega (arith, length-append s x, length-append s' x', ap length h, ap length e) in
    same_parts s s' x x' n h

pub ChunkedBody-SameBody :
    {w w' d d' s s' : Bytes}
    → ChunkedBody w d s
    → ChunkedBody w' d' s'
    → (x x' : Bytes) → w ++ x ≡ w' ++ x'
    → SameBody d d' s s' x x'
ChunkedBody-SameBody (last_chunk {digits = ds} {line = l} {section = s} z e t)
      (last_chunk {digits = ds'} {line = l'} {section = s'} z' e' t') x x' h =
    let (n, k) =
      same_line z e z' e' (s ++ x) (s' ++ x')
        (sym (last_assoc ds l s x) ∙ h ∙ last_assoc ds' l' s' x') in
    let (a, b) = same_section s s' x x' k (section_ends t t' x x' k) in
    record { payload = refl; section = a; rest = b }
ChunkedBody-SameBody (last_chunk {digits = ds} {line = l} {section = s} z e t)
      (chunk {digits = ds'} {line = l'} {piece = p'} {wire = w'} z' ne' e' t') x x' h =
    let (n, k) =
      same_line z e z' e' (s ++ x) (p' ++ (b'\r' ∷ b'\n' ∷ (w' ++ x')))
        (sym (last_assoc ds l s x) ∙ h ∙ chunk_assoc ds' l' p' w' x') in
    absurd (ne' (no_piece p' (sym n)))
ChunkedBody-SameBody (chunk {digits = ds} {line = l} {piece = p} {wire = w} z ne e t)
      (last_chunk {digits = ds'} {line = l'} {section = s'} z' e' t') x x' h =
    let (n, k) =
      same_line z e z' e' (p ++ (b'\r' ∷ b'\n' ∷ (w ++ x))) (s' ++ x')
        (sym (chunk_assoc ds l p w x) ∙ h ∙ last_assoc ds' l' s' x') in
    absurd (ne (no_piece p n))
ChunkedBody-SameBody (chunk {digits = ds} {line = l} {piece = p} {wire = w} z ne e t)
      (chunk {digits = ds'} {line = l'} {piece = p'} {wire = w'} z' ne' e' t') x x' h =
    let (n, k) =
      same_line z e z' e' (p ++ (b'\r' ∷ b'\n' ∷ (w ++ x))) (p' ++ (b'\r' ∷ b'\n' ∷ (w' ++ x')))
        (sym (chunk_assoc ds l p w x) ∙ h ∙ chunk_assoc ds' l' p' w' x') in
    let (a, b) = same_parts p p' _ _ n k in
    let y = ChunkedBody-SameBody t t' x x' (ap past_one (ap past_one b)) in
    record { payload = cc; section = y.section; rest = y.rest }
