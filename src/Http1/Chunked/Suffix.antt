-- ===== src/Http1/Chunked/Suffix.antt =====
-- What may follow on the wire in each state of the machine, in the terms of the grammar.
use hwire.Base.{
  ℕ, ◌+◌, ◌*◌, ◌<◌, ◌≡◌, ◌≢◌, inl, inr, refl, sym, ap, subst, subst₂, ◌∙◌, true, [], ◌∷◌, ◌++◌,
  Bytes, length, arith,
}
use hwire.Http1.Chunked.{
  ChunkedState, start, size, size_lws, extension, size_lf, body, body_cr, body_lf, trailer,
  trailer_lf, end_cr, end_lf, end, is_lws,
}
use hwire.Http1.Chunked.Safety.{HasSize}
use hwire.Http1.Chunked.Grammar.{
  is_hex, hex_val, number_from, AllHex, IsSize, Extension, ext_end, ext_byte, LineEnd, line_end,
  line_lws, line_ext, FieldLine, field_end, field_byte, TrailerSection, empty_line, field_line,
  ChunkedBody, last_chunk, chunk,
}
use hwire.Http1.Chunked.Moves.{Moves}

-- Behind a size line that announced `n`: wire, payload, trailer section.
pub data After (n : ℕ) (w d t : Bytes) : Type 0 where
  after_last : n ≡ 0 → d ≡ [] → t ≡ w → TrailerSection w → After n w d t
  after_chunk :
      (piece wire payload : Bytes)
      → length piece ≡ n
      → piece ≢ []
      → w ≡ piece ++ (b'\r' ∷ b'\n' ∷ wire)
      → d ≡ piece ++ payload
      → ChunkedBody wire payload t
      → After n w d t

pub data SizeSuffix (n : ℕ) (w d t : Bytes) : Type 0 where
  in_size :
      (digits line tail : Bytes)
      → w ≡ digits ++ (line ++ tail)
      → AllHex digits
      → LineEnd line
      → After (number_from n digits) tail d t
      → SizeSuffix n w d t

pub data LineSuffix (Line : Bytes → Type 0) (n : ℕ) (w d t : Bytes) : Type 0 where
  in_line :
      (line tail : Bytes)
      → w ≡ line ++ tail
      → Line line
      → After n tail d t
      → LineSuffix Line n w d t

pub data TrailerSuffix (w : Bytes) : Type 0 where
  in_field :
      (line section : Bytes)
      → w ≡ line ++ section
      → FieldLine line
      → TrailerSection section
      → TrailerSuffix w

abbrev pub Suffix : ChunkedState → ℕ → Bytes → Bytes → Bytes → Type 0
Suffix start n w d t = ChunkedBody w d t
Suffix size n w d t = SizeSuffix n w d t
Suffix size_lws n w d t = LineSuffix LineEnd n w d t
Suffix extension n w d t = LineSuffix Extension n w d t
Suffix size_lf n w d t = (tail : Bytes) × (w ≡ b'\n' ∷ tail) × After n tail d t
Suffix body n w d t =
    (piece : Bytes) × (wire : Bytes) × (payload : Bytes) × (length piece ≡ n)
    × (w ≡ piece ++ (b'\r' ∷ b'\n' ∷ wire))
    × (d ≡ piece ++ payload)
    × ChunkedBody wire payload t
Suffix body_cr n w d t = (wire : Bytes) × (w ≡ b'\r' ∷ b'\n' ∷ wire) × ChunkedBody wire d t
Suffix body_lf n w d t = (wire : Bytes) × (w ≡ b'\n' ∷ wire) × ChunkedBody wire d t
Suffix trailer n w d t = (d ≡ []) × (t ≡ w) × TrailerSuffix w
Suffix trailer_lf n w d t =
    (d ≡ []) × (t ≡ w) × ((section : Bytes) × (w ≡ b'\n' ∷ section) × TrailerSection section)
Suffix end_cr n w d t = (d ≡ []) × (t ≡ w) × TrailerSection w
Suffix end_lf n w d t = (d ≡ []) × (t ≡ w) × (w ≡ b'\n' ∷ [])
Suffix end n w d t = (d ≡ []) × (t ≡ w) × (w ≡ [])

length-ne-zero : (piece : Bytes) {n : ℕ} → length piece ≡ n → 0 < n → piece ≢ []
length-ne-zero [] e h = absurd (omega arith)
length-ne-zero (b ∷ bs) e h = λ p. cc

After-ChunkedBody :
    {digits line : Bytes} {n : ℕ} {w d t : Bytes}
    → IsSize digits n
    → LineEnd line
    → After n w d t
    → ChunkedBody (digits ++ (line ++ w)) d t
After-ChunkedBody i l (after_last z e p s) = rw (e, p) (last_chunk (subst (IsSize _) z i) l s)
After-ChunkedBody i l (after_chunk piece wire payload n ne v e c) =
    rw (v, e) (chunk (subst (IsSize _) (sym n) i) ne l c)

start-SizeSuffix :
    (b : ℕ) {w d t : Bytes}
    → is_hex b ≡ true
    → SizeSuffix (0 * 16 + hex_val b) w d t
    → ChunkedBody (b ∷ w) d t
start-SizeSuffix b h (in_size digits line tail w hex l a) = rw w (
    After-ChunkedBody {digits = b ∷ digits}
      (record { some_digit = λ p. cc; all_hex = (h, hex); value = refl }) l a)

Suffix-at :
    {st st' : ChunkedState} {k n : ℕ} (w d t : Bytes)
    → st' ≡ st
    → k ≡ n
    → Suffix st' k w d t
    → Suffix st n w d t
Suffix-at w d t e f s = subst₂ (λ q k. Suffix q k w d t) e f s

-- A byte in front of what may follow it gives what may follow the byte before.
module _ {n b : ℕ} {w d t : Bytes} where
  digit-SizeSuffix :
      is_hex b ≡ true → SizeSuffix (n * 16 + hex_val b) w d t → SizeSuffix n (b ∷ w) d t
  digit-SizeSuffix h (in_size digits line tail e hex l a) =
      in_size (b ∷ digits) line tail (ap (◌∷◌ b) e) (h, hex) l a

  line-SizeSuffix : LineSuffix LineEnd n (b ∷ w) d t → SizeSuffix n (b ∷ w) d t
  line-SizeSuffix (in_line line tail e l a) = in_size [] line tail e tt l a

  lws-LineSuffix : is_lws b ≡ true → LineSuffix LineEnd n w d t → LineSuffix LineEnd n (b ∷ w) d t
  lws-LineSuffix h (in_line line tail e l a) =
      in_line (b ∷ line) tail (ap (◌∷◌ b) e) (line_lws h l) a

  ext-LineSuffix : b ≡ b';' → LineSuffix Extension n w d t → LineSuffix LineEnd n (b ∷ w) d t
  ext-LineSuffix h (in_line line tail e l a) = in_line (b';' ∷ line) tail (rw (h, e)) (line_ext l) a

  ext_byte-LineSuffix :
      b ≢ b'\r' → b ≢ b'\n' → LineSuffix Extension n w d t → LineSuffix Extension n (b ∷ w) d t
  ext_byte-LineSuffix h g (in_line line tail e l a) =
      in_line (b ∷ line) tail (ap (◌∷◌ b) e) (ext_byte h g l) a

  last-Suffix : b ≡ b'\n' → n ≡ 0 → Suffix end_cr n w d t → Suffix size_lf n (b ∷ w) d t
  last-Suffix h z (d0, tw, s) = (w, rw h, after_last z d0 tw s)

  body-Suffix : b ≡ b'\n' → 0 < n → Suffix body n w d t → Suffix size_lf n (b ∷ w) d t
  body-Suffix h z (piece, wire, payload, e, v, f, c) =
      (w, rw h, after_chunk piece wire payload e (length-ne-zero piece e z) v f c)

  cr-LineSuffix :
      {Line : Bytes → Type 0}
      → Line (b'\r' ∷ b'\n' ∷ [])
      → b ≡ b'\r'
      → Suffix size_lf n w d t
      → LineSuffix Line n (b ∷ w) d t
  cr-LineSuffix l h (tail, e, a) = in_line (b'\r' ∷ b'\n' ∷ []) tail (rw (h, e)) l a

module _ {b : ℕ} {w : Bytes} where
  cr-TrailerSuffix :
      b ≡ b'\r'
      → (section : Bytes) × (w ≡ b'\n' ∷ section) × TrailerSection section
      → TrailerSuffix (b ∷ w)
  cr-TrailerSuffix h (section, e, s) = in_field (b'\r' ∷ b'\n' ∷ []) section (rw (h, e)) field_end s

  byte-TrailerSuffix : b ≢ b'\r' → TrailerSuffix w → TrailerSuffix (b ∷ w)
  byte-TrailerSuffix h (in_field line section e l s) =
      in_field (b ∷ line) section (ap (◌∷◌ b) e) (field_byte h l) s

  byte-TrailerSection : b ≢ b'\r' → TrailerSuffix w → TrailerSection (b ∷ w)
  byte-TrailerSection h (in_field line section e l s) = rw e (field_line h l s)

  crlf-TrailerSection : b ≡ b'\r' → w ≡ b'\n' ∷ [] → TrailerSection (b ∷ w)
  crlf-TrailerSection h e = rw (h, e) empty_line

-- In the states of the trailers the section is what is left of the wire.
abbrev pub grow : ChunkedState → ℕ → Bytes → Bytes
grow trailer b t = b ∷ t
grow trailer_lf b t = b ∷ t
grow end_cr b t = b ∷ t
grow end_lf b t = b ∷ t
grow _ b t = t

pub Moves-Suffix :
    (st st' : ChunkedState) (n b k : ℕ) (w d t : Bytes)
    → HasSize st n
    → Moves st n b st' k
    → Suffix st' k w d t
    → Suffix st n (b ∷ w) d (grow st b t)
Moves-Suffix start st' n b k w d t z (h, e, f) s =
    start-SizeSuffix b h (Suffix-at w d t e (f ∙ ap (λ (q : ℕ). q * 16 + hex_val b) z) s)
Moves-Suffix size st' n b k w d t z (inl (h, e, f)) s = digit-SizeSuffix h (Suffix-at w d t e f s)
Moves-Suffix size st' n b k w d t z (inr (inl (h, e, f))) s =
    line-SizeSuffix (lws-LineSuffix h (Suffix-at w d t e f s))
Moves-Suffix size st' n b k w d t z (inr (inr (inl (h, e, f)))) s =
    line-SizeSuffix (ext-LineSuffix h (Suffix-at w d t e f s))
Moves-Suffix size st' n b k w d t z (inr (inr (inr (h, e, f)))) s =
    line-SizeSuffix (cr-LineSuffix line_end h (Suffix-at w d t e f s))
Moves-Suffix size_lws st' n b k w d t z (inl (h, e, f)) s = lws-LineSuffix h (Suffix-at w d t e f s)
Moves-Suffix size_lws st' n b k w d t z (inr (inl (h, e, f))) s =
    ext-LineSuffix h (Suffix-at w d t e f s)
Moves-Suffix size_lws st' n b k w d t z (inr (inr (h, e, f))) s =
    cr-LineSuffix line_end h (Suffix-at w d t e f s)
Moves-Suffix extension st' n b k w d t z (inl (h, e, f)) s =
    cr-LineSuffix ext_end h (Suffix-at w d t e f s)
Moves-Suffix extension st' n b k w d t z (inr (h, g, e, f)) s =
    ext_byte-LineSuffix h g (Suffix-at w d t e f s)
Moves-Suffix size_lf st' n b k w d t z (inl (h, n0, e, f)) s =
    last-Suffix h n0 (Suffix-at w d t e f s)
Moves-Suffix size_lf st' n b k w d t z (inr (h, n1, e, f)) s =
    body-Suffix h n1 (Suffix-at w d t e f s)
Moves-Suffix body_cr st' n b k w d t z (h, e, f) s =
    let (wire, v, c) = Suffix-at w d t e f s in (wire, rw h (ap (◌∷◌ b'\r') v), c)
Moves-Suffix body_lf st' n b k w d t z (h, e, f) s = (w, rw h, Suffix-at w d t e f s)
Moves-Suffix trailer st' n b k w d t z (inl (h, e, f)) s =
    let (d0, tw, rest) = Suffix-at w d t e f s in (d0, ap (◌∷◌ b) tw, cr-TrailerSuffix h rest)
Moves-Suffix trailer st' n b k w d t z (inr (h, e, f)) s =
    let (d0, tw, rest) = Suffix-at w d t e f s in (d0, ap (◌∷◌ b) tw, byte-TrailerSuffix h rest)
Moves-Suffix trailer_lf st' n b k w d t z (h, e, f) s =
    let (d0, tw, rest) = Suffix-at w d t e f s in (d0, ap (◌∷◌ b) tw, (w, rw h, rest))
Moves-Suffix end_cr st' n b k w d t z (inl (h, e, f)) s =
    let (d0, tw, w0) = Suffix-at w d t e f s in (d0, ap (◌∷◌ b) tw, crlf-TrailerSection h w0)
Moves-Suffix end_cr st' n b k w d t z (inr (h, e, f)) s =
    let (d0, tw, rest) = Suffix-at w d t e f s in (d0, ap (◌∷◌ b) tw, byte-TrailerSection h rest)
Moves-Suffix end_lf st' n b k w d t z (h, e, f) s =
    let (d0, tw, w0) = Suffix-at w d t e f s in (d0, ap (◌∷◌ b) tw, rw (h, w0))
Moves-Suffix body st' n b k w d t z h s = absurd h
Moves-Suffix end st' n b k w d t z h s = absurd h
