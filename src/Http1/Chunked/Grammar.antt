-- ===== src/Http1/Chunked/Grammar.antt =====
-- The chunked coding as a grammar over the bytes on the wire, with no state machine.
use hwire.Base.{
  refl, u64_mod, ◌<◌, concat, codes, List, ℕ, ◌+◌, ◌-◌, ◌*◌, ◌≡◌, ◌≢◌, Bool, true, ◌||◌, Option,
  none, some, [], ◌∷◌, ◌++◌, Bytes, length, ◌==◌, if◌then◌else◌,
}
use hwire.Http1.Chunked.{is_digit, is_lower_hex, is_upper_hex, is_lws}

abbrev pub is_hex : ℕ → Bool
is_hex b = is_digit b || is_lower_hex b || is_upper_hex b

abbrev pub hex_val : ℕ → ℕ
hex_val b = if is_digit b then b - b'0' else if is_lower_hex b then b - b'a' + 10 else b - b'A' + 10

-- The number that digits stand for, behind those that gave `acc`.
abbrev pub number_from : ℕ → Bytes → ℕ
number_from acc [] = acc
number_from acc (b ∷ bs) = number_from (acc * 16 + hex_val b) bs

abbrev pub AllHex : Bytes → Type 0
AllHex [] = Unit
AllHex (b ∷ bs) = (is_hex b ≡ true) × AllHex bs

pub record IsSize (digits : Bytes) (n : ℕ) : Type 0 where
  pub some_digit : digits ≢ []
  pub all_hex : AllHex digits
  pub value : number_from 0 digits ≡ n

-- What may stand in an extension, with its line end: no CR and no LF of its own.
pub data Extension : Bytes → Type 0 where
  ext_end : Extension (b'\r' ∷ b'\n' ∷ [])
  ext_byte : {b : ℕ} {l : Bytes} → b ≢ b'\r' → b ≢ b'\n' → Extension l → Extension (b ∷ l)

-- The end of a size line: white space, then perhaps an extension.
pub data LineEnd : Bytes → Type 0 where
  line_end : LineEnd (b'\r' ∷ b'\n' ∷ [])
  line_lws : {b : ℕ} {l : Bytes} → is_lws b ≡ true → LineEnd l → LineEnd (b ∷ l)
  line_ext : {l : Bytes} → Extension l → LineEnd (b';' ∷ l)

-- A trailer line from somewhere inside it to its end.
pub data FieldLine : Bytes → Type 0 where
  field_end : FieldLine (b'\r' ∷ b'\n' ∷ [])
  field_byte : {b : ℕ} {l : Bytes} → b ≢ b'\r' → FieldLine l → FieldLine (b ∷ l)

-- The lines behind the last chunk, up to the empty one.
pub data TrailerSection : Bytes → Type 0 where
  empty_line : TrailerSection (b'\r' ∷ b'\n' ∷ [])
  field_line :
      {b : ℕ} {l section : Bytes}
      → b ≢ b'\r'
      → FieldLine l
      → TrailerSection section
      → TrailerSection (b ∷ (l ++ section))

-- `ChunkedBody wire payload section`: the wire is a whole chunked body that carries the payload,
-- and ends with the trailer section.
pub data ChunkedBody : Bytes → Bytes → Bytes → Type 0 where
  last_chunk :
      {digits line section : Bytes}
      → IsSize digits 0
      → LineEnd line
      → TrailerSection section
      → ChunkedBody (digits ++ (line ++ section)) [] section
  chunk :
      {digits line piece wire payload section : Bytes}
      → IsSize digits (length piece)
      → piece ≢ []
      → LineEnd line
      → ChunkedBody wire payload section
      → ChunkedBody
          (digits ++ (line ++ (piece ++ (b'\r' ∷ b'\n' ∷ wire))))
          (piece ++ payload)
          section

-- The coding of pieces, none of them empty, with plain size lines and no trailers
pub data Coded : Bytes → List Bytes → Type 0 where
  coded_end : Coded (codes "0\r\n\r\n") []
  coded_piece :
      {digits piece wire : Bytes} {pieces : List Bytes}
      → IsSize digits (length piece)
      → piece ≢ []
      → length piece < u64_mod
      → Coded wire pieces
      → Coded (digits ++ (b'\r' ∷ b'\n' ∷ (piece ++ (b'\r' ∷ b'\n' ∷ wire)))) (piece ∷ pieces)

pub zero-IsSize : IsSize (b'0' ∷ []) 0
zero-IsSize = record { some_digit = λ e. cc; all_hex = (refl, tt); value = refl }

pub Coded-ChunkedBody :
    {wire : Bytes} {pieces : List Bytes}
    → Coded wire pieces
    → ChunkedBody wire (concat pieces) (codes "\r\n")
Coded-ChunkedBody coded_end = last_chunk {digits = b'0' ∷ []} zero-IsSize line_end empty_line
Coded-ChunkedBody (coded_piece {digits} {piece} s ne l c) =
    chunk {digits = digits} {piece = piece} s ne line_end (Coded-ChunkedBody c)

-- What the decoder keeps of a trailer section: nothing if it is empty.
abbrev pub kept : Bytes → Option Bytes
kept [] = none
kept (b ∷ bs) = if b == b'\r' then none else some (b ∷ bs)
