-- ===== src/Http1/Headers.antt =====
-- proto/headers.rs. A text that `to_str` gives is visible ASCII, spaces and tabs, as its bytes.
pub mod Digits
pub mod ContentLength
pub mod MapLaws
pub mod Numbers
pub mod Commas
use hwire.Base.{
  ℕ, ◌+◌, ◌-◌, Bool, true, false, ◌&&◌, ◌||◌, Option, none, some, List, [], ◌∷◌, leb, ◌==◌,
  if◌then◌else◌, Bytes, codes, checked_mul, checked_add,
}
use hwire.HttpCrate.{HttpCrate, content_length, transfer_encoding}

abbrev pub is_space : ℕ → Bool
is_space c = c == b' ' || (leb 9 c && leb c 13)

abbrev pub trim_start : Bytes → Bytes
trim_start [] = []
trim_start (c ∷ cs) = let more = trim_start cs in if is_space c then more else c ∷ cs

abbrev pub spaced : Bool → ℕ → Bytes → Bytes
spaced true c [] = []
spaced _ c cs = c ∷ cs

abbrev pub trim_end : Bytes → Bytes
trim_end [] = []
trim_end (c ∷ cs) = spaced (is_space c) c (trim_end cs)

-- `str::trim`
abbrev pub trim : Bytes → Bytes
trim s = trim_end (trim_start s)

abbrev lower : ℕ → ℕ
lower c = if leb b'A' c && leb c b'Z' then c + 32 else c

-- `str::eq_ignore_ascii_case`
abbrev pub eq_ignore_ascii_case : Bytes → Bytes → Bool
eq_ignore_ascii_case [] [] = true
eq_ignore_ascii_case (x ∷ xs) (y ∷ ys) = lower x == lower y && eq_ignore_ascii_case xs ys
eq_ignore_ascii_case _ _ = false

abbrev pub onto_first : ℕ → List Bytes → List Bytes
onto_first c [] = (c ∷ []) ∷ []
onto_first c (p ∷ ps) = (c ∷ p) ∷ ps

-- `str::split(',')`
abbrev pub split_commas : Bytes → List Bytes
split_commas [] = [] ∷ []
split_commas (c ∷ cs) =
    let parts = split_commas cs in if c == b',' then [] ∷ parts else onto_first c parts

abbrev pub last_part : Bytes → List Bytes → Bytes
last_part p [] = p
last_part p (q ∷ qs) = last_part q qs

-- `rsplit(',').next()`
abbrev pub after_last_comma : Bytes → Bytes
after_last_comma s = last_part [] (split_commas s)

abbrev some_part_is : List Bytes → Bytes → Bool
some_part_is [] needle = false
some_part_is (p ∷ ps) needle = eq_ignore_ascii_case (trim p) needle || some_part_is ps needle

pub step_digit : ℕ → Option ℕ → Option ℕ
step_digit b none = none
step_digit b (some r) = checked_add r (b - b'0')

pub digits_from : ℕ → Bytes → Option ℕ
unfolding step_digit
digits_from result [] = some result
digits_from result (b ∷ bs) =
    if leb b'0' b && leb b b'9'
    then elim (step_digit b (checked_mul result 10)) [ none ↦ none | some r ↦ digits_from r bs ]
    else none

unfoldable pub from_digits : Bytes → Option ℕ
unfolding digits_from
from_digits [] = none
from_digits (b ∷ bs) = digits_from 0 (b ∷ bs)

-- The local `content_length` after one more number; the outer `none` is `return None`.
pub agree : Option ℕ → Option ℕ → Option (Option ℕ)
agree so_far none = none
agree none (some n) = some (some n)
agree (some l) (some n) = if l == n then some (some n) else none

pub agree_parts : Option ℕ → List Bytes → Option (Option ℕ)
unfolding agree from_digits
agree_parts so_far [] = some so_far
agree_parts so_far (p ∷ ps) = elim (agree so_far (from_digits (trim p))) [
  | none ↦ none
  | some l ↦ agree_parts l ps
]

pub agree_line : Option ℕ → Option Bytes → Option (Option ℕ)
unfolding agree_parts
agree_line l none = none
agree_line l (some line) = agree_parts l (split_commas line)

module _ (http : HttpCrate) where
  open http use {
    HeaderName, HeaderValue, HeaderMap, insert, known, get_all, to_str, value_bytes,
    value_from_bytes, from_static,
  }

  abbrev text_has : Option Bytes → Bytes → Bool
  text_has none needle = false
  text_has (some s) needle = some_part_is (split_commas s) needle

  unfoldable pub connection_has : HeaderValue → Bytes → Bool
  connection_has value needle = text_has (to_str value) needle

  abbrev pub connection_keep_alive : HeaderValue → Bool
  unfolding connection_has
  connection_keep_alive value = connection_has value (codes "keep-alive")

  abbrev pub connection_close : HeaderValue → Bool
  unfolding connection_has
  connection_close value = connection_has value (codes "close")

  unfoldable pub parse_values : Option ℕ → List HeaderValue → Option ℕ
  unfolding agree_line
  parse_values l [] = l
  parse_values l (h ∷ hs) = elim (agree_line l (to_str h)) [
    | none ↦ none
    | some l' ↦ parse_values l' hs
  ]

  unfoldable pub content_length_parse_all_values : List HeaderValue → Option ℕ
  unfolding parse_values
  content_length_parse_all_values values = parse_values none values

  abbrev pub content_length_parse_all : HeaderMap → Option ℕ
  content_length_parse_all headers =
      content_length_parse_all_values (get_all headers (known content_length))

  abbrev pub last_value : List HeaderValue → Option HeaderValue
  last_value [] = none
  last_value (v ∷ []) = some v
  last_value (v ∷ (w ∷ vs)) = last_value (w ∷ vs)

  abbrev pub text_is_chunked : Option Bytes → Bool
  text_is_chunked none = false
  text_is_chunked (some s) = eq_ignore_ascii_case (trim (after_last_comma s)) (codes "chunked")

  abbrev pub value_is_chunked : Option HeaderValue → Bool
  value_is_chunked none = false
  value_is_chunked (some v) = text_is_chunked (to_str v)

  unfoldable pub is_chunked : List HeaderValue → Bool
  is_chunked encodings = value_is_chunked (last_value encodings)

  abbrev pub transfer_encoding_is_chunked : HeaderMap → Bool
  transfer_encoding_is_chunked headers = is_chunked (get_all headers (known transfer_encoding))
