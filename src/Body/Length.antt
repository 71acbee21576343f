-- ===== src/Body/Length.antt =====
-- `DecodedLength` of body/length.rs: a `u64` whose two largest values are markers.
use hwire.Base.{ℕ, Bool, ◌||◌, Option, none, some, leb, ◌==◌, if◌then◌else◌, sub_u64}

pub record DecodedLength : Type 0 where
  pub value : ℕ

abbrev pub max_len : ℕ
max_len = 18446744073709551613

abbrev pub close_delimited : DecodedLength
close_delimited = record { value = 18446744073709551615 }

abbrev pub chunked : DecodedLength
chunked = record { value = 18446744073709551614 }

abbrev pub zero : DecodedLength
zero = record { value = 0 }

abbrev pub same : DecodedLength → DecodedLength → Bool
same a b = a.value == b.value

abbrev is_marker : DecodedLength → Bool
is_marker d = same d chunked || same d close_delimited

abbrev pub danger_len : DecodedLength → ℕ
danger_len d = d.value

unfoldable pub into_opt : DecodedLength → Option ℕ
into_opt d = if is_marker d then none else some d.value

-- `none` is `Err(Parse::TooLarge)`.
unfoldable pub checked_new : ℕ → Option DecodedLength
checked_new len = if leb len max_len then some (record { value = len }) else none

unfoldable pub sub_if : DecodedLength → ℕ → DecodedLength
sub_if d amt = if is_marker d then d else record { value = sub_u64 d.value amt }

unfoldable pub is_exact : DecodedLength → Bool
is_exact d = leb d.value max_len

abbrev or_chunked : Option DecodedLength → DecodedLength
or_chunked none = chunked
or_chunked (some d) = d

-- `impl From<Option<u64>>`
unfoldable pub from : Option ℕ → DecodedLength
unfolding checked_new
from none = chunked
from (some len) = or_chunked (checked_new len)
