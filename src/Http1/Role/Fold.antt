-- ===== src/Http1/Role/Fold.antt =====
-- `Client::obs_fold_line` of proto/http1/role.rs, and the positions of names and values.
use hwire.Base.{
  ℕ, ◌+◌, Bool, true, ◌||◌, Option, none, some, List, [], ◌∷◌, ◌++◌, ◌==◌, leb, if◌then◌else◌,
  Bytes, length, take, drop, ◌⊎◌, inl, inr,
}
use hwire.Error.{Parse, too_large}
use hwire.Http1.Role.{Located}

-- `u8::is_ascii_whitespace`
abbrev pub is_ascii_whitespace : ℕ → Bool
is_ascii_whitespace c = c == b' ' || (c == 9 || (c == 10 || (c == 12 || c == 13)))

abbrev pub trim_start : Bytes → Bytes
trim_start [] = []
trim_start (c ∷ cs) = let more = trim_start cs in if is_ascii_whitespace c then more else c ∷ cs

abbrev pub kept : Bool → ℕ → Bytes → Bytes
kept true c [] = []
kept _ c cs = c ∷ cs

abbrev pub trim_end : Bytes → Bytes
trim_end [] = []
trim_end (c ∷ cs) = kept (is_ascii_whitespace c) c (trim_end cs)

abbrev pub trim : Bytes → Bytes
trim s = trim_start (trim_end s)

abbrev pub onto : ℕ → Bytes × List Bytes → Bytes × List Bytes
onto c (line, lines) = (c ∷ line, lines)

abbrev pub cut : Bytes × List Bytes → Bytes × List Bytes
cut (line, lines) = ([], line ∷ lines)

-- The first line, and those behind each newline
unfoldable pub split_lines : Bytes → Bytes × List Bytes
split_lines [] = ([], [])
split_lines (c ∷ cs) = let more = split_lines cs in if c == 10 then cut more else onto c more

unfoldable pub unfold_lines : List Bytes → Bytes
unfold_lines [] = []
unfold_lines (l ∷ ls) = b' ' ∷ (trim l ++ unfold_lines ls)

unfoldable pub join_lines : Bytes × List Bytes → Option Bytes
unfolding unfold_lines
join_lines (first, []) = none
join_lines (first, l ∷ ls) = some (trim_end first ++ unfold_lines (l ∷ ls))

-- The local `unfolded`, where there is a newline
unfoldable pub unfolded : Bytes → Option Bytes
unfolding split_lines join_lines
unfolded buf = join_lines (split_lines buf)

-- Bytes `start .. start + len`; `none` is the panic of a range that is out of bounds.
unfoldable pub slice : Bytes → ℕ → ℕ → Option Bytes
slice all start len =
    if leb (start + len) (length all) then some (take len (drop start all)) else none

-- `copy_from_slice` to the place `start`
unfoldable pub overwrite : Bytes → ℕ → Bytes → Bytes
overwrite all start new = take start all ++ (new ++ drop (start + length new) all)

-- A new value that is longer than the old one is a panic as well.
abbrev pub shortened : Bytes → Located → Option Bytes → Option (Bytes × Located)
shortened all idx none = some (all, idx)
shortened all idx (some new) =
    if leb (length new) idx.value_len
    then some (overwrite all idx.value_start new, record idx { value_len = length new })
    else none

abbrev pub fold_value : Bytes → Located → Option Bytes → Option (Bytes × Located)
fold_value all idx none = none
fold_value all idx (some buf) = shortened all idx (unfolded buf)

-- `Client::obs_fold_line`
unfoldable pub obs_fold_line : Bytes → Located → Option (Bytes × Located)
obs_fold_line all idx = fold_value all idx (slice all idx.value_start idx.value_len)

-- The loop of `Client::parse` over the headers
unfoldable pub fold_all : Bytes → List Located → Option (Bytes × List Located)
fold_all all [] = some (all, [])
fold_all all (i ∷ is) = elim (obs_fold_line all i) [
  | none ↦ none
  | some (all', i') ↦ elim (fold_all all' is) [
    | none ↦ none
    | some (all'', is') ↦ some (all'', i' ∷ is')
  ]
]

-- `record_header_indices`
unfoldable pub record_header_indices : List Located → Parse ⊎ List Located
record_header_indices [] = inr []
record_header_indices (h ∷ hs) =
    if leb 65536 h.name_len
    then inl too_large
    else elim (record_header_indices hs) [ inl e ↦ inl e | inr is ↦ inr (h ∷ is) ]
