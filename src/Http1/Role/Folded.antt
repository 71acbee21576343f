-- ===== src/Http1/Role/Folded.antt =====
-- What `Client::obs_fold_line` leaves of a folded value.
use hwire.Base.{
  drop-front, take-front, drop_add, ℕ, ◌+◌, ◌-◌, ◌≤◌, ◌≡◌, ◌≢◌, inl, inr, refl, sym, ap, ◌∙◌, Bool,
  true, false, Bool-cases, Option, none, some, List, [], ◌∷◌, ◌++◌, ◌==◌, Bytes, length, take, drop,
  length-append, length-take, length-drop, arith, leb,
}
use hwire.Http1.Role.{Located}
use hwire.Http1.Role.Fold.{
  is_ascii_whitespace, trim_start, trim_end, trim, kept, split_lines, unfold_lines, join_lines,
  unfolded, slice, overwrite, shortened, obs_fold_line,
}

abbrev pub NoNewline : Bytes → Type 0
NoNewline [] = Unit
NoNewline (c ∷ cs) = (c ≢ 10) × NoNewline cs

-- A part of a line: no newline, and at most as long
pub record Within (line part : Bytes) : Type 0 where
  pub clean : NoNewline part
  pub short : length part ≤ length line

NoNewline-append : (xs ys : Bytes) → NoNewline xs → NoNewline ys → NoNewline (xs ++ ys)
NoNewline-append [] ys a b = b
NoNewline-append (x ∷ xs) ys (h, a) b = (h, NoNewline-append xs ys a b)

kept-Within :
    (w : Bool) (c : ℕ) (cs ds : Bytes) → c ≢ 10 → Within cs ds → Within (c ∷ cs) (kept w c ds)
kept-Within true c cs [] h w = record { clean = tt; short = omega arith }
kept-Within true c cs (d ∷ ds) h w = record { clean = (h, w.clean); short = omega (arith, w.short) }
kept-Within false c cs ds h w = record { clean = (h, w.clean); short = omega (arith, w.short) }

trim_end-Within : (s : Bytes) → NoNewline s → Within s (trim_end s)
trim_end-Within [] h = record { clean = tt; short = omega arith }
trim_end-Within (c ∷ cs) (h, hs) = kept-Within _ c cs (trim_end cs) h (trim_end-Within cs hs)

trim_start-Within : (s : Bytes) → NoNewline s → Within s (trim_start s)
trim_start-Within [] h = record { clean = tt; short = omega arith }
trim_start-Within (c ∷ cs) (h, hs) = elim (Bool-cases (is_ascii_whitespace c)) [
  | inl q ↦
      let w = trim_start-Within cs hs in
      rw q (record { clean = w.clean; short = omega (arith, w.short) })
  | inr q ↦ rw q (record { clean = (h, hs); short = omega arith })
]

trim-Within : (s : Bytes) → NoNewline s → Within s (trim s)
trim-Within s h =
    let a = trim_end-Within s h in
    let b = trim_start-Within (trim_end s) a.clean in
    record { clean = b.clean; short = omega (arith, a.short, b.short) }

abbrev AllClean : List Bytes → Type 0
AllClean [] = Unit
AllClean (l ∷ ls) = NoNewline l × AllClean ls

-- The lines with a newline before each
abbrev total : List Bytes → ℕ
total [] = 0
total (l ∷ ls) = 1 + length l + total ls

record Lines (buf first : Bytes) (more : List Bytes) : Type 0 where
  clean : NoNewline first × AllClean more
  sum : length first + total more ≡ length buf
  whole : more ≡ [] → NoNewline buf

onto-Lines :
    (c : ℕ) (cs first : Bytes) (more : List Bytes)
    → c ≢ 10
    → Lines cs first more
    → Lines (c ∷ cs) (c ∷ first) more
onto-Lines c cs first more h l =
    let (a, b) = l.clean in
    record { clean = ((h, a), b); sum = omega (arith, l.sum); whole = λ z. (h, l.whole z) }

cut-Lines :
    (c : ℕ) (cs first : Bytes) (more : List Bytes)
    → Lines cs first more
    → Lines (c ∷ cs) [] (first ∷ more)
cut-Lines c cs first more l =
    let (a, b) = l.clean in
    record { clean = (tt, (a, b)); sum = omega (arith, l.sum); whole = λ z. absurd (cc) }

split_lines-Lines : (buf : Bytes) → Lines buf (split_lines buf).0 (split_lines buf).1
unfolding split_lines
split_lines-Lines [] = record { clean = (tt, tt); sum = refl; whole = λ z. tt }
split_lines-Lines (c ∷ cs) = elim (Bool-cases (c == 10)) [
  | inl q ↦ rw q (cut-Lines c cs _ _ (split_lines-Lines cs))
  | inr q ↦ rw q (onto-Lines c cs _ _ (λ z. ground arith) (split_lines-Lines cs))
]

unfold_lines-clean : (ls : List Bytes) → AllClean ls → NoNewline (unfold_lines ls)
unfolding unfold_lines
unfold_lines-clean [] h = tt
unfold_lines-clean (l ∷ ls) (h, hs) =
    let w = trim-Within l h in
    (
      (λ z. omega arith),
      NoNewline-append (trim l) (unfold_lines ls) w.clean (unfold_lines-clean ls hs),
    )

length-unfold_lines : (ls : List Bytes) → AllClean ls → length (unfold_lines ls) ≤ total ls
unfolding unfold_lines
length-unfold_lines [] h = omega arith
length-unfold_lines (l ∷ ls) (h, hs) =
    let w = trim-Within l h in
    omega (arith, w.short, length-append (trim l) (unfold_lines ls), length-unfold_lines ls hs)

join_lines-Within :
    (buf first : Bytes) (more : List Bytes) (new : Bytes)
    → Lines buf first more
    → join_lines (first, more) ≡ some new
    → Within buf new
unfolding join_lines
join_lines-Within buf first [] new l e = absurd (cc)
join_lines-Within buf first (m ∷ ms) new l e =
    let (a, b) = l.clean in
    let w = trim_end-Within first a in
    let q : trim_end first ++ unfold_lines (m ∷ ms) ≡ new = cc in
    rw (sym q) (record {
      clean =
          NoNewline-append (trim_end first) (unfold_lines (m ∷ ms)) w.clean
            (unfold_lines-clean (m ∷ ms) b);
      short = omega (
        arith,
        w.short,
        l.sum,
        length-append (trim_end first) (unfold_lines (m ∷ ms)),
        length-unfold_lines (m ∷ ms) b,
      );
    })

-- What replaces a folded value has no newline and is at most as long.
pub unfolded-Within : (buf new : Bytes) → unfolded buf ≡ some new → Within buf new
unfolding unfolded
unfolded-Within buf new e = join_lines-Within buf _ _ new (split_lines-Lines buf) e

join_lines-clean :
    (buf first : Bytes) (more : List Bytes)
    → Lines buf first more
    → join_lines (first, more) ≡ none
    → NoNewline buf
unfolding join_lines
join_lines-clean buf first [] l e = l.whole refl
join_lines-clean buf first (m ∷ ms) l e = absurd (cc)

-- A value that stays as it is has no newline.
pub unfolded-none : (buf : Bytes) → unfolded buf ≡ none → NoNewline buf
unfolding unfolded
unfolded-none buf e = join_lines-clean buf _ _ (split_lines-Lines buf) e

-- The fold of one value: the rest of the head stays, and the value has no newline any more.
pub record IsFolded (all : Bytes) (idx : Located) (all' : Bytes) (idx' : Located) : Type 0 where
  pub same_name : (idx'.name_start ≡ idx.name_start) × (idx'.name_len ≡ idx.name_len)
  pub same_start : idx'.value_start ≡ idx.value_start
  pub shorter : idx'.value_len ≤ idx.value_len
  pub same_length : length all' ≡ length all
  pub before : take idx.value_start all' ≡ take idx.value_start all
  pub behind :
      drop (idx.value_start + idx.value_len) all' ≡ drop (idx.value_start + idx.value_len) all
  pub value : Bytes
  pub at_value : slice all' idx'.value_start idx'.value_len ≡ some value
  pub clean : NoNewline value

abbrev pub Folds : Bytes → Located → Option (Bytes × Located) → Type 0
Folds all idx none = ⊥
Folds all idx (some (all', idx')) = IsFolded all idx all' idx'

pub slice-in :
    (all : Bytes) (s n : ℕ) → s + n ≤ length all → slice all s n ≡ some (take n (drop s all))
unfolding slice
slice-in all s n h = ground arith

module _ (all new : Bytes) (s : ℕ) (h : s + length new ≤ length all) where
  front_length : length (take s all) ≡ s
  front_length = omega (arith, length-take s all, h)

  length-overwrite : length (overwrite all s new) ≡ length all
  unfolding overwrite
  length-overwrite = omega (
    arith,
    h,
    front_length,
    length-append (take s all) (new ++ drop (s + length new) all),
    length-append new (drop (s + length new) all),
    length-drop (s + length new) all,
  )

  drop-overwrite : drop s (overwrite all s new) ≡ new ++ drop (s + length new) all
  unfolding overwrite
  drop-overwrite = drop-front s (take s all) (new ++ drop (s + length new) all) front_length

  take-overwrite : take s (overwrite all s new) ≡ take s all
  unfolding overwrite
  take-overwrite = take-front s (take s all) (new ++ drop (s + length new) all) front_length

  slice-overwrite : slice (overwrite all s new) s (length new) ≡ some new
  slice-overwrite =
      slice-in (overwrite all s new) s (length new) (omega (arith, h, length-overwrite))
      ∙ ap some (rw drop-overwrite (take-front (length new) new (drop (s + length new) all) refl))

  behind-overwrite :
      (n : ℕ) → length new ≤ n → drop (s + n) (overwrite all s new) ≡ drop (s + n) all
  behind-overwrite n k =
      let e : n ≡ length new + (n - length new) = omega (arith, k) in
      let f : s + n ≡ (s + length new) + (n - length new) = omega (arith, k) in
      drop_add s n (overwrite all s new)
      ∙ ap (drop n) drop-overwrite
      ∙ ap (λ i. drop i (new ++ drop (s + length new) all)) e
      ∙ drop_add (length new) (n - length new) (new ++ drop (s + length new) all)
      ∙ ap (drop (n - length new)) (drop-front (length new) new (drop (s + length new) all) refl)
      ∙ sym (drop_add (s + length new) (n - length new) all)
      ∙ ap (λ i. drop i all) (sym f)

shortened-Folds :
    (all : Bytes) (idx : Located) (o : Option Bytes)
    → idx.value_start + idx.value_len ≤ length all
    → unfolded (take idx.value_len (drop idx.value_start all)) ≡ o
    → Folds all idx (shortened all idx o)
shortened-Folds all idx none h e = record {
  same_name = (refl, refl);
  same_start = refl;
  shorter = omega arith;
  same_length = refl;
  before = refl;
  behind = refl;
  value = take idx.value_len (drop idx.value_start all);
  at_value = slice-in all idx.value_start idx.value_len h;
  clean = unfolded-none _ e;
}
shortened-Folds all idx (some new) h e =
    let w = unfolded-Within _ new e in
    let k : length new ≤ idx.value_len = omega (
      arith,
      w.short,
      h,
      length-take idx.value_len (drop idx.value_start all),
      length-drop idx.value_start all,
    ) in
    let m : idx.value_start + length new ≤ length all = omega (arith, h, k) in
    let q : leb (length new) idx.value_len ≡ true = ground (arith, k) in
    rw q (record {
      same_name = (refl, refl);
      same_start = refl;
      shorter = k;
      same_length = length-overwrite all new idx.value_start m;
      before = take-overwrite all new idx.value_start m;
      behind = behind-overwrite all new idx.value_start m idx.value_len k;
      value = new;
      at_value = slice-overwrite all new idx.value_start m;
      clean = w.clean;
    })

-- Where a value lies within the head, `obs_fold_line` does not panic: it leaves a value without a
-- newline that is no longer than the old one, and every byte before and behind the old value.
pub obs_fold_line-Folds :
    (all : Bytes) (idx : Located)
    → idx.value_start + idx.value_len ≤ length all
    → Folds all idx (obs_fold_line all idx)
unfolding obs_fold_line
obs_fold_line-Folds all idx h =
    rw (slice-in all idx.value_start idx.value_len h) (shortened-Folds all idx _ h refl)
