-- ===== src/Http1/Role/Within.antt =====
-- Names and values that lie within a head, through the folding of its lines and the collection of
-- its headers.
use hwire.Base.{
  ℕ, ◌+◌, ◌≤◌, ◌≡◌, inl, inr, ◌∙◌, Bool-cases, Option, none, some, List, [], ◌∷◌, Bytes, length,
  arith,
}
use hwire.Http1.State.{Outside}
use hwire.Http1.Role.{RoleCrate, Located, ResponseLine, complete}
use hwire.Http1.Role.Fold.{slice, fold_all, obs_fold_line}
use hwire.Http1.Role.Folded.{Folds, obs_fold_line-Folds, slice-in}
use hwire.Http1.Role.Parser.{Collected, append_slices, append_all, lines}

-- Every name and value lies within the first `n` bytes.
abbrev pub AllWithin : ℕ → List Located → Type 0
AllWithin n [] = Unit
AllWithin n (i ∷ is) =
    ((i.name_start + i.name_len ≤ n) × (i.value_start + i.value_len ≤ n)) × AllWithin n is

-- `httparse` consumes a head that is there, and points into it.
pub record ParserLaws {out : Outside} (r : RoleCrate out) : Type 0 where
  pub points_inside :
      (buf : Bytes) (room : ℕ) (l : ResponseLine)
      → r.parse_response buf room ≡ complete l
      → (1 ≤ l.len) × ((l.len ≤ length buf) × AllWithin l.len l.located)

abbrev pub FoldedAll : ℕ → Option (Bytes × List Located) → Type 0
FoldedAll n none = ⊥
FoldedAll n (some (all, is)) = (length all ≡ n) × AllWithin n is

fold_all-FoldedAll :
    (all : Bytes) (is : List Located) (n : ℕ)
    → length all ≡ n
    → AllWithin n is
    → FoldedAll n (fold_all all is)
unfolding fold_all
fold_all-FoldedAll all [] n h w = (h, tt)
fold_all-FoldedAll all (i ∷ is) n h ((a, b), w) =
    go (obs_fold_line all i) (obs_fold_line-Folds all i (omega (arith, h, b)))
      (λ all' k. fold_all-FoldedAll all' is n k w)
  where
    behind :
        (i' : Located) (o : Option (Bytes × List Located))
        → ((i'.name_start + i'.name_len ≤ n) × (i'.value_start + i'.value_len ≤ n))
        → FoldedAll n o
        → FoldedAll n (elim o [ none ↦ none | some (all'', is') ↦ some (all'', i' ∷ is') ])
    behind i' none v f = absurd f
    behind i' (some (all'', is')) v (k, f) = (k, (v, f))

    go :
        (o : Option (Bytes × Located))
        → Folds all i o
        → ((all' : Bytes) → length all' ≡ n → FoldedAll n (fold_all all' is))
        → FoldedAll n (elim o [
          | none ↦ none
          | some (all', i') ↦ elim (fold_all all' is) [
            | none ↦ none
            | some (all'', is') ↦ some (all'', i' ∷ is')
          ]
        ])
    go none f ih = absurd f
    go (some (all', i')) f ih =
        let (p, q) = f.same_name in
        behind i' (fold_all all' is)
          (omega (arith, a, p, q), omega (arith, b, f.same_start, f.shorter))
          (ih all' (f.same_length ∙ h))

module _ (out : Outside) (r : RoleCrate out) where
  open out use {http, Method}

  pub lines-FoldedAll :
      (all : Bytes) (is : List Located) (n : ℕ)
      → length all ≡ n
      → AllWithin n is
      → FoldedAll n (lines out r all is)
  unfolding lines
  lines-FoldedAll all is n h w = elim (Bool-cases r.obsolete_multiline_allowed) [
    | inl q ↦ rw q (fold_all-FoldedAll all is n h w)
    | inr q ↦ rw q (h, w)
  ]

  abbrev pub IsSome : {A : Type 0} → Option A → Type 0
  IsSome none = ⊥
  IsSome (some a) = Unit

  pub append_all-IsSome :
      (all : Bytes) (is : List Located) (c : Collected out r)
      → AllWithin (length all) is
      → IsSome (append_all out r all is c)
  unfolding append_all append_slices
  append_all-IsSome all [] c w = tt
  append_all-IsSome all (i ∷ is) c ((a, b), w) =
      go
        (append_slices out r c (slice all i.name_start i.name_len)
          (slice all i.value_start i.value_len))
        (rw (slice-in all i.name_start i.name_len a, slice-in all i.value_start i.value_len b) tt)
        (λ c'. append_all-IsSome all is c' w)
    where
      go :
          (o : Option (Option (Collected out r)))
          → IsSome o
          → ((c' : Collected out r) → IsSome (append_all out r all is c'))
          → IsSome (elim o [
            | none ↦ none
            | some none ↦ some none
            | some (some c') ↦ append_all out r all is c'
          ])
      go none h ih = absurd h
      go (some none) h ih = tt
      go (some (some c')) h ih = ih c'
