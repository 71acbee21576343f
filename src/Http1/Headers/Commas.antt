-- ===== src/Http1/Headers/Commas.antt =====
-- The parts between commas of a header's text.
use hwire.Base.{◌≡◌, inl, inr, refl, ap, Bool-cases, List, [], ◌∷◌, ◌++◌, ◌==◌, Bytes}
use hwire.Http1.Headers.{split_commas, onto_first, last_part, after_last_comma}
use hwire.Http1.Headers.ContentLength.{split_commas-cons}

record TwoParts (s tail : Bytes) : Type 0 where
  first : Bytes
  second : Bytes
  more : List Bytes
  parts : split_commas s ≡ first ∷ (second ∷ more)
  last : last_part second more ≡ after_last_comma tail

comma_parts : (ys : Bytes) (ps : List Bytes) → split_commas ys ≡ ps → TwoParts (b',' ∷ ys) ys
comma_parts ys [] e = absurd (split_commas-cons ys e)
comma_parts ys (p ∷ ps) e = record {
  first = [];
  second = p;
  more = ps;
  parts = rw e refl;
  last = rw e refl;
}

split_commas-TwoParts : (xs ys : Bytes) → TwoParts (xs ++ (b',' ∷ ys)) ys
split_commas-TwoParts [] ys = comma_parts ys _ refl
split_commas-TwoParts (x ∷ xs) ys =
    let t = split_commas-TwoParts xs ys in
    elim (Bool-cases (x == b',')) [
      | inl q ↦ record {
        first = [];
        second = t.first;
        more = t.second ∷ t.more;
        parts = rw q (ap (λ p. [] ∷ p) t.parts);
        last = t.last;
      }
      | inr q ↦ record {
        first = x ∷ t.first;
        second = t.second;
        more = t.more;
        parts = rw q (ap (onto_first x) t.parts);
        last = t.last;
      }
    ]

-- What is behind the last comma of a text with a comma
pub after_last_comma-append :
    (xs ys : Bytes) → after_last_comma (xs ++ (b',' ∷ ys)) ≡ after_last_comma ys
after_last_comma-append xs ys = let t = split_commas-TwoParts xs ys in rw t.parts t.last
