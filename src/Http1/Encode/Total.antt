-- ===== src/Http1/Encode/Total.antt =====
-- The encoder does not panic.
use hwire.Base.{
  ◌<◌, ◌≡◌, ◌≢◌, refl, sym, Bool, Bool-cases, inl, inr, Option, none, some, List, [], ◌∷◌, Bytes,
  ltb, ◌==◌, ◌&&◌, u64_mod, arith,
}
use hwire.Base
use hwire.HttpCrate.{HttpCrate}
use hwire.Http1.Encode.{
  Kind, chunked, Encoder, encode, encode_and_end, encode_trailers, no_name, TrailersResult,
  trailers_of, filter_trailers,
}
use hwire.Http1.Encode
use hwire.Http1.Encode.Size.{new_chunk_size-IsSize}

module _ (http : HttpCrate) where
  open http use {HeaderName, HeaderValue, HeaderMap, into_items, iter, empty}

  pub encode-total :
      (k : Kind http) (last : Bool) (p : Bytes)
      → Base.length p < u64_mod
      → encode http (record { kind = k; is_last = last }) p ≢ none
  unfolding encode
  encode-total (chunked fields) last p h =
      let (ds, s, z) = new_chunk_size-IsSize (Base.length p) h in λ e. ground (arith, z, e)
  encode-total (Encode.length n) last p h = λ e. ground (arith, e)

  pub encode_and_end-total :
      (k : Kind http) (last : Bool) (p : Bytes)
      → Base.length p < u64_mod
      → encode_and_end http (record { kind = k; is_last = last }) p ≢ none
  unfolding encode_and_end
  encode_and_end-total (chunked fields) last p h =
      let (ds, s, z) = new_chunk_size-IsSize (Base.length p) h in λ e. ground (arith, z, e)
  encode_and_end-total (Encode.length n) last p h = elim (Bool-cases (Base.length p == n)) [
    | inl q ↦ rw q (λ e. cc)
    | inr q ↦ elim (Bool-cases (ltb n (Base.length p))) [
      | inl y ↦ rw (q, y) (λ e. cc)
      | inr y ↦ rw (q, y) (λ e. cc)
    ]
  ]

  -- The first of the items of a map has a name.
  abbrev pub StartsNamed : List (Option HeaderName × HeaderValue) → Type 0
  StartsNamed [] = Unit
  StartsNamed ((some n, v) ∷ items) = Unit
  StartsNamed ((none, v) ∷ items) = ⊥

  filter_trailers-named :
      (allowed : List HeaderName) (n : HeaderName) (items : List (Option HeaderName × HeaderValue))
      (m : HeaderMap)
      → filter_trailers http allowed (some n) items m ≢ none
  unfolding filter_trailers
  filter_trailers-named allowed n [] m = λ e. cc
  filter_trailers-named allowed n ((some k, v) ∷ items) m =
      elim (Bool-cases (Encode.contains http allowed k && Encode.is_valid_trailer_field http k)) [
        | inl q ↦ rw (q, filter_trailers) (filter_trailers-named allowed k items _)
        | inr q ↦ rw (q, filter_trailers) (filter_trailers-named allowed k items m)
      ]
  filter_trailers-named allowed n ((none, v) ∷ items) m =
      elim (Bool-cases (Encode.contains http allowed n && Encode.is_valid_trailer_field http n)) [
        | inl q ↦ rw (q, filter_trailers) (filter_trailers-named allowed n items _)
        | inr q ↦ rw (q, filter_trailers) (filter_trailers-named allowed n items m)
      ]

  filter_trailers-total :
      (allowed : List HeaderName) (items : List (Option HeaderName × HeaderValue)) (m : HeaderMap)
      → StartsNamed items
      → filter_trailers http allowed none items m ≢ none
  unfolding filter_trailers
  filter_trailers-total allowed [] m h = λ e. cc
  filter_trailers-total allowed ((some k, v) ∷ items) m h =
      filter_trailers-named allowed k ((some k, v) ∷ items) m
  filter_trailers-total allowed ((none, v) ∷ items) m h = absurd h

  pub encode_trailers-total :
      (k : Kind http) (last : Bool) (m : HeaderMap)
      → StartsNamed (into_items m)
      → encode_trailers http (record { kind = k; is_last = last }) m ≢ no_name
  unfolding encode_trailers Encode.trailers_kind
  encode_trailers-total (chunked none) last m h = λ e. cc
  encode_trailers-total (Encode.length n) last m h = λ e. cc
  encode_trailers-total (chunked (some allowed)) last m h =
      go _ (filter_trailers-total allowed (into_items m) empty h)
    where
      of_bytes : (b : Bytes) → trailers_of http b ≢ no_name
      of_bytes [] = λ e. cc
      of_bytes (b ∷ bs) = λ e. cc

      go :
          (x : Option HeaderMap)
          → x ≢ none
          → (elim x [
            | none ↦ no_name
            | some m' ↦ trailers_of http (Encode.write_headers http (iter m'))
          ])
            ≢ no_name
      go none y = absurd (y refl)
      go (some m') y = of_bytes (Encode.write_headers http (iter m'))
