-- ===== src/Http1/Role/Framing.antt =====
-- The headers and the encoder that `Client::set_length` leaves for a request with a body.
use hwire.Base.{
  ℕ, ◌≤◌, ◌≡◌, ◌⊎◌, inl, inr, refl, ap, ◌∙◌, true, Bool-cases, Option, none, some, [], ◌∷◌, u64_max,
}
use hwire.HttpCrate.{trailer}
use hwire.Http1.Encode.{
  Encoder, new_chunked, new_length, is_chunked, into_chunked_with_trailing_fields,
}
use hwire.Http1.Headers.{content_length_parse_all, content_length_parse_all_values, last_value}
use hwire.Http1.Headers.ContentLength.{content_length_parse_all_values-AllValues}
use hwire.Http1.Headers.MapLaws.{MapLaws}
use hwire.Http1.Headers.Numbers.{number-AllParts}
use hwire.Http1.State.{Outside, Version}
use hwire.Http1.Transaction.{BodyLength, known, unknown}
use hwire.Http1.Role.Length.{
  Sized, te_name, set_content_length, trailer_fields, with_fields, allow_trailers, without_chunked,
  coded, seldom_has_body, insert_chunked, uncoded, with_chunked, set_length, is_11,
}
use hwire.Http1.Role.Repaired.{
  cl_name, EndsInChunked, key-values, inserted_ends, RepairedIn, respect_coding-Repaired,
}

module _ (out : Outside) (laws : MapLaws out.http) where
  open out use {http, Method}
  open http use {HeaderName, HeaderValue, HeaderMap, get, get_all, to_str, value_bytes}

  abbrev lengths_of : HeaderMap → Option ℕ
  lengths_of headers = content_length_parse_all http headers

  -- The headers promise the recipient the body that the encoder writes; where they are to have no
  -- length, they have no field `Content-Length` at all.
  pub data Agree (headers : HeaderMap) : Encoder http → Type 0 where
    in_chunks :
        {e : Encoder http}
        → is_chunked http e ≡ true
        → EndsInChunked out laws headers
        → get_all headers (cl_name out laws) ≡ []
        → Agree headers e
    of_length :
        (n : ℕ)
        → get_all headers (te_name out) ≡ []
        → content_length_parse_all http headers ≡ some n
        → Agree headers (new_length http n)
    no_body :
        get_all headers (te_name out) ≡ []
        → get_all headers (cl_name out laws) ≡ []
        → Agree headers (new_length http 0)

  -- The user sets no `Content-Length`, or values that are one number.
  abbrev pub ReadableLength : HeaderMap → Type 0
  ReadableLength m = (get_all m (cl_name out laws) ≡ []) ⊎ ((n : ℕ) × (lengths_of m ≡ some n))

  abbrev pub AgreeIn : Option (Sized out) → Type 0
  AgreeIn none = ⊥
  AgreeIn (some (headers, e)) = Agree headers e

  abbrev pub Fits : BodyLength → Type 0
  Fits (known n) = n ≤ u64_max
  Fits unknown = Unit

  no_field :
      (m : HeaderMap) → ReadableLength m → lengths_of m ≡ none → get_all m (cl_name out laws) ≡ []
  no_field m (inl e) q = e
  no_field m (inr (n, e)) q = absurd (cc)

  -- Maps with the same values of `Content-Length` have the same length.
  same_length :
      (m m' : HeaderMap)
      → get_all m' (cl_name out laws) ≡ get_all m (cl_name out laws)
      → lengths_of m' ≡ lengths_of m
  unfolding content_length_parse_all_values
  same_length m m' e = ap (content_length_parse_all_values http) e

  length-inserted :
      (m : HeaderMap) (n : ℕ)
      → n ≤ u64_max
      → lengths_of (http.insert m (cl_name out laws) (http.from_u64 n)) ≡ some n
  unfolding content_length_parse_all_values
  length-inserted m n h =
      let (s, (text, i)) = laws.number n h in
      let (to, from) = content_length_parse_all_values-AllValues http (http.from_u64 n ∷ []) n in
      ap (content_length_parse_all_values http)
        (laws.get_all-insert m (cl_name out laws) (http.from_u64 n))
      ∙ from ((λ z. cc), (rw text (number-AllParts s n i), tt))

  set_content_length-Agree :
      (m : HeaderMap) (n : ℕ)
      → n ≤ u64_max
      → get_all m (te_name out) ≡ []
      → AgreeIn (some (set_content_length out m n))
  unfolding set_content_length
  set_content_length-Agree m n h e =
      of_length n
        (laws.insert_other m (cl_name out laws) (te_name out) (http.from_u64 n) laws.apart_back ∙ e)
        (length-inserted m n h)

  without_chunked-Agree :
      (m : HeaderMap) (existing : Option ℕ) (body : BodyLength)
      → Fits body
      → get_all m (te_name out) ≡ []
      → lengths_of m ≡ existing
      → (existing ≡ none → get_all m (cl_name out laws) ≡ [])
      → AgreeIn (some (without_chunked out m existing body))
  unfolding without_chunked
  without_chunked-Agree m (some n) body h e k f = of_length n e k
  without_chunked-Agree m none (known n) h e k f = set_content_length-Agree m n h e
  without_chunked-Agree m none unknown h e k f = no_body e (f refl)

  same_ending :
      (m m' : HeaderMap)
      → get_all m' (te_name out) ≡ get_all m (te_name out)
      → EndsInChunked out laws m
      → EndsInChunked out laws m'
  same_ending m m' e c = record {
    last = c.last;
    is_last = ap (last_value http) e ∙ c.is_last;
    ends = c.ends;
  }

  is_chunked-allow_trailers :
      (m : HeaderMap) → is_chunked http (allow_trailers out m (new_chunked http)) ≡ true
  unfolding allow_trailers into_chunked_with_trailing_fields
  is_chunked-allow_trailers m =
      elim (trailer_fields out (get_all m (http.known trailer)))
        as (λ ns. is_chunked http (with_fields out (new_chunked http) ns) ≡ true) [
          | [] ↦ refl
          | n ∷ ns ↦ refl
        ]

  coded-Agree :
      (m : HeaderMap) (existing : Option ℕ)
      → EndsInChunked out laws m
      → (existing ≡ none → get_all m (cl_name out laws) ≡ [])
      → AgreeIn (coded out existing (some m))
  unfolding coded
  coded-Agree m (some n) c f =
      in_chunks (is_chunked-allow_trailers m)
        (same_ending m (http.remove m (cl_name out laws))
          (laws.remove_other m (cl_name out laws) (te_name out) laws.apart_back) c)
        (laws.get_all-remove m (cl_name out laws))
  coded-Agree m none c f = in_chunks (is_chunked-allow_trailers m) c (f refl)

  uncoded-Agree :
      (method : Method) (m : HeaderMap) (existing : Option ℕ) (body : BodyLength)
      → Fits body
      → get_all m (te_name out) ≡ []
      → lengths_of m ≡ existing
      → (existing ≡ none → get_all m (cl_name out laws) ≡ [])
      → AgreeIn (some (uncoded out method m existing body))
  unfolding uncoded
  uncoded-Agree method m (some n) body h e k f = of_length n e k
  uncoded-Agree method m none (known n) h e k f = set_content_length-Agree m n h e
  uncoded-Agree method m none unknown h e k f = elim (Bool-cases (seldom_has_body out method)) [
    | inl q ↦ rw q (no_body e (f refl))
    | inr q ↦ rw q (
        in_chunks (is_chunked-allow_trailers (insert_chunked out m)) (inserted_ends out laws m)
          (laws.insert_other m (te_name out) (cl_name out laws) _ laws.apart ∙ f refl))
  ]

  repaired-Agree :
      (m : HeaderMap) (o : Option HeaderMap)
      → ReadableLength m
      → RepairedIn out laws m o
      → AgreeIn (coded out (lengths_of m) o)
  repaired-Agree m none u r = absurd r
  repaired-Agree m (some m') u r =
      coded-Agree m' (lengths_of m) r.ends (λ q. r.same ∙ no_field m u q)

  with_chunked-Agree :
      (method : Method) (m : HeaderMap) (body : BodyLength)
      → Fits body
      → ReadableLength m
      → AgreeIn (with_chunked out method m (lengths_of m) body)
  unfolding with_chunked
  with_chunked-Agree method m body h u = elim (key-values out laws m) [
    | inl (q, ne) ↦ rw q (repaired-Agree m _ u (respect_coding-Repaired out laws m ne))
    | inr (q, e) ↦ rw q (uncoded-Agree method m _ body h e refl (no_field m u))
  ]

  -- For a request with a body, whose user sets no `Content-Length` or values that are one number:
  -- `set_length` does not panic, and the headers that it leaves agree with the encoder that it
  -- returns. A chunked encoder goes with a `Transfer-Encoding` that ends in `chunked` and no field
  -- `Content-Length`, an encoder of a length with that `Content-Length` and no coding, and an encoder
  -- of no bytes may go with neither field. The header maps are to behave as `http` documents it.
  pub set_length-Agree :
      (v : Version) (method : Method) (m : HeaderMap) (body : BodyLength)
      → Fits body
      → ReadableLength m
      → AgreeIn (set_length out v method m (some body))
  unfolding set_length
  set_length-Agree v method m body h u = elim (Bool-cases (is_11 v)) [
    | inl q ↦ rw q (with_chunked-Agree method m body h u)
    | inr q ↦
        let same = laws.remove_other m (te_name out) (cl_name out laws) laws.apart in
        rw q (
          without_chunked-Agree (http.remove m (te_name out)) (lengths_of m) body h
            (laws.get_all-remove m (te_name out)) (same_length m (http.remove m (te_name out)) same)
            (λ q. same ∙ no_field m u q))
  ]
