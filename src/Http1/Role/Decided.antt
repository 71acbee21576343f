-- ===== src/Http1/Role/Decided.antt =====
-- `Client::decoder` next to the rules of RFC 7230.
use hwire.Base.{
  ap, Bytes, ◌∷◌, ◌++◌, ℕ, ◌≤◌, ◌<◌, ◌≡◌, ◌≢◌, ◌⊎◌, inl, inr, refl, sym, ◌∙◌, Bool, true, false,
  Bool-cases, Option, none, some, List, [], arith,
}
use hwire.HttpCrate.{KnownMethod, content_length, transfer_encoding}
use hwire.Body.Length.{DecodedLength, max_len, checked_new, zero}
use hwire.Http1.Headers.{
  value_is_chunked, text_is_chunked, last_value, is_chunked, content_length_parse_all,
  content_length_parse_all_values, transfer_encoding_is_chunked,
}
use hwire.Http1.Headers.ContentLength.{content_length_parse_all_values-AllValues}
use hwire.Http1.State.{Outside, Version, http_10}
use hwire.Http1.Transaction.{MessageHead}
use hwire.Http1.Role.Decoder.{
  switching, skipped, bodiless, ordinary, status_kind, is_success, is_10, contains_key, by_method,
  by_coding, by_length, by_headers, or_headers, by_status, decoder,
}
use hwire.Http1.Role.Rules.{
  Answers, HasBody, IsCoded, Says, EndsInChunked, Decides, lengths, upgraded, interim, no_content,
  to_head, tunnel, in_chunks, coded_until_close, sized, bad_length, until_close, coded_in_10,
  over_long,
}

module _ (out : Outside) where
  open out use {http, Method, is_method}

  -- The last of some values
  last_value-append :
      (vs : List http.HeaderValue) (v : http.HeaderValue) → last_value http (vs ++ v ∷ []) ≡ some v
  last_value-append [] v = refl
  last_value-append (u ∷ []) v = refl
  last_value-append (u ∷ (w ∷ vs)) v = last_value-append (w ∷ vs) v

  last_value-split :
      (vs : List http.HeaderValue) (v : http.HeaderValue)
      → last_value http vs ≡ some v
      → (before : List http.HeaderValue) × (vs ≡ before ++ v ∷ [])
  last_value-split [] v e = absurd (cc)
  last_value-split (u ∷ []) v e = let z : u ≡ v = cc in ([], ap (λ x. x ∷ []) z)
  last_value-split (u ∷ (w ∷ vs)) v e =
      let (before, z) = last_value-split (w ∷ vs) v e in (u ∷ before, ap (λ x. u ∷ x) z)

  chunked-EndsInChunked :
      (inc : MessageHead out ℕ)
      → transfer_encoding_is_chunked http inc.headers ≡ true
      → EndsInChunked out inc
  unfolding is_chunked
  chunked-EndsInChunked inc e = of_last (last_value http values) refl e
    where
      values : List http.HeaderValue
      values = http.get_all inc.headers (http.known transfer_encoding)

      of_text :
          (v : http.HeaderValue) (o : Option Bytes)
          → last_value http values ≡ some v
          → http.to_str v ≡ o
          → text_is_chunked http o ≡ true
          → EndsInChunked out inc
      of_text v none q t z = absurd (cc)
      of_text v (some s) q t z =
          let (before, split) = last_value-split values v q in
          record {
            before = before;
            last = v;
            is_last = split;
            text = s;
            has_text = t;
            final_coding = z;
          }

      of_last :
          (o : Option http.HeaderValue)
          → last_value http values ≡ o
          → value_is_chunked http o ≡ true
          → EndsInChunked out inc
      of_last none q z = absurd (cc)
      of_last (some v) q z = of_text v (http.to_str v) q refl z

  EndsInChunked-chunked :
      (inc : MessageHead out ℕ)
      → EndsInChunked out inc
      → transfer_encoding_is_chunked http inc.headers ≡ true
  unfolding is_chunked
  EndsInChunked-chunked inc c =
      ap (λ vs. value_is_chunked http (last_value http vs)) c.is_last
      ∙ ap (value_is_chunked http) (last_value-append c.before c.last)
      ∙ ap (text_is_chunked http) c.has_text
      ∙ c.final_coding

  is_10-eq : (v : Version) → is_10 v ≡ true → v ≡ http_10
  is_10-eq http_10 e = refl
  is_10-eq Version.http_09 e = absurd (cc)
  is_10-eq Version.http_11 e = absurd (cc)
  is_10-eq Version.http_2 e = absurd (cc)
  is_10-eq Version.http_3 e = absurd (cc)

  is_10-ne : (v : Version) → is_10 v ≡ false → v ≢ http_10
  is_10-ne v e q = let z : is_10 v ≡ true = rw q refl in cc

  not_chunked :
      (inc : MessageHead out ℕ)
      → transfer_encoding_is_chunked http inc.headers ≡ false
      → EndsInChunked out inc
      → ⊥
  not_chunked inc k c = let z = EndsInChunked-chunked inc c in cc

  by_coding-Decides :
      (inc : MessageHead out ℕ) (method : Option Method)
      → IsCoded out inc method true
      → Decides out inc method (by_coding out inc.version inc.headers)
  unfolding by_coding
  by_coding-Decides inc method c = elim (Bool-cases (is_10 inc.version)) [
    | inl q ↦ rw q (inr (coded_in_10 c (is_10-eq inc.version q)))
    | inr q ↦ elim (Bool-cases (transfer_encoding_is_chunked http inc.headers)) [
      | inl k ↦ rw (q, k) (inl (in_chunks c (is_10-ne inc.version q) (chunked-EndsInChunked inc k)))
      | inr k ↦ rw (q, k) (inl (coded_until_close c (is_10-ne inc.version q) (not_chunked inc k)))
    ]
  ]

  says :
      (inc : MessageHead out ℕ) (n : ℕ)
      → content_length_parse_all http inc.headers ≡ some n
      → Says out inc n
  unfolding content_length_parse_all_values
  says inc n e =
      let (to, from) = content_length_parse_all_values-AllValues http (lengths out inc) n in
      let (ne, all) = to e in record { some_value = ne; values = all }

  Says-none :
      (inc : MessageHead out ℕ)
      → content_length_parse_all http inc.headers ≡ none
      → (n : ℕ) → Says out inc n
      → ⊥
  unfolding content_length_parse_all_values
  Says-none inc e n s =
      let (to, from) = content_length_parse_all_values-AllValues http (lengths out inc) n in
      let z : ◌≡◌ {A = Option ℕ} none (some n) = sym e ∙ from (s.some_value, s.values) in cc

  checked_new-cases :
      (n : ℕ)
      → ((n ≤ max_len) × (checked_new n ≡ some (record { value = n })))
        ⊎ ((max_len < n) × (checked_new n ≡ none))
  unfolding checked_new
  checked_new-cases n = ground arith

  by_length-Decides :
      (inc : MessageHead out ℕ) (method : Option Method) (len : Option ℕ) (present : Bool)
      → IsCoded out inc method false
      → content_length_parse_all http inc.headers ≡ len
      → contains_key out inc.headers content_length ≡ present
      → Decides out inc method (by_length out len present)
  unfolding by_length
  by_length-Decides inc method none true c e k = inl (bad_length c (Says-none inc e) k)
  by_length-Decides inc method none false c e k = inl (until_close c (Says-none inc e) k)
  by_length-Decides inc method (some n) present c e k = elim (checked_new-cases n) [
    | inl (h, q) ↦ rw q (inl (sized c n (says inc n e) h))
    | inr (h, q) ↦ rw q (inr (over_long c n (says inc n e) h))
  ]

  by_headers-Decides :
      (inc : MessageHead out ℕ) (method : Option Method)
      → HasBody out inc method
      → Decides out inc method (by_headers out inc.version inc.headers)
  unfolding by_headers
  by_headers-Decides inc method b =
      elim (Bool-cases (contains_key out inc.headers transfer_encoding)) [
        | inl q ↦ rw q (by_coding-Decides inc method (record { has_body = b; coding = q }))
        | inr q ↦
            rw q (by_length-Decides inc method _ _ (record { has_body = b; coding = q }) refl refl)
      ]

  status_kind-cases :
      (s : ℕ)
      → ((status_kind s ≡ switching) × (s ≡ 101))
        ⊎ (((status_kind s ≡ skipped) × ((100 ≤ s) × (s ≤ 199) × (s ≢ 101)))
            ⊎ (((status_kind s ≡ bodiless) × ((s ≡ 204) ⊎ (s ≡ 304)))
                ⊎ ((status_kind s ≡ ordinary)
                    × (((s < 100) ⊎ (199 < s)) × ((s ≢ 204) × (s ≢ 304))))))
  unfolding status_kind
  status_kind-cases s = ground arith

  data ByMethod (s : ℕ) : Option Method → Option (DecodedLength × Bool) → Type 0 where
    head_request :
        {m : Method}
        → is_method m KnownMethod.head ≡ true
        → ByMethod s (some m) (some (zero, false))
    connected :
        {m : Method}
        → is_method m KnownMethod.head ≡ false
        → is_method m KnownMethod.connect ≡ true
        → (200 ≤ s) × (s ≤ 299)
        → ByMethod s (some m) (some (zero, true))
    other :
        {method : Option Method}
        → (Answers out KnownMethod.head method → ⊥)
        → (Answers out KnownMethod.connect method → (200 ≤ s) × (s ≤ 299) → ⊥)
        → ByMethod s method none

  is_success-cases :
      (s : ℕ)
      → ((is_success s ≡ true) × ((200 ≤ s) × (s ≤ 299)))
        ⊎ ((is_success s ≡ false) × ((200 ≤ s) × (s ≤ 299) → ⊥))
  unfolding is_success
  is_success-cases s = ground arith

  by_method-ByMethod : (s : ℕ) (method : Option Method) → ByMethod s method (by_method out s method)
  unfolding by_method
  by_method-ByMethod s none = other (λ z. z) (λ z. absurd z)
  by_method-ByMethod s (some m) = elim (Bool-cases (is_method m KnownMethod.head)) [
    | inl h ↦ rw h (head_request h)
    | inr h ↦ elim (Bool-cases (is_method m KnownMethod.connect)) [
      | inr k ↦ rw (h, k) (other (λ z. cc) (λ z. absurd (cc)))
      | inl k ↦ elim (is_success-cases s) [
        | inl (q, range) ↦ rw (h, k, q) (connected h k range)
        | inr (q, range) ↦ rw (h, k, q) (other (λ z. cc) (λ z. range))
      ]
    ]
  ]

  or_headers-Decides :
      (inc : MessageHead out ℕ) (method : Option Method) {f : Option (DecodedLength × Bool)}
      → (inc.subject < 100) ⊎ (199 < inc.subject)
      → (inc.subject ≢ 204) × (inc.subject ≢ 304)
      → ByMethod inc.subject method f
      → Decides out inc method (or_headers out f inc)
  unfolding or_headers
  or_headers-Decides inc method final content (head_request h) = inl (to_head final h)
  or_headers-Decides inc method final content (connected h k (low, high)) =
      inl (tunnel (record { final = final; has_content = content; not_head = λ z. cc }) k low high)
  or_headers-Decides inc method final content (other h k) = by_headers-Decides inc method (record {
    may = record { final = final; has_content = content; not_head = h };
    no_tunnel = k;
  })

  pub decoder-Decides :
      (inc : MessageHead out ℕ) (method : Option Method)
      → Decides out inc method (decoder out inc method)
  unfolding decoder by_status
  decoder-Decides inc method = elim (status_kind-cases inc.subject) [
    | inl (q, e) ↦ rw q (inl (upgraded e))
    | inr (inl (q, (low, high, ne))) ↦ rw q (inl (interim low high ne))
    | inr (inr (inl (q, e))) ↦ rw q (inl (no_content e))
    | inr (inr (inr (q, (final, content)))) ↦
        rw q (or_headers-Decides inc method final content (by_method-ByMethod inc.subject method))
  ]
