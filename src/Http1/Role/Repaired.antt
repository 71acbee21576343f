-- ===== src/Http1/Role/Repaired.antt =====
-- How `set_length` repairs a `Transfer-Encoding` that does not end in `chunked`, and that it does not
-- panic.
use hwire.Base.{
  ℕ, ◌≡◌, ◌≢◌, ◌⊎◌, inl, inr, refl, ap, subst, true, false, Bool-cases, Option-cases, Option, none,
  some, [], ◌++◌, Bytes, codes,
}
use hwire.HttpCrate.{content_length, transfer_encoding}
use hwire.Http1.Headers
use hwire.Http1.Headers.{
  is_space, trim_end, trim_start, split_commas, onto_first, last_part, after_last_comma,
  text_is_chunked, value_is_chunked, trim, content_length_parse_all,
  content_length_parse_all_values, last_value, eq_ignore_ascii_case,
}
use hwire.Http1.Headers.MapLaws.{MapLaws}
use hwire.Http1.Headers.Commas.{after_last_comma-append}
use hwire.Http1.State.{Outside, Version}
use hwire.Http1.Transaction.{BodyLength}
use hwire.Http1.Role.Decoder.{contains_key}
use hwire.Http1.Role.Length.{
  te_name, add_chunked, chunked_onto, put_back, coded, insert_chunked, respect_coding, with_chunked,
  set_length, is_11,
}

module _ (out : Outside) (laws : MapLaws out.http) where
  open out use {http, Method}
  open http use {HeaderName, HeaderValue, HeaderMap, get, get_all, to_str, value_bytes}

  abbrev pub cl_name : HeaderName
  cl_name = http.known content_length

  -- The last value of `Transfer-Encoding` ends in the coding `chunked`, read from its bytes.
  pub record EndsInChunked (headers : HeaderMap) : Type 0 where
    pub last : HeaderValue
    pub is_last : last_value http (get_all headers (te_name out)) ≡ some last
    pub ends : text_is_chunked http (some (value_bytes last)) ≡ true

  -- A key is contained where it has a value.
  pub key-values :
      (m : HeaderMap)
      → ((contains_key out m transfer_encoding ≡ true) × (get_all m (te_name out) ≢ []))
        ⊎ ((contains_key out m transfer_encoding ≡ false) × (get_all m (te_name out) ≡ []))
  unfolding contains_key
  key-values m = elim (Option-cases (get m (te_name out))) [
    | inl q ↦ inr (rw q refl, laws.get_none m (te_name out) q)
    | inr (v, q) ↦ inl (rw q refl, laws.get_some m (te_name out) v q)
  ]

  pub inserted_ends : (m : HeaderMap) → EndsInChunked (insert_chunked out m)
  inserted_ends m = record {
    last = http.from_static (codes "chunked");
    is_last =
        ap (last_value http)
          (laws.get_all-insert m (te_name out) (http.from_static (codes "chunked")));
    ends = rw laws.bytes-from_static refl;
  }

  chunked_values :
      (m : HeaderMap) → Headers.is_chunked http (get_all m (te_name out)) ≡ true → EndsInChunked m
  unfolding Headers.is_chunked
  chunked_values m e = go (last_value http (get_all m (te_name out))) refl e
    where
      text :
          (v : HeaderValue) (o : Option Bytes)
          → to_str v ≡ o
          → text_is_chunked http o ≡ true
          → text_is_chunked http (some (value_bytes v)) ≡ true
      text v none q z = absurd (cc)
      text v (some s) q z =
          subst (λ b. text_is_chunked http (some b) ≡ true) (laws.to_str-bytes v s q) z

      go :
          (o : Option HeaderValue)
          → last_value http (get_all m (te_name out)) ≡ o
          → value_is_chunked http o ≡ true
          → EndsInChunked m
      go none q z = absurd (cc)
      go (some v) q z = record { last = v; is_last = q; ends = text v (to_str v) refl z }

  ends_after_comma : (line : Bytes) → text_is_chunked http (some (line ++ codes ", chunked")) ≡ true
  ends_after_comma line = rw (after_last_comma-append line (codes " chunked")) refl

  -- The headers of a map, with the encoding repaired
  pub record Repaired (m m' : HeaderMap) : Type 0 where
    pub ends : EndsInChunked m'
    pub same : get_all m' cl_name ≡ get_all m cl_name

  abbrev pub RepairedIn : HeaderMap → Option HeaderMap → Type 0
  RepairedIn m none = ⊥
  RepairedIn m (some m') = Repaired m m'

  put_back-Repaired :
      (m : HeaderMap) (line : HeaderValue) (o : Option HeaderValue)
      → get_all m (te_name out) ≢ []
      → http.value_from_bytes (value_bytes line ++ codes ", chunked") ≡ o
      → RepairedIn m (put_back out m o)
  put_back-Repaired m line none h e = absurd (laws.longer_is_valid line e)
  put_back-Repaired m line (some w) h e = record {
    ends = record {
      last = w;
      is_last = laws.last-set_last m (te_name out) w h;
      ends = rw (laws.bytes-from_bytes _ w e) (ends_after_comma (value_bytes line));
    };
    same = laws.set_last_other m (te_name out) cl_name w laws.apart;
  }

  chunked_onto-Repaired :
      (m : HeaderMap) (o : Option HeaderValue)
      → get_all m (te_name out) ≢ []
      → RepairedIn m (chunked_onto out m o)
  chunked_onto-Repaired m none h = record {
    ends = inserted_ends m;
    same = laws.insert_other m (te_name out) cl_name _ laws.apart;
  }
  chunked_onto-Repaired m (some line) h = put_back-Repaired m line _ h refl

  pub respect_coding-Repaired :
      (m : HeaderMap) → get_all m (te_name out) ≢ [] → RepairedIn m (respect_coding out m)
  unfolding respect_coding add_chunked
  respect_coding-Repaired m h =
      elim (Bool-cases (Headers.is_chunked http (get_all m (te_name out)))) [
        | inl q ↦ rw q (record { ends = chunked_values m q; same = refl })
        | inr q ↦ rw q (chunked_onto-Repaired m _ h)
      ]

  -- The code panics nowhere on the way, whatever `Content-Length` the user sets.
  coded-total :
      (m : HeaderMap) (existing : Option ℕ) (o : Option HeaderMap)
      → RepairedIn m o
      → coded out existing o ≢ none
  unfolding coded
  coded-total m existing none r e = r
  coded-total m existing (some m') r e = cc

  with_chunked-total :
      (method : Method) (m : HeaderMap) (existing : Option ℕ) (body : BodyLength)
      → with_chunked out method m existing body ≢ none
  unfolding with_chunked
  with_chunked-total method m existing body = elim (key-values m) [
    | inl (q, ne) ↦ rw q (coded-total m existing _ (respect_coding-Repaired m ne))
    | inr (q, e) ↦ rw q (λ z. cc)
  ]

  pub set_length-total :
      (v : Version) (method : Method) (m : HeaderMap) (body : Option BodyLength)
      → set_length out v method m body ≢ none
  unfolding set_length
  set_length-total v method m none = λ e. cc
  set_length-total v method m (some body) = elim (Bool-cases (is_11 v)) [
    | inl q ↦ rw q (with_chunked-total method m _ body)
    | inr q ↦ rw q (λ z. cc)
  ]
