-- ===== src/Http1/Role/Rules.antt =====
-- How RFC 7230, section 3.3.3, delimits the body of a response, and what a client refuses beyond it.
use hwire.Base.{
  codes, Bytes, ◌∷◌, ◌++◌, ℕ, ◌≤◌, ◌<◌, ◌≡◌, ◌≢◌, ◌⊎◌, inl, inr, Bool, true, false, Option, none,
  some, List, [],
}
use hwire.HttpCrate.{KnownMethod, content_length, transfer_encoding}
use hwire.Error.{header, too_large, content_length_invalid, transfer_encoding_unexpected}
use hwire.Body.Length.{max_len, chunked, close_delimited, zero}
use hwire.Http1.Headers.{after_last_comma, trim, eq_ignore_ascii_case}
use hwire.Http1.Headers.ContentLength.{AllValues}
use hwire.Http1.State.{Outside, http_10}
use hwire.Http1.Transaction.{MessageHead}
use hwire.Http1.Role.Decoder.{Framed, body_of, contains_key}

module _ (out : Outside) where
  open out use {http, Method, is_method}

  abbrev pub Answers : KnownMethod → Option Method → Type 0
  Answers k none = ⊥
  Answers k (some m) = is_method m k ≡ true

  -- The values of a field
  abbrev pub lengths : MessageHead out ℕ → List http.HeaderValue
  lengths inc = http.get_all inc.headers (http.known content_length)

  -- A final response, other than 204 and 304, to a request that is not `HEAD`
  pub record MayHaveBody (s : ℕ) (method : Option Method) : Type 0 where
    pub final : (s < 100) ⊎ (199 < s)
    pub has_content : (s ≢ 204) × (s ≢ 304)
    pub not_head : Answers KnownMethod.head method → ⊥

  pub record HasBody (inc : MessageHead out ℕ) (method : Option Method) : Type 0 where
    pub may : MayHaveBody inc.subject method
    pub no_tunnel :
        Answers KnownMethod.connect method → (200 ≤ inc.subject) × (inc.subject ≤ 299) → ⊥

  pub record IsCoded (inc : MessageHead out ℕ) (method : Option Method) (coded : Bool)
      : Type 0 where
    pub has_body : HasBody inc method
    pub coding : contains_key out inc.headers transfer_encoding ≡ coded

  -- Every value of `Content-Length` is a list of one and the same number.
  pub record Says (inc : MessageHead out ℕ) (n : ℕ) : Type 0 where
    pub some_value : lengths inc ≢ []
    pub values : AllValues http n (lengths inc)

  -- The text of the last value of `Transfer-Encoding` ends in the coding `chunked`.
  pub record EndsInChunked (inc : MessageHead out ℕ) : Type 0 where
    pub before : List http.HeaderValue
    pub last : http.HeaderValue
    pub is_last : http.get_all inc.headers (http.known transfer_encoding) ≡ before ++ last ∷ []
    pub text : Bytes
    pub has_text : http.to_str last ≡ some text
    pub final_coding : eq_ignore_ascii_case (trim (after_last_comma text)) (codes "chunked") ≡ true

  -- The rules of section 3.3.3, for a message that is not refused
  pub data Delimits (inc : MessageHead out ℕ) (method : Option Method) : Framed → Type 0 where
    upgraded : inc.subject ≡ 101 → Delimits inc method (body_of zero true)
    interim :
        100 ≤ inc.subject → inc.subject ≤ 199 → inc.subject ≢ 101 → Delimits inc method (inr none)
    no_content :
        (inc.subject ≡ 204) ⊎ (inc.subject ≡ 304) → Delimits inc method (body_of zero false)
    to_head :
        (inc.subject < 100) ⊎ (199 < inc.subject)
        → Answers KnownMethod.head method
        → Delimits inc method (body_of zero false)
    tunnel :
        MayHaveBody inc.subject method
        → Answers KnownMethod.connect method
        → 200 ≤ inc.subject
        → inc.subject ≤ 299
        → Delimits inc method (body_of zero true)
    in_chunks :
        IsCoded inc method true
        → inc.version ≢ http_10
        → EndsInChunked inc
        → Delimits inc method (body_of chunked false)
    coded_until_close :
        IsCoded inc method true
        → inc.version ≢ http_10
        → (EndsInChunked inc → ⊥)
        → Delimits inc method (body_of close_delimited false)
    sized :
        IsCoded inc method false
        → (n : ℕ) → Says inc n
        → n ≤ max_len
        → Delimits inc method (body_of (record { value = n }) false)
    bad_length :
        IsCoded inc method false
        → ((n : ℕ) → Says inc n → ⊥)
        → contains_key out inc.headers content_length ≡ true
        → Delimits inc method (inl (header content_length_invalid))
    until_close :
        IsCoded inc method false
        → ((n : ℕ) → Says inc n → ⊥)
        → contains_key out inc.headers content_length ≡ false
        → Delimits inc method (body_of close_delimited false)

  -- What a client refuses although the section gives it a body: a coding in HTTP/1.0, and a length that
  -- is no `DecodedLength`
  pub data Refuses (inc : MessageHead out ℕ) (method : Option Method) : Framed → Type 0 where
    coded_in_10 :
        IsCoded inc method true
        → inc.version ≡ http_10
        → Refuses inc method (inl (header transfer_encoding_unexpected))
    over_long :
        IsCoded inc method false
        → (n : ℕ) → Says inc n
        → max_len < n
        → Refuses inc method (inl too_large)

  abbrev pub Decides : MessageHead out ℕ → Option Method → Framed → Type 0
  Decides inc method f = Delimits inc method f ⊎ Refuses inc method f
