-- ===== src/Http1/Encode/Framing.antt =====
-- What a sequence of writes puts on the wire.
use hwire.Base
use hwire.Base.{
  ℕ, zero, suc, ◌+◌, ◌-◌, ◌≤◌, ◌<◌, ◌≡◌, ◌≢◌, refl, sym, ap, subst, ◌∙◌, Bool, true, false, not,
  ◌&&◌, Bool-cases, inl, inr, Option, none, some, List, [], ◌∷◌, ◌++◌, append-nil, append_assoc,
  Bytes, concat, length-append, take, ltb, ltb→lt, ◌==◌, if◌then◌else◌, codes, u64_mod, sub_u64,
  sub_u64-eq, arith,
}
use hwire.HttpCrate.{HttpCrate}
use hwire.Http1.Chunked.Grammar.{coded_piece, coded_end, Coded-ChunkedBody, Coded, ChunkedBody}
use hwire.Http1.Encode
use hwire.Http1.Encode.{
  Kind, chunked, Encoder, EncodedBuf, content, new_chunked, new_length, at_end, end_with, not_eof,
  EndResult, end_body, encode, encode_and_end, ChunkSize, new_chunk_size,
}
use hwire.Http1.Encode.Size.{new_chunk_size-IsSize, ge_of_ltb}

-- The pieces that the dispatcher hands over: none is empty, each has a `usize` length.
abbrev pub ArePieces : List Bytes → Type 0
ArePieces [] = Unit
ArePieces (p ∷ ps) = (p ≢ []) × (Base.length p < u64_mod) × ArePieces ps

module _ (http : HttpCrate) where
  abbrev and_then : {A B : Type 0} → Option A → (A → Option B) → Option B
  and_then none f = none
  and_then (some a) f = f a

  abbrev after : Bytes → Option (Encoder http × Bytes) → Option (Encoder http × Bytes)
  after w none = none
  after w (some (e, v)) = some (e, w ++ v)

  -- `encode` for each piece in turn: the encoder that is left, and all bytes of the buffers.
  unfoldable pub encode_all : Encoder http → List Bytes → Option (Encoder http × Bytes)
  encode_all e [] = some (e, [])
  encode_all e (p ∷ ps) = elim (encode http e p) [
    | none ↦ none
    | some (e', buf) ↦ after (content http buf) (encode_all e' ps)
  ]

  abbrev pub ends : EndResult http → Bool
  ends (not_eof n) = false
  ends _ = true

  -- The bytes that `end` adds.
  abbrev pub ending : EndResult http → Bytes
  ending (end_with buf) = content http buf
  ending _ = []

  encode_all-step :
      (e e' : Encoder http) (p : Bytes) (ps : List Bytes) (buf : EncodedBuf http)
      → encode http e p ≡ some (e', buf)
      → encode_all e (p ∷ ps) ≡ after (content http buf) (encode_all e' ps)
  unfolding encode_all
  encode_all-step e e' p ps buf h = rw (h, encode_all)

  encode_chunked :
      (fields : Option (List http.HeaderName)) (last : Bool) (p : Bytes) (c : ChunkSize)
      → new_chunk_size (Base.length p) ≡ some c
      → encode http (record { kind = chunked fields; is_last = last }) p
        ≡ some (record { kind = chunked fields; is_last = last }, Encode.chunk c p (codes "\r\n"))
  unfolding encode
  encode_chunked fields last p c h = ground (arith, h)

  encode_length_over :
      (n : ℕ) (last : Bool) (p : Bytes)
      → n < Base.length p
      → encode http (record { kind = Encode.length n; is_last = last }) p
        ≡ some (record { kind = Encode.length 0; is_last = last }, Encode.limited p n)
  unfolding encode
  encode_length_over n last p h = ground arith

  encode_length_fits :
      (n : ℕ) (last : Bool) (p : Bytes)
      → n < u64_mod
      → Base.length p ≤ n
      → encode http (record { kind = Encode.length n; is_last = last }) p
        ≡ some (record { kind = Encode.length (n - Base.length p); is_last = last }, Encode.exact p)
  unfolding encode
  encode_length_fits n last p h k = ground (arith, sub_u64-eq n (Base.length p))

  record Sent (fields : Option (List http.HeaderName)) (last : Bool) (ps : List Bytes)
      : Type 0 where
    wire : Bytes
    sent :
        encode_all (record { kind = chunked fields; is_last = last }) ps
        ≡ some (record { kind = chunked fields; is_last = last }, wire)
    coded : Coded (wire ++ codes "0\r\n\r\n") ps

  no_pieces : (fields : Option (List http.HeaderName)) (last : Bool) → Sent fields last []
  unfolding encode_all
  no_pieces fields last = record { wire = []; sent = refl; coded = coded_end }

  more_pieces :
      (fields : Option (List http.HeaderName)) (last : Bool) (p : Bytes) (ps : List Bytes)
      → p ≢ []
      → Base.length p < u64_mod
      → Sent fields last ps
      → Sent fields last (p ∷ ps)
  more_pieces fields last p ps ne h s =
      let (digits, size, e) = new_chunk_size-IsSize (Base.length p) h in
      record {
        wire = ((digits ++ codes "\r\n") ++ (p ++ codes "\r\n")) ++ s.wire;
        sent = encode_all-step _ _ p ps _ (encode_chunked fields last p _ e) ∙ rw s.sent;
        coded = simp append_assoc (coded_piece {digits = digits} {piece = p} size ne h s.coded);
      }

  Sent-ArePieces :
      (fields : Option (List http.HeaderName)) (last : Bool) (ps : List Bytes)
      → ArePieces ps
      → Sent fields last ps
  Sent-ArePieces fields last [] h = no_pieces fields last
  Sent-ArePieces fields last (p ∷ ps) h =
      more_pieces fields last p ps h.0 h.1 (Sent-ArePieces fields last ps h.2)

  -- A chunked encoder takes any sequence of pieces without a panic, and what it and `end` write is
  -- one whole body of the grammar, with the pieces joined for its payload and no trailers.
  pub encode_all-ChunkedBody :
      (fields : Option (List http.HeaderName)) (last : Bool) (ps : List Bytes)
      → ArePieces ps
      → let e : Encoder http = record { kind = chunked fields; is_last = last } in
        (wire : Bytes) × (encode_all e ps ≡ some (e, wire))
        × ChunkedBody (wire ++ ending (end_body http e)) (concat ps) (codes "\r\n")
  unfolding end_body
  encode_all-ChunkedBody fields last ps h =
      let s = Sent-ArePieces fields last ps h in (s.wire, s.sent, Coded-ChunkedBody s.coded)

  pub encode_all-Coded :
      (fields : Option (List http.HeaderName)) (last : Bool) (ps : List Bytes)
      → ArePieces ps
      → let e : Encoder http = record { kind = chunked fields; is_last = last } in
        (wire : Bytes) × (encode_all e ps ≡ some (e, wire))
        × Coded (wire ++ ending (end_body http e)) ps
  unfolding end_body
  encode_all-Coded fields last ps h =
      let s = Sent-ArePieces fields last ps h in (s.wire, s.sent, s.coded)

  take-nil : (n : ℕ) → take {A = ℕ} n [] ≡ []
  take-nil zero = refl
  take-nil (suc n) = refl

  take-append :
      (n : ℕ) (p w : Bytes) → Base.length p ≤ n → take n (p ++ w) ≡ p ++ take (n - Base.length p) w
  take-append n [] w h = let e : n ≡ n - 0 = omega arith in rw (← e)
  take-append zero (b ∷ p) w h = absurd (omega arith)
  take-append (suc n) (b ∷ p) w h =
      let e : suc n - suc (Base.length p) ≡ n - Base.length p = omega arith in
      rw e (ap (◌∷◌ b) (take-append n p w (omega arith)))

  take-short : (n : ℕ) (p w : Bytes) → n < Base.length p → take n (p ++ w) ≡ take n p
  take-short n [] w h = absurd (omega arith)
  take-short zero (b ∷ p) w h = refl
  take-short (suc n) (b ∷ p) w h = ap (◌∷◌ b) (take-short n p w (omega arith))

  abbrev sized : Bool → ℕ → Encoder http
  sized last n = record { kind = Encode.length n; is_last = last }

  sized-eq :
      (last : Bool) {a b : ℕ} {w v : Bytes}
      → a ≡ b
      → w ≡ v
      → ◌≡◌ {A = Option (Encoder http × Bytes)} (some (sized last a, w)) (some (sized last b, v))
  sized-eq last p q = λ i. some (sized last (p i), q i)

  encode_all-take :
      (n : ℕ) (last : Bool) (ps : List Bytes)
      → n < u64_mod
      → encode_all (sized last n) ps
        ≡ some (sized last (n - Base.length (concat ps)), take n (concat ps))
  encode_all-take n last [] h =
      unfold encode_all in (let e : n - 0 ≡ n = omega arith in rw (e, take-nil n))
  encode_all-take n last (p ∷ ps) h = elim (Bool-cases (ltb n (Base.length p))) [
    | inl over ↦
        encode_all-step _ _ p ps _ (encode_length_over n last p (ltb→lt _ _ over))
        ∙ ap (after (take n p)) (encode_all-take 0 last ps (omega arith))
        ∙ sized-eq last (omega (arith, length-append p (concat ps), ltb→lt n (Base.length p) over))
            (append-nil (take n p) ∙ sym (take-short n p (concat ps) (ltb→lt _ _ over)))
    | inr fits ↦
        encode_all-step _ _ p ps _ (encode_length_fits n last p h (ge_of_ltb _ _ fits))
        ∙ ap (after p) (encode_all-take (n - Base.length p) last ps (omega arith))
        ∙ sized-eq last (omega (arith, length-append p (concat ps)))
            (sym (take-append n p (concat ps) (ge_of_ltb _ _ fits)))
  ]

  -- A sized encoder writes the pieces in order up to its length and not a byte more, and `end`
  -- succeeds after them exactly when they held at least that many bytes; otherwise it tells how
  -- many are missing.
  pub encode_all-length :
      (n : ℕ) (last : Bool) (ps : List Bytes)
      → n < u64_mod
      → let e = λ (k : ℕ).
        let x : Encoder http = record { kind = Encode.length k; is_last = last } in x in
        let sent = Base.length (concat ps) in
        (encode_all (e n) ps ≡ some (e (n - sent), take n (concat ps)))
        × (n ≤ sent → end_body http (e (n - sent)) ≡ at_end)
        × (sent < n → end_body http (e (n - sent)) ≡ not_eof (n - sent))
  unfolding end_body
  encode_all-length n last ps h =
      (encode_all-take n last ps h, λ a. ground arith, λ a. ground arith)

  pub record Together (e : Encoder http) (p : Bytes) : Type 0 where
    pub left : Encoder http
    pub buf : EncodedBuf http
    pub both : EncodedBuf http
    pub keep : Bool
    pub encodes : encode http e p ≡ some (left, buf)
    pub encodes_and_ends : encode_and_end http e p ≡ some (both, keep)
    pub same_bytes : content http both ≡ content http buf ++ ending (end_body http left)
    pub keeps : keep ≡ (not e.is_last && ends (end_body http left))

  chunked-Together :
      (fields : Option (List http.HeaderName)) (last : Bool) (p : Bytes) (c : ChunkSize)
      → new_chunk_size (Base.length p) ≡ some c
      → Together (record { kind = chunked fields; is_last = last }) p
  unfolding encode encode_and_end end_body
  chunked-Together fields last p c h = record {
    left = record { kind = chunked fields; is_last = last };
    buf = Encode.chunk c p (codes "\r\n");
    both = Encode.chunk c p (codes "\r\n0\r\n\r\n");
    keep = not last;
    encodes = ground (arith, h);
    encodes_and_ends = ground (arith, h);
    same_bytes = simp append_assoc;
    keeps = ground arith;
  }

  sized-Together : (n : ℕ) (last : Bool) (p : Bytes) → n < u64_mod → Together (sized last n) p
  unfolding encode encode_and_end end_body
  sized-Together n last p h = elim (Bool-cases (ltb n (Base.length p))) [
    | inl over ↦ record {
      left = sized last 0;
      buf = Encode.limited p n;
      both = Encode.limited p n;
      keep = not last;
      encodes = ground arith;
      encodes_and_ends = ground arith;
      same_bytes = sym (append-nil _);
      keeps = ground arith;
    }
    | inr fits ↦ record {
      left = sized last (n - Base.length p);
      buf = Encode.exact p;
      both = Encode.exact p;
      keep = not last && (Base.length p == n);
      encodes = ground (arith, sub_u64-eq n (Base.length p));
      encodes_and_ends = ground arith;
      same_bytes = ground (arith, append-nil p);
      keeps = ground arith;
    }
  ]

  abbrev IsWord : Kind http → Type 0
  IsWord (chunked fields) = Unit
  IsWord (Encode.length n) = n < u64_mod

  -- `encode_and_end` writes the bytes that `encode` and then `end` would, and asks for the
  -- connection to be kept exactly when `end` would have succeeded and the encoder is not the last.
  pub encode_and_end-Together :
      (kind : Kind http) (last : Bool) (p : Bytes)
      → IsWord kind
      → Base.length p < u64_mod
      → Together (record { kind = kind; is_last = last }) p
  encode_and_end-Together (chunked fields) last p w h =
      let (digits, size, e) = new_chunk_size-IsSize (Base.length p) h in
      chunked-Together fields last p _ e
  encode_and_end-Together (Encode.length n) last p w h = sized-Together n last p w
