-- ===== src/Http1/Decode/RoundTrip.antt =====
-- What the chunked encoder writes, read by the chunked decoder.
use hwire.Base.{
  ℕ, suc, ◌+◌, ◌*◌, ◌≤◌, ◌<◌, ◌≡◌, ◌≢◌, refl, sym, ap, subst, ◌∙◌, Bool, false, Option, some, List,
  [], ◌∷◌, ◌++◌, append_assoc, Bytes, length, concat, codes, u64_mod, arith,
}
use hwire.HttpCrate.{HttpCrate}
use hwire.Io.{ready, MemRead, ReadLaws}
use hwire.Io.Slice.{slice_reader}
use hwire.Http1.Chunked.{
  ChunkedState, StepArgs, start, size, size_lf, body, body_cr, body_lf, end_cr, end_lf, end, step,
}
use hwire.Http1.Chunked.Grammar.{
  hex_val, number_from, AllHex, IsSize, Coded, coded_end, coded_piece, zero-IsSize,
  Coded-ChunkedBody,
}
use hwire.Http1.Chunked.Plain.{
  start-digit, size-digit, size-cr, size_lf-more, size_lf-last, body-piece, body_cr-cr, body_lf-lf,
  end_cr-cr, end_lf-lf,
}
use hwire.Http1.Encode.{Encoder, chunked, end_body}
use hwire.Http1.Encode.Framing.{ArePieces, encode_all, ending, encode_all-Coded}
use hwire.Http1.Chunked.Unique.{ChunkedBody-SameBody}
use hwire.Http1.Chunked.Grammar.{kept}
use hwire.Http1.Decode.Sound.{LastFrame, decode-ChunkedBody}
use hwire.Http1.Decode.{max_headers_of}
use hwire.Http1.Decode.{
  ChunkedDecoder, Frame, data_frame, new_chunked, step_args, is_end, decode_chunked, ChunkedResult,
}
use hwire.Http1.Decode.Sound.{Session, last_call, data_call}

-- No digit makes the number less.
number_from-ge : (acc : ℕ) (ds : Bytes) → acc ≤ number_from acc ds
number_from-ge acc [] = omega arith
number_from-ge acc (b ∷ ds) = omega (arith, number_from-ge (acc * 16 + hex_val b) ds)

module _ (http : HttpCrate) (max_headers max_size : Option ℕ) where
  -- The decoder of a message without extensions and trailers
  abbrev dec : ChunkedState → ℕ → ChunkedDecoder
  dec st n = record (new_chunked max_headers max_size) { state = st; chunk_len = n }

  abbrev decodes : ℕ → ChunkedDecoder → Bytes → ChunkedResult http slice_reader
  decodes = decode_chunked http slice_reader

  abbrev args : ChunkedState → ℕ → Bytes → StepArgs Bytes
  args st n r = step_args (dec st n) r

  -- A step that yields nothing
  on :
      (st st' : ChunkedState) (n k fuel : ℕ) (r x : Bytes)
      → is_end st' ≡ false
      → step slice_reader st (args st n r) ≡ ready (args st k x) st'
      → decodes (suc fuel) (dec st n) r ≡ decodes fuel (dec st' k) x
  unfolding decode_chunked hwire.Http1.Decode.after_step hwire.Http1.Decode.yield_or
  on st st' n k fuel r x e h = rw (h, e) refl

  digits_read :
      (ds : Bytes) (acc fuel : ℕ) (x : Bytes)
      → AllHex ds
      → number_from acc ds < u64_mod
      → decodes (length ds + fuel) (dec size acc) (ds ++ x)
        ≡ decodes fuel (dec size (number_from acc ds)) x
  digits_read [] acc fuel x h l = ap (λ f. decodes f (dec size acc) x) (omega arith)
  digits_read (b ∷ ds) acc fuel x h l =
      let s : suc (length ds) + fuel ≡ suc (length ds + fuel) = omega arith in
      rw s (
        on size size acc (acc * 16 + hex_val b) (length ds + fuel) (b ∷ (ds ++ x)) (ds ++ x) refl (
          size-digit (args size acc []) b (ds ++ x) h.0
            (omega (arith, l, number_from-ge (acc * 16 + hex_val b) ds)))
        ∙ digits_read ds (acc * 16 + hex_val b) fuel x h.1 l)

  -- A size line, up to its LF
  line_read :
      (ds : Bytes) (n fuel : ℕ) (x : Bytes)
      → IsSize ds n
      → n < u64_mod
      → decodes (length ds + suc fuel) (dec start 0) (ds ++ (b'\r' ∷ x))
        ≡ decodes fuel (dec size_lf n) x
  line_read [] n fuel x z l = absurd (z.some_digit refl)
  line_read (b ∷ ds) n fuel x z l =
      let s : suc (length ds) + suc fuel ≡ suc (length ds + suc fuel) = omega arith in
      rw s (
        on start size 0 (0 * 16 + hex_val b) (length ds + suc fuel) (b ∷ (ds ++ (b'\r' ∷ x)))
          (ds ++ (b'\r' ∷ x)) refl
          (start-digit (args start 0 []) b (ds ++ (b'\r' ∷ x)) z.all_hex.0 refl)
        ∙ digits_read ds (0 * 16 + hex_val b) (suc fuel) (b'\r' ∷ x) z.all_hex.1
            (omega (arith, z.value, l))
        ∙ ap (λ k. decodes (suc fuel) (dec size k) (b'\r' ∷ x)) z.value
        ∙ on size size_lf n n fuel (b'\r' ∷ x) x refl (size-cr (args size n []) x))

  -- A decoder with what it reads, from which some steps lead to the start of `w`
  record Begins (c : ChunkedDecoder) (r w : Bytes) : Type 0 where
    steps : ℕ
    leads : (fuel : ℕ) → decodes (steps + fuel) c r ≡ decodes fuel (dec start 0) w

  at_start : (w : Bytes) → Begins (dec start 0) w w
  at_start w = record {
    steps = 0;
    leads = λ fuel. ap (λ f. decodes f (dec start 0) w) (omega arith);
  }

  behind_piece : (w : Bytes) → Begins (dec body_cr 0) (b'\r' ∷ b'\n' ∷ w) w
  behind_piece w = record { steps = 2; leads = go }
    where
      go :
          (fuel : ℕ)
          → decodes (2 + fuel) (dec body_cr 0) (b'\r' ∷ b'\n' ∷ w) ≡ decodes fuel (dec start 0) w
      go fuel =
          let s : 2 + fuel ≡ suc (suc fuel) = omega arith in
          rw s (
            on body_cr body_lf 0 0 (suc fuel) (b'\r' ∷ b'\n' ∷ w) (b'\n' ∷ w) refl
              (body_cr-cr (args body_cr 0 []) (b'\n' ∷ w))
            ∙ on body_lf start 0 0 fuel (b'\n' ∷ w) w refl (body_lf-lf (args body_lf 0 []) w))

  -- The call that yields a piece
  piece_read :
      (c : ChunkedDecoder) (r ds p x : Bytes) (b : Begins c r (ds ++ (b'\r' ∷ b'\n' ∷ (p ++ x))))
      → IsSize ds (length p)
      → p ≢ []
      → length p < u64_mod
      → decodes (b.steps + (length ds + 3)) c r ≡ some (ready (dec body_cr 0, x) (data_frame p))
  unfolding decode_chunked hwire.Http1.Decode.after_step hwire.Http1.Decode.yield_or
  piece_read c r ds p x b z ne l =
      b.leads (length ds + 3)
      ∙ line_read ds (length p) 2 (b'\n' ∷ (p ++ x)) z l
      ∙ on size_lf body (length p) (length p) 1 (b'\n' ∷ (p ++ x)) (p ++ x) refl
          (size_lf-more (args size_lf (length p) []) (p ++ x) (positive p ne))
      ∙ rw (body-piece (args body (length p) []) p x ne refl l) refl
    where
      positive : (p : Bytes) → p ≢ [] → 0 < length p
      positive [] h = absurd (h refl)
      positive (q ∷ p) h = omega arith

  -- The call behind the last piece
  end_read :
      (c : ChunkedDecoder) (r x : Bytes) (b : Begins c r (codes "0\r\n\r\n" ++ x))
      → decodes (b.steps + 5) c r ≡ some (ready (dec end 0, x) (data_frame []))
  unfolding decode_chunked hwire.Http1.Decode.after_step hwire.Http1.Decode.finish
  end_read c r x b =
      b.leads 5
      ∙ line_read (b'0' ∷ []) 0 3 (b'\n' ∷ b'\r' ∷ b'\n' ∷ x) zero-IsSize (omega arith)
      ∙ on size_lf end_cr 0 0 2 (b'\n' ∷ b'\r' ∷ b'\n' ∷ x) (b'\r' ∷ b'\n' ∷ x) refl
          (size_lf-last (args size_lf 0 []) (b'\r' ∷ b'\n' ∷ x) refl)
      ∙ on end_cr end_lf 0 0 1 (b'\r' ∷ b'\n' ∷ x) (b'\n' ∷ x) refl
          (end_cr-cr (args end_cr 0 []) (b'\n' ∷ x) refl)
      ∙ rw (end_lf-lf (args end_lf 0 []) x refl) refl

  Coded-Session :
      {w : Bytes} {ps : List Bytes}
      → Coded w ps
      → (c : ChunkedDecoder) (r next : Bytes) → Begins c r (w ++ next)
      → Session http slice_reader c r (concat ps) (data_frame []) (dec end 0) next
  Coded-Session coded_end c r next b = last_call _ (end_read c r next b) tt
  Coded-Session (coded_piece {digits = ds} {piece = p} {wire = w} z ne l k) c r next b =
      data_call _
        (piece_read c r ds p (b'\r' ∷ b'\n' ∷ (w ++ next)) (subst (Begins c r) assoc b) z ne l)
        (λ e. e)
        (Coded-Session k (dec body_cr 0) (b'\r' ∷ b'\n' ∷ (w ++ next)) next
          (behind_piece (w ++ next)))
    where
      assoc :
          (ds ++ (b'\r' ∷ b'\n' ∷ (p ++ (b'\r' ∷ b'\n' ∷ w)))) ++ next
          ≡ ds ++ (b'\r' ∷ b'\n' ∷ (p ++ (b'\r' ∷ b'\n' ∷ (w ++ next))))
      assoc = simp append_assoc

-- For pieces, none empty and each with a length of a word: what `encode` and `end` write, followed
-- by other bytes in a slice, is decoded by calls of a new decoder, which end with no error; their
-- data is the pieces joined, the last frame has no trailers, and the other bytes are left.
pub decode-encode :
    (http : HttpCrate) (max_headers max_size : Option ℕ) (fields : Option (List http.HeaderName))
    (last : Bool) (ps : List Bytes) (next : Bytes)
    → ArePieces ps
    → let e : Encoder http = record { kind = chunked fields; is_last = last } in
      (wire : Bytes) × (encode_all http e ps ≡ some (e, wire))
      × ((c : ChunkedDecoder) × Session http slice_reader
            (new_chunked max_headers max_size)
            ((wire ++ ending http (end_body http e)) ++ next)
            (concat ps)
            (data_frame [])
            c
            next)
decode-encode http max_headers max_size fields last ps next h =
    let (wire, sent, coded) = encode_all-Coded http fields last ps h in
    (
      wire,
      sent,
      (
        _,
        Coded-Session http max_headers max_size coded (new_chunked max_headers max_size) _ next
            (at_start http max_headers max_size _),
      ),
    )

abbrev pub chunked_encoder :
    (http : HttpCrate) → Option (List http.HeaderName) → Bool → Encoder http
chunked_encoder http fields last = record { kind = chunked fields; is_last = last }

wire_of :
    {A : Type 0} (a : A) (x y : Bytes)
    → ◌≡◌ {A = Option (A × Bytes)} (some (a, x)) (some (a, y))
    → x ≡ y
wire_of a x y e = cc

-- For pieces, none empty and each with a length of a word, what `encode` and `end` wrote, followed
-- by other bytes: where calls of a new decoder over it come to its end, whatever the reader splits
-- or delays, their data is the pieces joined, the last frame has no trailers, and the other bytes
-- are left.
pub Session-encode :
    (http : HttpCrate) {R : Type 0} (m : MemRead R) (laws : ReadLaws m)
    (max_headers max_size : Option ℕ) (fields : Option (List http.HeaderName)) (last : Bool)
    (ps : List Bytes) (wire next : Bytes) {c : ChunkedDecoder} {r r' : R} {d : Bytes}
    {f : Frame http.HeaderMap}
    → ArePieces ps
    → max_headers_of (new_chunked max_headers max_size) < u64_mod
    → encode_all http (chunked_encoder http fields last) ps
      ≡ some (chunked_encoder http fields last, wire)
    → laws.rest r ≡ (wire ++ ending http (end_body http (chunked_encoder http fields last))) ++ next
    → Session http m (new_chunked max_headers max_size) r d f c r'
    → (d ≡ concat ps) × (f ≡ data_frame []) × (laws.rest r' ≡ next)
Session-encode http m laws max_headers max_size fields last ps wire next {r = r} {r' = r'} {f = f} h
      l w e s =
    let (wire', sent, coded) = encode_all-Coded http fields last ps h in
    let q = decode-ChunkedBody http m laws max_headers max_size l s in
    let same = wire_of (chunked_encoder http fields last) wire wire' (sym w ∙ sent) in
    let u = ChunkedBody-SameBody q.is_body (Coded-ChunkedBody coded) (laws.rest r') next (
      sym q.splits
      ∙ e
      ∙ ap (λ x. (x ++ ending http (end_body http (chunked_encoder http fields last))) ++ next)
          same) in
    (u.payload, subst (λ x. LastFrame http m (kept x) f) u.section q.frame_is, u.rest)
