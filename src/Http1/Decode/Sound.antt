-- ===== src/Http1/Decode/Sound.antt =====
-- A chunked body that was decoded to its end is one of the grammar, and what was returned is its
-- payload.
use hwire.Base.{
  ℕ, zero, suc, ◌≡◌, ◌≢◌, inl, inr, refl, sym, ap, subst, Bool-cases, Option, none, some, [], ◌++◌,
  Bytes, leb, u64_mod, ◌<◌,
}
use hwire.HttpCrate.{HttpCrate}
use hwire.Io.{Out, ready, failed, pending, panicked, MemRead, ReadLaws}
use hwire.Http1.Chunked.{ChunkedState, end, StepArgs, step}
use hwire.Http1.Chunked.Safety.{StepInv, Keeps, step-StepInv}
use hwire.Http1.Chunked.Grammar.{ChunkedBody, kept}
use hwire.Http1.Chunked.Progress.{IsEnd, Advances, step-Advances}
use hwire.Http1.Chunked.Sound.{
  out, Ends, stop-Ends, next-Ends, step_end-chunk_buf, step-Waits, Waits-Ends,
}
use hwire.Http1.Decode.{
  ChunkedDecoder, Frame, data_frame, trailers, max_headers_of, step_args, store, new_chunked,
  TrailersResult, good, bad, decode_trailers, result_of, ChunkedResult, finish, yield_or,
  after_step, decode_chunked,
}
use hwire.Http1.Decode.Total.{Inv, IsEnd-cases, store-Inv, taken-Inv, new_chunked-Inv}

stuck_at_end :
    {R : Type 0} (m : MemRead R) (st : ChunkedState) (s : StepArgs R)
    → st ≡ end
    → step m st s ≡ ready s end
unfolding step
stuck_at_end m st s e = rw e

abbrev data_of : {H : Type 0} → Frame H → Bytes
data_of (data_frame b) = b
data_of (trailers map) = []

module _ (http : HttpCrate) {R : Type 0} (m : MemRead R) where
  -- The last frame: empty data, or the header map of the trailer bytes that were kept.
  abbrev pub LastFrame : Option Bytes → Frame http.HeaderMap → Type 0
  LastFrame none f = f ≡ data_frame []
  LastFrame (some buf) f =
      (count : ℕ) × (map : http.HeaderMap) × (decode_trailers http buf count ≡ good map)
      × (f ≡ trailers map)

  -- Calls of `decode` until the decoder is at its end, some of them pending: the bytes of the data
  -- frames, the last frame, and the decoder and reader that are left.
  pub data Session
      : ChunkedDecoder → R → Bytes → Frame http.HeaderMap → ChunkedDecoder → R → Type 0 where
    last_call :
        {c c' : ChunkedDecoder} {r r' : R} {f : Frame http.HeaderMap} (fuel : ℕ)
        → decode_chunked http m fuel c r ≡ some (ready (c', r') f)
        → IsEnd c'.state
        → Session c r [] f c' r'
    data_call :
        {c c1 c' : ChunkedDecoder} {r r1 r' : R} {piece d : Bytes} {f : Frame http.HeaderMap}
        (fuel : ℕ)
        → decode_chunked http m fuel c r ≡ some (ready (c1, r1) (data_frame piece))
        → (IsEnd c1.state → ⊥)
        → Session c1 r1 d f c' r'
        → Session c r (piece ++ d) f c' r'
    wait_call :
        {c c1 c' : ChunkedDecoder} {r r1 r' : R} {d : Bytes} {f : Frame http.HeaderMap} (fuel : ℕ)
        → decode_chunked http m fuel c r ≡ some (pending (c1, r1))
        → Session c1 r1 d f c' r'
        → Session c r d f c' r'

  module _ (laws : ReadLaws m) where
    abbrev EndsFrom : ChunkedDecoder → R → Bytes → StepArgs R → Type 0
    EndsFrom c r d u = Ends m laws c.state (step_args c r) d u

    -- How a call links what was to be read before it with what is to be read behind it.
    record AtEnd (c : ChunkedDecoder) (r r' : R) (f : Frame http.HeaderMap) : Type 0 where
      last : StepArgs R
      reader_is : last.reader ≡ r'
      ends : EndsFrom c r [] last
      frame_is : LastFrame last.trailers_buf f

    record Between (c c' : ChunkedDecoder) (r r' : R) (f : Frame http.HeaderMap) : Type 0 where
      piece : Bytes
      frame_is : f ≡ data_frame piece
      ends : (d : Bytes) (u : StepArgs R) → EndsFrom c' r' d u → EndsFrom c r (piece ++ d) u

    abbrev Links : ChunkedDecoder → R → ChunkedResult http m → Type 0
    Links c r (some (ready (c', r') f)) =
        Inv c' r' × (IsEnd c'.state → AtEnd c r r' f) × ((IsEnd c'.state → ⊥) → Between c c' r r' f)
    Links c r (some (pending (c', r'))) =
        Inv c' r' × ((d : Bytes) (u : StepArgs R) → EndsFrom c' r' d u → EndsFrom c r d u)
    Links c r _ = Unit

    abbrev Back : ChunkedDecoder → R → ChunkedDecoder → R → Type 0
    Back c r c' r' = (d : Bytes) (u : StepArgs R) → EndsFrom c' r' d u → EndsFrom c r d u

    Links-Back :
        (c c1 : ChunkedDecoder) (r r1 : R) (o : ChunkedResult http m)
        → Back c r c1 r1
        → Links c1 r1 o
        → Links c r o
    Links-Back c c1 r r1 none b l = tt
    Links-Back c c1 r r1 (some (ready (c', r') f)) b l = (
      l.0,
      λ e.
          let a = l.1 e in
          record {
            last = a.last;
            reader_is = a.reader_is;
            ends = b [] a.last a.ends;
            frame_is = a.frame_is;
          },
      λ e.
          let a = l.2 e in
          record {
            piece = a.piece;
            frame_is = a.frame_is;
            ends = λ d u p. b (a.piece ++ d) u (a.ends d u p);
          },
    )
    Links-Back c c1 r r1 (some (failed s e)) b l = tt
    Links-Back c c1 r r1 (some (pending (c', r'))) b l = (l.0, λ d u p. b d u (l.1 d u p))
    Links-Back c c1 r r1 (some panicked) b l = tt

    -- The decoder as stored behind a step stands where the step left its arguments.
    stored-Ends :
        (c : ChunkedDecoder) (t : StepArgs R) (st : ChunkedState) {d : Bytes} {u : StepArgs R}
        → EndsFrom (store c t st) t.reader d u
        → Ends m laws st t d u
    stored-Ends c t st e = record {
      wire = e.wire;
      section = e.section;
      splits = e.splits;
      suffix = e.suffix;
      buffer = e.buffer;
    }

    module _ (c : ChunkedDecoder) (r : R) (t : StepArgs R) where
      -- At the end of the body, with the trailer buffer `buf`.
      finish-Links :
          (buf : Option Bytes)
          → t.trailers_buf ≡ buf
          → Inv (store c t end) t.reader
          → EndsFrom c r [] t
          → Links c r (some (finish http m buf (store c t end) t.reader))
      unfolding finish
      finish-Links none b i e = (
        i,
        λ _. record { last = t; reader_is = refl; ends = e; frame_is = rw b refl },
        λ n. absurd (n tt),
      )
      finish-Links (some buf) b i e =
          elim (Bool-cases (leb (max_headers_of (store c t end)) t.trailers_cnt)) [
            | inl over ↦ rw over tt
            | inr fits ↦ rw fits (go (decode_trailers http buf t.trailers_cnt) refl)
          ]
        where
          go :
              (x : TrailersResult http)
              → decode_trailers http buf t.trailers_cnt ≡ x
              → Links c r (
                  some
                    (result_of http m (record (store c t end) { trailers_buf = none }) t.reader x))
          go (good map) p = (
            taken-Inv (store c t end) t.reader i refl,
            λ _. record {
              last = t;
              reader_is = refl;
              ends = e;
              frame_is = rw b (t.trailers_cnt, map, p, refl);
            },
            λ n. absurd (n tt),
          )
          go (bad x) p = tt

      -- Behind a step that is not the last, with the piece `buf` of the body.
      yield-Links :
          (loop : ChunkedDecoder → R → ChunkedResult http m) (st : ChunkedState)
          (buf : Option Bytes)
          → (IsEnd st → ⊥)
          → Inv (store c t st) t.reader
          → ((d : Bytes) (u : StepArgs R) → Ends m laws st t d u → EndsFrom c r (out buf ++ d) u)
          → Links (store c t st) t.reader (loop (store c t st) t.reader)
          → Links c r (yield_or http m loop buf (store c t st) t.reader)
      unfolding yield_or
      yield-Links loop st none ne i b l =
          Links-Back c (store c t st) r t.reader (loop (store c t st) t.reader)
            (λ d u e. b d u (stored-Ends c t st e)) l
      yield-Links loop st (some buf) ne i b l = (
        i,
        λ e. absurd (ne e),
        λ _. record { piece = buf; frame_is = refl; ends = λ d u e. b d u (stored-Ends c t st e) },
      )

    abbrev Sound : (ChunkedDecoder → R → ChunkedResult http m) → Type 0
    Sound loop = (c : ChunkedDecoder) (r : R) → Inv c r → Links c r (loop c r)

    module _ (loop : ChunkedDecoder → R → ChunkedResult http m) (sound : Sound loop) where
      ready-Links :
          (c : ChunkedDecoder) (r : R) (t : StepArgs R) (st : ChunkedState)
          → c.state ≢ end
          → Inv c r
          → Inv (store c t st) t.reader
          → step m c.state (step_args c r) ≡ ready t st
          → Links c r (after_step http m loop c (ready t st))
      unfolding after_step
      ready-Links c r t end ne i k h =
          let none_out = step_end-chunk_buf m laws c.state (step_args c r) t ne refl h in
          finish-Links c r t t.trailers_buf refl k (
            subst (λ q. EndsFrom c r (out q ++ []) t) none_out
              (next-Ends m laws c.state end (step_args c r) t t [] ne i refl h
                (stop-Ends m laws t)))
      ready-Links c r t _ ne i k h =
          yield-Links c r t loop _ t.chunk_buf (λ p. p) k
            (λ d u e. next-Ends m laws c.state _ (step_args c r) t u d ne i refl h e)
            (sound (store c t _) t.reader k)

      step-Links :
          (c : ChunkedDecoder) (r : R) (o : Out (StepArgs R) ChunkedState)
          → c.state ≢ end
          → Inv c r
          → step m c.state (step_args c r) ≡ o
          → Keeps c.state o
          → Advances m laws (step_args c r) o
          → Links c r (after_step http m loop c o)
      step-Links c r (ready t st) ne i h k a =
          ready-Links c r t st ne i (store-Inv c r st t a.1 k) h
      step-Links c r (failed t e) ne i h k a = unfold after_step in tt
      step-Links c r (pending t) ne i h k a =
          unfold after_step in
          (
            store-Inv c r c.state t a.1 k,
            λ d u e.
                Waits-Ends m laws (step-Waits m laws c.state (step_args c r) t h)
                  (stored-Ends c t c.state e),
          )
      step-Links c r panicked ne i h k a = absurd k

      end-Links :
          (c : ChunkedDecoder) (r : R)
          → c.state ≡ end
          → Inv c r
          → Links c r (after_step http m loop c (step m c.state (step_args c r)))
      unfolding after_step
      end-Links c r e i =
          let s = step_args c r in
          let back = λ (q : Ends m laws end s [] s). subst (λ x. Ends m laws x s [] s) (sym e) q in
          subst (λ q. Links c r (after_step http m loop c q)) (sym (stuck_at_end m c.state s e))
            (finish-Links c r s c.trailers_buf refl (subst (λ q. StepInv q s) e i)
              (back (stop-Ends m laws s)))

      round-Links :
          (c : ChunkedDecoder) (r : R)
          → Inv c r
          → Links c r (after_step http m loop c (step m c.state (step_args c r)))
      round-Links c r i = elim (IsEnd-cases c.state) [
        | inl e ↦ end-Links c r e i
        | inr ne ↦
            step-Links c r _ (λ e. ne (subst IsEnd (sym e) tt)) i refl
              (step-StepInv m laws c.state _ i) (step-Advances m laws c.state _ ne i)
      ]

    decode_chunked-Links : (fuel : ℕ) → Sound (decode_chunked http m fuel)
    unfolding decode_chunked
    decode_chunked-Links zero c r i = tt
    decode_chunked-Links (suc fuel) c r i =
        round-Links (decode_chunked http m fuel) (decode_chunked-Links fuel) c r i

    -- What a whole session read and returned.
    pub record Framed (r r' : R) (d : Bytes) (f : Frame http.HeaderMap) : Type 0 where
      pub wire : Bytes
      pub section : Bytes
      pub splits : laws.rest r ≡ wire ++ laws.rest r'
      pub is_body : ChunkedBody wire d section
      pub frame_is : LastFrame (kept section) f

    record Linked (c : ChunkedDecoder) (r r' : R) (d : Bytes) (f : Frame http.HeaderMap)
        : Type 0 where
      last : StepArgs R
      reader_is : last.reader ≡ r'
      ends : EndsFrom c r d last
      frame_is : LastFrame last.trailers_buf f

    Session-Linked :
        {c c' : ChunkedDecoder} {r r' : R} {d : Bytes} {f : Frame http.HeaderMap}
        → Inv c r
        → Session c r d f c' r'
        → Linked c r r' d f
    Session-Linked {c} {r = r} i (last_call fuel h e) =
        let a = (subst (Links c r) h (decode_chunked-Links fuel c r i)).1 e in
        record { last = a.last; reader_is = a.reader_is; ends = a.ends; frame_is = a.frame_is }
    Session-Linked {c} {r = r} i (data_call {c1 = c1} {r1 = r1} {d = d} fuel h n s) =
        let l = subst (Links c r) h (decode_chunked-Links fuel c r i) in
        let b = l.2 n in
        let q = Session-Linked l.0 s in
        record {
          last = q.last;
          reader_is = q.reader_is;
          ends =
              subst (λ x. EndsFrom c r (x ++ d) q.last) (sym (ap data_of b.frame_is))
                (b.ends d q.last q.ends);
          frame_is = q.frame_is;
        }
    Session-Linked {c} {r = r} {d = d} i (wait_call fuel h s) =
        let l = subst (Links c r) h (decode_chunked-Links fuel c r i) in
        let q = Session-Linked l.0 s in
        record {
          last = q.last;
          reader_is = q.reader_is;
          ends = l.1 d q.last q.ends;
          frame_is = q.frame_is;
        }

    -- A new decoder, called until it is at its end, whatever the reader splits or delays: the bytes
    -- that it took off the wire are one whole chunked body of the grammar, the data frames carry the
    -- payload of that body, and the last frame holds the headers of its trailer section, if it has one.
    pub decode-ChunkedBody :
        (max_headers max_size : Option ℕ) {c' : ChunkedDecoder} {r r' : R} {d : Bytes}
        {f : Frame http.HeaderMap}
        → max_headers_of (new_chunked max_headers max_size) < u64_mod
        → Session (new_chunked max_headers max_size) r d f c' r'
        → Framed r r' d f
    decode-ChunkedBody max_headers max_size {r = r} {r' = r'} {f = f} h s =
        let q = Session-Linked (new_chunked-Inv max_headers max_size r h) s in
        let e = q.ends in
        record {
          wire = e.wire;
          section = e.section;
          splits = subst (λ x. laws.rest r ≡ e.wire ++ laws.rest x) q.reader_is e.splits;
          is_body = e.suffix;
          frame_is = subst (λ x. LastFrame x f) e.buffer q.frame_is;
        }
