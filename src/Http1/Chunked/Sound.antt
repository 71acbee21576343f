-- ===== src/Http1/Chunked/Sound.antt =====
-- The machine ends only where the grammar says that the body ends.
use hwire.Base.{
  ℕ, ◌+◌, ◌<◌, ◌≡◌, ◌≢◌, ◌⊎◌, inl, inr, refl, sym, ap, subst, ◌∙◌, Option, none, some, [], ◌∷◌,
  ◌++◌, append_assoc, append-nil, length-append, Bytes, length, to_usize, arith,
}
use hwire.Io.{ready, pending, MemRead, ReadLaws}
use hwire.Http1.Chunked.{
  ChunkedState, start, size, size_lws, extension, size_lf, body, body_cr, body_lf, trailer,
  trailer_lf, end_cr, end_lf, end, StepArgs, step,
}
use hwire.Http1.Chunked.Safety.{StepInv, HasBuffer, IsFresh}
use hwire.Http1.Chunked.Grammar.{kept}
use hwire.Http1.Chunked.Moves.{Moves, buffered, ByteStep, step-ByteStep, byte-reads, IsByteState}
use hwire.Http1.Chunked.Suffix.{Suffix, Moves-Suffix, grow}

abbrev pub out : Option Bytes → Bytes
out none = []
out (some buf) = buf

-- What becomes of the trailer buffer, if the rest `t` of the trailer section is read.
abbrev onto : Option Bytes → Bytes → Option Bytes
onto none t = none
onto (some buf) t = some (buf ++ t)

abbrev or_kept : Option Bytes → Bytes → Option Bytes
or_kept none t = kept t
or_kept (some buf) t = some (buf ++ t)

abbrev pub final : ChunkedState → Option Bytes → Bytes → Option Bytes
final trailer buf t = onto buf t
final trailer_lf buf t = onto buf t
final end_lf buf t = onto buf t
final end buf t = onto buf t
final end_cr buf t = or_kept buf t
final _ buf t = kept t

onto_nil : (buf : Option Bytes) → buf ≡ onto buf []
onto_nil none = refl
onto_nil (some buf) = ap some (sym (append-nil buf))

module _ {R : Type 0} (m : MemRead R) where
  module _ (laws : ReadLaws m) where
    -- From here the machine reads the wire and delivers the payload, and ends at `u`.
    pub record Ends (st : ChunkedState) (s : StepArgs R) (d : Bytes) (u : StepArgs R) : Type 0 where
      pub wire : Bytes
      pub section : Bytes
      pub splits : laws.rest s.reader ≡ wire ++ laws.rest u.reader
      pub suffix : Suffix st s.chunk_size wire d section
      pub buffer : u.trailers_buf ≡ final st s.trailers_buf section

    final-buffered :
        (st st' : ChunkedState) (n k b : ℕ) (buf : Option Bytes) (t : Bytes)
        → IsFresh st buf
        → HasBuffer st buf
        → Moves st n b st' k
        → final st' (buffered st buf b) t ≡ final st buf (grow st b t)
    final-buffered start st' n k b buf t f h v = ground arith
    final-buffered size st' n k b buf t f h v = ground arith
    final-buffered size_lws st' n k b buf t f h v = ground arith
    final-buffered extension st' n k b buf t f h v = ground arith
    final-buffered size_lf st' n k b buf t f h v = ground arith
    final-buffered body_cr st' n k b buf t f h v = ground arith
    final-buffered body_lf st' n k b buf t f h v = ground arith
    final-buffered trailer st' n k b none t f h v = absurd h
    final-buffered trailer_lf st' n k b none t f h v = absurd h
    final-buffered trailer st' n k b (some buf) t f h v =
        ground (arith, append_assoc buf (b ∷ []) t)
    final-buffered trailer_lf st' n k b (some buf) t f h v =
        ground (arith, append_assoc buf (b ∷ []) t)
    final-buffered end_cr st' n k b none t f h v = ground arith
    final-buffered end_cr st' n k b (some buf) t f h v = ground (arith, append_assoc buf (b ∷ []) t)
    final-buffered end_lf st' n k b none t f h v = ground arith
    final-buffered end_lf st' n k b (some buf) t f h v = ground (arith, append_assoc buf (b ∷ []) t)
    final-buffered body st' n k b buf t f h v = absurd v
    final-buffered end st' n k b buf t f h v = absurd v

    -- A step that reads a part of the chunk.
    record BodyStep (s t : StepArgs R) (st' : ChunkedState) : Type 0 where
      reads : laws.rest s.reader ≡ out t.chunk_buf ++ laws.rest t.reader
      counts : length (out t.chunk_buf) + t.chunk_size ≡ s.chunk_size
      buffers : t.trailers_buf ≡ s.trailers_buf
      moves : ((st' ≡ body_cr) × (t.chunk_size ≡ 0)) ⊎ ((st' ≡ body) × (0 < t.chunk_size))

    step-BodyStep :
        (s t : StepArgs R) (st' : ChunkedState)
        → StepInv body s
        → step m body s ≡ ready t st'
        → BodyStep s t st'
    unfolding step
    step-BodyStep s t st' i h = ground (arith, laws.delivers s.reader (to_usize s.chunk_size))

    body-more :
        (piece : Bytes) {n k : ℕ} {w d t : Bytes}
        → length piece + k ≡ n
        → Suffix body k w d t
        → Suffix body n (piece ++ w) (piece ++ d) t
    body-more piece e (piece', wire, payload, e', v, f, c) = (
      piece ++ piece',
      wire,
      payload,
      omega (arith, length-append piece piece'),
      rw (v, append_assoc),
      rw (f, append_assoc),
      c,
    )

    body-done :
        (piece : Bytes) {n k : ℕ} {w d t : Bytes}
        → length piece + k ≡ n
        → k ≡ 0
        → Suffix body_cr k w d t
        → Suffix body n (piece ++ w) (piece ++ d) t
    body-done piece {d = d} e z (wire, v, c) =
        (piece, wire, d, omega arith, ap (◌++◌ piece) v, refl, c)

    BodyStep-Ends :
        (s t u : StepArgs R) (st' : ChunkedState) (d : Bytes)
        → s.trailers_buf ≡ none
        → BodyStep s t st'
        → Ends st' t d u
        → Ends body s (out t.chunk_buf ++ d) u
    BodyStep-Ends s t u st' d f b e = record {
      wire = out t.chunk_buf ++ e.wire;
      section = e.section;
      splits =
          b.reads
          ∙ ap (◌++◌ (out t.chunk_buf)) e.splits
          ∙ sym (append_assoc (out t.chunk_buf) e.wire _);
      suffix = go b.moves e.suffix;
      buffer = ground arith;
    }
      where
        go :
            ((st' ≡ body_cr) × (t.chunk_size ≡ 0)) ⊎ ((st' ≡ body) × (0 < t.chunk_size))
            → Suffix st' t.chunk_size e.wire d e.section
            → Suffix body s.chunk_size (out t.chunk_buf ++ e.wire) (out t.chunk_buf ++ d) e.section
        go (inl (p, z)) x =
            body-done _ b.counts z (subst (λ q. Suffix q t.chunk_size e.wire d e.section) p x)
        go (inr (p, z)) x =
            body-more _ b.counts (subst (λ q. Suffix q t.chunk_size e.wire d e.section) p x)

    ByteStep-Ends :
        (st st' : ChunkedState) (s t u : StepArgs R) (d : Bytes) (b : ℕ)
        → StepInv st s
        → ByteStep m laws st st' s t b
        → t.chunk_buf ≡ none
        → Ends st' t d u
        → Ends st s (out t.chunk_buf ++ d) u
    ByteStep-Ends st st' s t u d b i h n e = record {
      wire = b ∷ e.wire;
      section = grow st b e.section;
      splits = h.reads ∙ ap (◌∷◌ b) e.splits;
      suffix = rw n (Moves-Suffix st st' _ b _ e.wire d e.section i.has_size h.moves e.suffix);
      buffer =
          e.buffer
          ∙ ap (λ q. final st' q e.section) h.buffers
          ∙ final-buffered st st' _ _ b s.trailers_buf e.section i.is_fresh i.has_buffer h.moves;
    }

    -- A step that waits has changed nothing but the reader.
    pub record Waits (s t : StepArgs R) : Type 0 where
      rest_same : laws.rest t.reader ≡ laws.rest s.reader
      size_same : t.chunk_size ≡ s.chunk_size
      buffer_same : t.trailers_buf ≡ s.trailers_buf

    pub step-Waits : (st : ChunkedState) (s t : StepArgs R) → step m st s ≡ pending t → Waits s t
    unfolding step
    step-Waits body s t h = ground (arith, laws.delivers s.reader (to_usize s.chunk_size))
    step-Waits _ s t h = ground (arith, byte-reads m laws s)

    pub Waits-Ends :
        {st : ChunkedState} {s t u : StepArgs R} {d : Bytes}
        → Waits s t
        → Ends st t d u
        → Ends st s d u
    Waits-Ends {st} {d = d} w e = record {
      wire = e.wire;
      section = e.section;
      splits = sym w.rest_same ∙ e.splits;
      suffix = subst (λ q. Suffix st q e.wire d e.section) w.size_same e.suffix;
      buffer = e.buffer ∙ ap (λ q. final st q e.section) w.buffer_same;
    }

    pub stop-Ends : (u : StepArgs R) → Ends end u [] u
    stop-Ends u = record {
      wire = [];
      section = [];
      splits = refl;
      suffix = (refl, refl, refl);
      buffer = onto_nil u.trailers_buf;
    }

    byte-Ends :
        (st st' : ChunkedState) (s t u : StepArgs R) (d : Bytes)
        → IsByteState st
        → StepInv st s
        → s.chunk_buf ≡ none
        → step m st s ≡ ready t st'
        → Ends st' t d u
        → Ends st s (out t.chunk_buf ++ d) u
    byte-Ends st st' s t u d p i n h e =
        let b = step-ByteStep m laws st s t st' p h in
        ByteStep-Ends st st' s t u d _ i b (b.buf_kept ∙ n) e

    pub next-Ends :
        (st st' : ChunkedState) (s t u : StepArgs R) (d : Bytes)
        → st ≢ end
        → StepInv st s
        → s.chunk_buf ≡ none
        → step m st s ≡ ready t st'
        → Ends st' t d u
        → Ends st s (out t.chunk_buf ++ d) u
    next-Ends body st' s t u d ne i n h e =
        BodyStep-Ends s t u st' d i.is_fresh (step-BodyStep s t st' i h) e
    next-Ends end st' s t u d ne i n h e = absurd (ne refl)
    next-Ends _ st' s t u d ne i n h e = byte-Ends _ st' s t u d tt i n h e

    -- Only a byte that is no part of a chunk leads to the end.
    pub step_end-chunk_buf :
        (st : ChunkedState) (s t : StepArgs R)
        → st ≢ end
        → s.chunk_buf ≡ none
        → step m st s ≡ ready t end
        → t.chunk_buf ≡ none
    unfolding step
    step_end-chunk_buf end s t ne n h = absurd (ne refl)
    step_end-chunk_buf body s t ne n h = ground arith
    step_end-chunk_buf _ s t ne n h = ground (arith, byte-reads m laws s)
