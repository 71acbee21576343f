-- ===== src/Http1/Buffered/Reads.antt =====
-- The buffered transport as a reader for the decoder.
use hwire.Base.{
  ℕ, zero, suc, min, ◌≡◌, ◌≤◌, ◌⊎◌, inl, inr, refl, sym, ap, ◌∙◌, [], ◌∷◌, ◌++◌, append_assoc,
  Bytes, length, take, drop, take-append-drop, length-take, arith,
}
use hwire.Io.{Out, ready, failed, pending, panicked, MemRead, ReadLaws, Delivers}
use hwire.Http1.Buffered.{
  Transport, TransportLaws, Buffered, Receives, read_mem, poll_read_from_io, next, received,
  split_read, room_for, read_from,
}

module _ (t : Transport) (laws : TransportLaws t) where
  open t use {Socket, poll_read_buf}

  -- What is buffered and what the peer is still to send
  abbrev pub to_come : Buffered t → Bytes
  to_come b = b.read_buf ++ laws.rest b.io

  abbrev pub buffered_reader : MemRead (Buffered t)
  buffered_reader = record { read_mem = read_mem t }

  take-ne-nil : (n : ℕ) (s : Bytes) → take n s ≡ [] → (s ≡ []) ⊎ (n ≡ 0)
  take-ne-nil zero s h = inr refl
  take-ne-nil (suc n) [] h = inl refl
  take-ne-nil (suc n) (x ∷ s) h = absurd (cc)

  empty_front :
      (len : ℕ) (buf whole : Bytes)
      → (buf ≡ [] → whole ≡ [])
      → take (min len (length buf)) buf ≡ []
      → (whole ≡ []) ⊎ (len ≡ 0)
  empty_front len [] whole stop h = inl (stop refl)
  empty_front zero (c ∷ cs) whole stop h = inr refl
  empty_front (suc len) (c ∷ cs) whole stop h =
      elim (take-ne-nil (min (suc len) (suc (length cs))) (c ∷ cs) h) [
        | inl e ↦ absurd (cc)
        | inr e ↦ absurd (omega arith)
      ]

  -- The front of a buffer, of at most `len` bytes, is a prefix of all that is to come.
  abbrev Front : ℕ → Bytes → Bytes → Bytes → Type 0
  Front len buf tail whole =
      let n = min len (length buf) in
      (whole ≡ take n buf ++ (drop n buf ++ tail))
      × (length (take n buf) ≤ len)
      × (take n buf ≡ [] → (whole ≡ []) ⊎ (len ≡ 0))

  front_lem :
      (len : ℕ) (buf tail whole : Bytes)
      → whole ≡ buf ++ tail
      → (buf ≡ [] → whole ≡ [])
      → Front len buf tail whole
  front_lem len buf tail whole e stop =
      let n : ℕ = min len (length buf) in
      (
        e
            ∙ ap (λ s. s ++ tail) (sym (take-append-drop n buf))
            ∙ append_assoc (take n buf) (drop n buf) tail,
        omega (arith, length-take n buf),
        empty_front len buf whole stop,
      )

  split_read-Delivers :
      (b : Buffered t) (len : ℕ) (o : Out (Socket × ℕ) Bytes)
      → b.read_buf ≡ []
      → Receives laws.rest (laws.rest b.io) o
      → Delivers to_come (to_come b) len (split_read t len (received t b o))
  split_read-Delivers b len (ready (s, room) bs) e (h, stop) =
      rw e (front_lem len bs (laws.rest s) (laws.rest b.io) h stop)
  split_read-Delivers b len (failed (s, room) err) e h = rw h
  split_read-Delivers b len (pending (s, room)) e h = rw h
  split_read-Delivers b len panicked e h = h

  read_from-Delivers :
      (b : Buffered t) (len : ℕ) (buf : Bytes)
      → b.read_buf ≡ buf
      → Delivers to_come (to_come b) len (read_from t buf b len)
  unfolding poll_read_from_io
  read_from-Delivers b len [] e =
      split_read-Delivers b len _ e (laws.receives b.io (room_for t b (next b.read_buf_strategy)))
  read_from-Delivers b len (c ∷ cs) e =
      rw e (
        front_lem len (c ∷ cs) (laws.rest b.io) ((c ∷ cs) ++ laws.rest b.io) refl
          (λ z. absurd (cc)))

  -- Over a transport that loses nothing, `read_mem` keeps the contract of a reader: it returns a prefix,
  -- of at most the wanted length, of what is buffered and still to come, and an empty one only at the
  -- end or where nothing was wanted; where it fails or waits, nothing is lost.
  pub read_mem-Delivers :
      (b : Buffered t) (len : ℕ) → Delivers to_come (to_come b) len (read_mem t b len)
  unfolding read_mem
  read_mem-Delivers b len = read_from-Delivers b len b.read_buf refl

  pub buffered-ReadLaws : ReadLaws buffered_reader
  buffered-ReadLaws = record { rest = to_come; delivers = read_mem-Delivers }
