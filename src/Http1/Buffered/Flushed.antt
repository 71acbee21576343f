-- ===== src/Http1/Buffered/Flushed.antt =====
-- What a flush does to the bytes between the write buffer and the socket.
use hwire.Base.{
  ℕ, zero, suc, ◌+◌, ◌≤◌, ◌<◌, ◌≡◌, ◌⊎◌, inl, inr, refl, sym, ap, ◌∙◌, subst, true, Bool-cases,
  Option, none, some, [], ◌∷◌, ◌++◌, ◌==◌, ==_iff, Bytes, length, take, drop, concat, append_assoc,
  append-nil, take-append-drop, length-drop, drop_add, arith,
}
use hwire.Io.{Out, ready, failed, pending, panicked}
use hwire.Http1.WriteBuf.{
  WriteBuf, WriteStrategy, flatten, queue, Cursor, cursor_chunk, cursor_remaining, cursor_reset,
  remaining, advance,
}
use hwire.Http1.WriteBuf.Queue.{
  unsent, QueueIfFlat, IsBuf, remaining-length, BufAdvanced, advance-BufAdvanced,
}
use hwire.Http1.Buffered.{Transport, Buffered}
use hwire.Http1.Buffered.Flush.{
  Sink, Flushed, Turn, stop, leave, again, with_io, flushed, with_headers, flat_turn, wrote_flat,
  write_flat, queue_turn, advanced, wrote_queue, write_queue, socket_flush, write_loop, write_with,
  holds_back, poll_flush,
}

-- A write takes a prefix of the bytes that it is given.
abbrev pub Writes : {S : Type 0} → (S → Bytes) → S → Bytes → Out S ℕ → Type 0
Writes sent s bytes (ready s' n) = (n ≤ length bytes) × (sent s' ≡ sent s ++ take n bytes)
Writes sent s bytes (failed s' e) = sent s' ≡ sent s
Writes sent s bytes (pending s') = sent s' ≡ sent s
Writes sent s bytes panicked = ⊥

-- A flush of the socket sends nothing more.
abbrev pub Keeps : {S A : Type 0} → (S → Bytes) → S → Out S A → Type 0
Keeps sent s (ready s' a) = sent s' ≡ sent s
Keeps sent s (failed s' e) = sent s' ≡ sent s
Keeps sent s (pending s') = sent s' ≡ sent s
Keeps sent s panicked = ⊥

pub record SinkLaws {t : Transport} (sink : Sink t) : Type 0 where
  pub sent : t.Socket → Bytes
  pub writes : (s : t.Socket) (bytes : Bytes) → Writes sent s bytes (sink.poll_write s bytes)
  pub writes_buf :
      (s : t.Socket) (w : WriteBuf) → IsBuf w → Writes sent s (unsent w) (sink.poll_write_buf s w)
  pub flushes : (s : t.Socket) → Keeps sent s (sink.poll_flush s)

module _ (t : Transport) (sink : Sink t) (laws : SinkLaws sink) where
  open t use {Socket}

  -- What the socket has, with what is still to be sent behind it
  abbrev pub stream : Buffered t → Bytes
  stream b = laws.sent b.io ++ unsent b.write_buf

  pub record SameStream (b b' : Buffered t) : Type 0 where
    pub is_buf : IsBuf b'.write_buf
    pub same : stream b' ≡ stream b

  -- Nothing is lost, doubled or reordered, and `Ok(())` says that all is sent or held back.
  abbrev pub Outcome : Buffered t → Option (Flushed t sink) → Type 0
  Outcome b none = ⊥
  Outcome b (some (ready b' u)) =
      SameStream b b' × ((unsent b'.write_buf ≡ []) ⊎ (holds_back t sink b ≡ true))
  Outcome b (some (failed b' e)) = SameStream b b'
  Outcome b (some (pending b')) = SameStream b b'
  Outcome b (some panicked) = ⊥

  SameStream-trans : {a b c : Buffered t} → SameStream a b → SameStream b c → SameStream a c
  SameStream-trans x y = record { is_buf = y.is_buf; same = y.same ∙ x.same }

  -- A socket that has sent no more
  with_io-SameStream :
      (b : Buffered t) (s : Socket)
      → IsBuf b.write_buf
      → laws.sent s ≡ laws.sent b.io
      → SameStream b (with_io t sink b s)
  with_io-SameStream b s i e = record { is_buf = i; same = ap (λ x. x ++ unsent b.write_buf) e }

  flushed-Outcome :
      (b : Buffered t) (x : Out Socket (Unit {0}))
      → IsBuf b.write_buf
      → unsent b.write_buf ≡ []
      → Keeps laws.sent b.io x
      → Outcome b (some (flushed t sink b x))
  flushed-Outcome b (ready s u) i e k = (with_io-SameStream b s i k, inl e)
  flushed-Outcome b (failed s x) i e k = with_io-SameStream b s i k
  flushed-Outcome b (pending s) i e k = with_io-SameStream b s i k
  flushed-Outcome b panicked i e k = k

  later-Outcome :
      (a b : Buffered t) (x : Option (Flushed t sink))
      → SameStream a b
      → (holds_back t sink b ≡ true → holds_back t sink a ≡ true)
      → Outcome b x
      → Outcome a x
  later-Outcome a b none s h x = x
  later-Outcome a b (some (ready b' u)) s h (x, inl e) = (SameStream-trans s x, inl e)
  later-Outcome a b (some (ready b' u)) s h (x, inr e) = (SameStream-trans s x, inr (h e))
  later-Outcome a b (some (failed b' e)) s h x = SameStream-trans s x
  later-Outcome a b (some (pending b')) s h x = SameStream-trans s x
  later-Outcome a b (some panicked) s h x = x

  record Rest (b b' : Buffered t) : Type 0 where
    stream : SameStream b b'
    held : holds_back t sink b' ≡ holds_back t sink b

  -- A round loses nothing, is left where all is sent, and goes on with less to send.
  abbrev TurnOk : (Buffered t → Type 0) → Buffered t → Turn t sink → Type 0
  TurnOk P b (stop x) = Outcome b (some x)
  TurnOk P b (leave b') = Rest b b' × (unsent b'.write_buf ≡ [])
  TurnOk P b (again b') =
      Rest b b' × (P b' × (length (unsent b'.write_buf) < length (unsent b.write_buf)))

  write_loop-Outcome :
      (P : Buffered t → Type 0) (turn : Buffered t → Turn t sink)
      → ((b : Buffered t) → IsBuf b.write_buf → P b → TurnOk P b (turn b))
      → (fuel : ℕ) (b : Buffered t) → IsBuf b.write_buf
      → P b
      → length (unsent b.write_buf) < fuel
      → Outcome b (write_loop t sink turn fuel b)
  unfolding write_loop
  write_loop-Outcome P turn ok zero b i p h = absurd (omega (arith, h))
  write_loop-Outcome P turn ok (suc fuel) b i p h =
      go (turn b) (ok b i p) (λ b' i' p' k. write_loop-Outcome P turn ok fuel b' i' p' k)
    where
      go :
          (x : Turn t sink)
          → TurnOk P b x
          → ((b' : Buffered t)
              → IsBuf b'.write_buf
              → P b'
              → length (unsent b'.write_buf) < fuel
              → Outcome b' (write_loop t sink turn fuel b'))
          → Outcome b (elim x [
            | stop x ↦ some x
            | leave b' ↦ some (socket_flush t sink b')
            | again b' ↦ write_loop t sink turn fuel b'
          ])
      go (stop x) k ih = k
      go (leave b') (r, e) ih =
          later-Outcome b b' (some (socket_flush t sink b')) r.stream (λ z. sym r.held ∙ z)
            (flushed-Outcome b' (sink.poll_flush b'.io) r.stream.is_buf e (laws.flushes b'.io))
      go (again b') (r, (p', less)) ih =
          later-Outcome b b' (write_loop t sink turn fuel b') r.stream (λ z. sym r.held ∙ z)
            (ih b' r.stream.is_buf p' (omega (arith, h, less)))

  -- A prefix that is sent leaves the rest.
  sent_prefix :
      (s s' : Socket) (bytes : Bytes) (n : ℕ)
      → laws.sent s' ≡ laws.sent s ++ take n bytes
      → laws.sent s' ++ drop n bytes ≡ laws.sent s ++ bytes
  sent_prefix s s' bytes n e =
      ap (λ x. x ++ drop n bytes) e
      ∙ append_assoc (laws.sent s) (take n bytes) (drop n bytes)
      ∙ ap (λ x. laws.sent s ++ x) (take-append-drop n bytes)

  nothing_left : (bytes : Bytes) → length bytes ≡ 0 → bytes ≡ []
  nothing_left [] e = refl
  nothing_left (b ∷ bs) e = absurd (omega (arith, e))

  queue_turn-Ok :
      (b : Buffered t) (s : Socket) (w : WriteBuf) (n : ℕ)
      → IsBuf w
      → unsent w ≡ drop n (unsent b.write_buf)
      → n ≤ length (unsent b.write_buf)
      → laws.sent s ≡ laws.sent b.io ++ take n (unsent b.write_buf)
      → TurnOk (λ b. Unit) b (queue_turn t sink (with_io t sink b s) w n)
  unfolding queue_turn
  queue_turn-Ok b s w n i e h k =
      let st : SameStream b (record b { io = s; write_buf = w }) = record {
        is_buf = i;
        same = ap (λ x. laws.sent s ++ x) e ∙ sent_prefix b.io s (unsent b.write_buf) n k;
      } in
      let r = remaining-length w i in
      elim (Bool-cases (remaining w == 0)) [
        | inl q ↦ rw q (
          record { stream = st; held = refl },
          nothing_left (unsent w) (sym r ∙ (==_iff (remaining w) 0).0 q),
        )
        | inr q ↦ elim (Bool-cases (n == 0)) [
          | inl z ↦ rw (q, z) st
          | inr z ↦
              let ne : 0 < n = ground (arith, z) in
              let m : 0 < length (unsent w) = ground (arith, q, r) in
              rw (q, z)
                (
                  record { stream = st; held = refl },
                  (
                    tt,
                    omega (arith, ne, m, ap (λ x. length x) e, length-drop n (unsent b.write_buf)),
                  ),
                )
        ]
      ]

  advanced-Ok :
      (b : Buffered t) (s : Socket) (n : ℕ) (x : Option WriteBuf)
      → (a : BufAdvanced b.write_buf n) → x ≡ some a.left
      → n ≤ length (unsent b.write_buf)
      → laws.sent s ≡ laws.sent b.io ++ take n (unsent b.write_buf)
      → TurnOk (λ b. Unit) b (advanced t sink (with_io t sink b s) n x)
  advanced-Ok b s n none a e h k = absurd (cc)
  advanced-Ok b s n (some w) a e h k =
      let z : a.left ≡ w = cc in
      queue_turn-Ok b s w n (subst IsBuf z a.is_buf) (ap unsent (sym z) ∙ a.gives) h k

  wrote_queue-Ok :
      (b : Buffered t) (x : Out Socket ℕ)
      → IsBuf b.write_buf
      → Writes laws.sent b.io (unsent b.write_buf) x
      → TurnOk (λ b. Unit) b (wrote_queue t sink b x)
  wrote_queue-Ok b (ready s n) i (h, k) =
      let a = advance-BufAdvanced b.write_buf n i h in
      advanced-Ok b s n (advance b.write_buf n) a a.advances h k
  wrote_queue-Ok b (failed s e) i k = with_io-SameStream b s i k
  wrote_queue-Ok b (pending s) i k = with_io-SameStream b s i k
  wrote_queue-Ok b panicked i k = k

  write_queue-Ok :
      (b : Buffered t) → IsBuf b.write_buf → TurnOk (λ b. Unit) b (write_queue t sink b)
  unfolding write_queue
  write_queue-Ok b i = wrote_queue-Ok b _ i (laws.writes_buf b.io b.write_buf i)

  abbrev NoQueue : Buffered t → Type 0
  NoQueue b = b.write_buf.bufs.bufs ≡ []

  unsent_flat : (b : Buffered t) → NoQueue b → unsent b.write_buf ≡ cursor_chunk b.write_buf.headers
  unsent_flat b q =
      ap (λ l. cursor_chunk b.write_buf.headers ++ concat l) q
      ∙ append-nil (cursor_chunk b.write_buf.headers)

  -- A header cursor that moved on by what was written
  moved : Cursor → ℕ → Cursor
  moved h n = record h { pos = h.pos + n }

  flat_turn-Ok :
      (b : Buffered t) (s : Socket) (n : ℕ)
      → IsBuf b.write_buf
      → NoQueue b
      → n ≤ length (cursor_chunk b.write_buf.headers)
      → laws.sent s ≡ laws.sent b.io ++ take n (cursor_chunk b.write_buf.headers)
      → TurnOk NoQueue b (flat_turn t sink (with_io t sink b s) (moved b.write_buf.headers n) n)
  unfolding flat_turn moved
  flat_turn-Ok b s n i q h k =
      let c = moved b.write_buf.headers n in
      let whole = cursor_chunk b.write_buf.headers in
      let size : length whole ≡ cursor_remaining b.write_buf.headers =
        length-drop b.write_buf.headers.pos b.write_buf.headers.bytes in
      let b' = with_headers t sink (with_io t sink b s) c in
      let b0 = with_headers t sink (with_io t sink b s) cursor_reset in
      let left : unsent b'.write_buf ≡ drop n whole =
        unsent_flat b' q ∙ drop_add b.write_buf.headers.pos n b.write_buf.headers.bytes in
      let joined : laws.sent s ++ drop n whole ≡ stream b =
        sent_prefix b.io s whole n k ∙ ap (λ x. laws.sent b.io ++ x) (sym (unsent_flat b q)) in
      let st : SameStream b b' = record {
        is_buf = record { counted = i.counted; within = omega (arith, h, size, i.within) };
        same = ap (λ x. laws.sent s ++ x) left ∙ joined;
      } in
      elim (Bool-cases (cursor_remaining c == 0)) [
        | inl z ↦
            let e : cursor_remaining c ≡ 0 = (==_iff (cursor_remaining c) 0).0 z in
            let none_left : drop n whole ≡ [] =
              nothing_left (drop n whole) (omega (arith, e, size, length-drop n whole)) in
            let empty : unsent b0.write_buf ≡ [] = unsent_flat b0 q in
            rw z (
              record {
                stream = record {
                  is_buf = record { counted = i.counted; within = omega arith };
                  same = ap (λ x. laws.sent s ++ x) (empty ∙ sym none_left) ∙ joined;
                };
                held = refl;
              },
              empty,
            )
        | inr z ↦ elim (Bool-cases (n == 0)) [
          | inl y ↦ rw (z, y) st
          | inr y ↦
              let ne : 0 < n = ground (arith, y) in
              rw (z, y)
                (
                  record { stream = st; held = refl },
                  (
                    q,
                    omega (
                      arith,
                      ne,
                      h,
                      ap (λ x. length x) left,
                      length-drop n whole,
                      ap (λ x. length x) (unsent_flat b q),
                    ),
                  ),
                )
        ]
      ]

  wrote_flat-Ok :
      (b : Buffered t) (x : Out Socket ℕ)
      → IsBuf b.write_buf
      → NoQueue b
      → Writes laws.sent b.io (cursor_chunk b.write_buf.headers) x
      → TurnOk NoQueue b (wrote_flat t sink b x)
  unfolding moved
  wrote_flat-Ok b (ready s n) i q (h, k) = flat_turn-Ok b s n i q h k
  wrote_flat-Ok b (failed s e) i q k = with_io-SameStream b s i k
  wrote_flat-Ok b (pending s) i q k = with_io-SameStream b s i k
  wrote_flat-Ok b panicked i q k = k

  write_flat-Ok :
      (b : Buffered t) → IsBuf b.write_buf → NoQueue b → TurnOk NoQueue b (write_flat t sink b)
  unfolding write_flat
  write_flat-Ok b i q = wrote_flat-Ok b _ i q (laws.writes b.io (cursor_chunk b.write_buf.headers))

  write_with-Outcome :
      (st : WriteStrategy) (fuel : ℕ) (b : Buffered t)
      → IsBuf b.write_buf
      → QueueIfFlat st b.write_buf
      → length (unsent b.write_buf) < fuel
      → Outcome b (write_with t sink st fuel b)
  write_with-Outcome flatten fuel b i q h =
      write_loop-Outcome NoQueue (write_flat t sink) write_flat-Ok fuel b i q h
  write_with-Outcome queue fuel b i q h =
      write_loop-Outcome (λ b. Unit) (write_queue t sink) (λ b i p. write_queue-Ok b i) fuel b i tt
        h

  -- Over a socket that takes prefixes of what it is given, and with more fuel than there are bytes to
  -- send, `poll_flush` returns without a panic. What the socket has got with what is still to be sent
  -- behind it stays the same stream of bytes, whether it is done, fails or waits; and where it is
  -- done, everything is sent, or responses are held back for the requests that are there to be read.
  pub poll_flush-Outcome :
      (fuel : ℕ) (b : Buffered t)
      → IsBuf b.write_buf
      → QueueIfFlat b.write_buf.strategy b.write_buf
      → length (unsent b.write_buf) < fuel
      → Outcome b (poll_flush t sink fuel b)
  unfolding poll_flush
  poll_flush-Outcome fuel b i q h = elim (Bool-cases (holds_back t sink b)) [
    | inl z ↦ rw z (record { is_buf = i; same = refl }, inr z)
    | inr z ↦ elim (Bool-cases (remaining b.write_buf == 0)) [
      | inl y ↦
          let e =
            nothing_left (unsent b.write_buf)
              (sym (remaining-length b.write_buf i) ∙ (==_iff (remaining b.write_buf) 0).0 y) in
          rw (z, y) (flushed-Outcome b (sink.poll_flush b.io) i e (laws.flushes b.io))
      | inr y ↦ rw (z, y) (write_with-Outcome b.write_buf.strategy fuel b i q h)
    ]
  ]
