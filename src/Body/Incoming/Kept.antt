-- ===== src/Body/Incoming/Kept.antt =====
-- The calls of both sides of an HTTP/1 body in any order, and what each keeps.
use hwire.Base.{
  ℕ, ◌+◌, ◌-◌, ◌≤◌, ◌≡◌, inl, inr, refl, sym, ap, ◌∙◌, Bool, true, false, Bool-cases, Option, none,
  some, List, [], ◌∷◌, ◌++◌, ◌==◌, append_assoc, if◌then◌else◌, Bytes, length, arith, sub_u64-eq,
}
use hwire.Error.{Error}
use hwire.Body.Length.{DecodedLength, max_len, sub_if}
use hwire.Body.Watch.{
  Waker, Watch, Watched, open_now, not_yet, shut, unexpected, send, set_ready, poll_watch,
  watch_ready, watch_pending,
}
use hwire.Body.Incoming.{
  send_if, Next, waits, ended, item, Piece, Channels, Channel, Frame, data_frame, error_frame, h1,
  ready_if, poll_ready, given_back, send_data, after_send, send_trailers, send_error, of_trailers,
  of_piece, next_frame, poll_frame,
}

-- A channel takes an item behind those that it holds, or not at all.
abbrev pub Sends : {D : Type 0} → (D → List Piece) → D → Piece → Bool × D → Type 0
Sends queued d p (true, d') = queued d' ≡ queued d ++ p ∷ []
Sends queued d p (false, d') = queued d' ≡ queued d

-- A channel gives its items from the front, and its end only where it holds none.
abbrev pub Takes : {D : Type 0} → (D → List Piece) → D → Next Piece × D → Type 0
Takes queued d (waits, d') = queued d' ≡ queued d
Takes queued d (item p, d') = queued d ≡ p ∷ queued d'
Takes queued d (ended, d') = (queued d ≡ []) × (queued d' ≡ [])

pub record ChannelLaws (ch : Channels) : Type 0 where
  pub queued : ch.Pieces → List Piece
  pub starts : queued ch.no_pieces ≡ []
  pub sends : (d : ch.Pieces) (p : Piece) → Sends queued d p (ch.try_send d p)
  pub clones : (d : ch.Pieces) (p : Piece) → Sends queued d p (ch.clone_try_send d p)
  pub rooms : (d : ch.Pieces) → queued (ch.poll_room d).1 ≡ queued d
  pub takes : (d : ch.Pieces) → Takes queued d (ch.poll_next d)
  pub over : (d : ch.Pieces) → ch.is_terminated d ≡ true → queued d ≡ []

abbrev piece_len : Piece → ℕ
piece_len (inl e) = 0
piece_len (inr b) = length b

abbrev pub total : List Piece → ℕ
total [] = 0
total (p ∷ ps) = piece_len p + total ps

total-append : (ps : List Piece) (p : Piece) → total (ps ++ p ∷ []) ≡ total ps + piece_len p
total-append [] p = omega arith
total-append (q ∷ ps) p = omega (arith, total-append ps p)

sub_if-exact :
    (d : DecodedLength) (amt : ℕ)
    → d.value ≤ max_len
    → amt ≤ d.value
    → (sub_if d amt).value ≡ d.value - amt
unfolding sub_if
sub_if-exact d amt h k =
    let a : (d.value == 18446744073709551614) ≡ false = ground (arith, h) in
    let b : (d.value == 18446744073709551615) ≡ false = ground (arith, h) in
    let e = sub_u64-eq d.value amt (omega (arith, h)) k in rw (a, b) e

module _ (k : Waker) (ch : Channels) where
  -- The log with a piece that the channel took
  abbrev pub taken : Option Bytes → Bytes → List Piece → List Piece
  taken none chunk s = s ++ inr chunk ∷ []
  taken (some b) chunk s = s

  abbrev pub failed_with : Bool → Error → List Piece → List Piece
  failed_with true e s = s ++ inl e ∷ []
  failed_with false e s = s

  abbrev pub delivered : Frame k ch → List Piece → List Piece
  delivered (data_frame b) g = g ++ inr b ∷ []
  delivered (error_frame e) g = g ++ inl e ∷ []
  delivered _ g = g

  -- The calls of both sides in any order, with the pieces that were sent, those that were delivered,
  -- and whether the body was polled
  pub data Run (len : DecodedLength) (wanter : Bool)
      : List Piece → List Piece → Bool → Channel k ch → Type 0 where
    start : Run len wanter [] [] false (h1 k ch len wanter)
    asked :
        {s g : List Piece} {p : Bool} {c : Channel k ch}
        → Run len wanter s g p c
        → Run len wanter s g p (poll_ready k ch c).1
    sent :
        {s g : List Piece} {p : Bool} {c : Channel k ch}
        → Run len wanter s g p c
        → (chunk : Bytes)
        → Run len wanter (taken (send_data k ch c chunk).0 chunk s) g p (send_data k ch c chunk).1
    ended_with :
        {s g : List Piece} {p : Bool} {c : Channel k ch}
        → Run len wanter s g p c
        → (m : ch.HeaderMap) → Run len wanter s g p (send_trailers k ch c m).1
    failed :
        {s g : List Piece} {p : Bool} {c : Channel k ch}
        → Run len wanter s g p c
        → (e : Error)
        → Run len wanter
            (failed_with (ch.clone_try_send c.data_rx (inl e)).0 e s)
            g
            p
            (send_error k ch c e)
    polled :
        {s g : List Piece} {p : Bool} {c : Channel k ch}
        → Run len wanter s g p c
        → Run len wanter s (delivered (poll_frame k ch c).0 g) true (poll_frame k ch c).1

  module _ (laws : ChannelLaws ch) where
    pub record Holds (len : DecodedLength) (wanter : Bool) (s g : List Piece) (p : Bool)
        (c : Channel k ch) : Type 0 where
      pub order : s ≡ g ++ laws.queued c.data_rx
      pub exact :
          len.value ≤ max_len → total g ≤ len.value → c.content_length.value ≡ len.value - total g
      pub value :
          c.want.value ≡ (if p then watch_ready else if wanter then watch_pending else watch_ready)

    -- A call that leaves the pieces, the length and the watch's value as they are
    same_parts :
        {len : DecodedLength} {wanter : Bool} {s g : List Piece} {p : Bool}
        → (c c' : Channel k ch) → Holds len wanter s g p c
        → laws.queued c'.data_rx ≡ laws.queued c.data_rx
        → c'.content_length ≡ c.content_length
        → c'.want.value ≡ c.want.value
        → Holds len wanter s g p c'
    same_parts {len} {wanter} {s} {g} c c' h q l v = record {
      order = h.order ∙ ap (λ x. g ++ x) (sym q);
      exact = λ a b. ap (λ x. x.value) l ∙ h.exact a b;
      value = v ∙ h.value;
    }

    asked-Holds :
        {len : DecodedLength} {wanter : Bool} {s g : List Piece} {p : Bool}
        → (c : Channel k ch) (x : Watched × Watch k) → Holds len wanter s g p c
        → x.1.value ≡ c.want.value
        → Holds len wanter s g p (ready_if k ch c x).1
    asked-Holds c (open_now, w) h v = same_parts c _ h (laws.rooms c.data_rx) refl v
    asked-Holds c (not_yet, w) h v = same_parts c (record c { want = w }) h refl refl v
    asked-Holds c (shut, w) h v = same_parts c (record c { want = w }) h refl refl v
    asked-Holds c (unexpected, w) h v = same_parts c (record c { want = w }) h refl refl v

    more_sent :
        {len : DecodedLength} {wanter : Bool} {s g : List Piece} {p : Bool}
        → (c : Channel k ch) (d : ch.Pieces) (x : Piece) → Holds len wanter s g p c
        → laws.queued d ≡ laws.queued c.data_rx ++ x ∷ []
        → Holds len wanter (s ++ x ∷ []) g p (record c { data_rx = d })
    more_sent {len} {wanter} {s} {g} c d x h q = record {
      order =
          ap (λ l. l ++ x ∷ []) h.order
          ∙ append_assoc g (laws.queued c.data_rx) (x ∷ [])
          ∙ ap (λ l. g ++ l) (sym q);
      exact = h.exact;
      value = h.value;
    }

    sent-Holds :
        {len : DecodedLength} {wanter : Bool} {s g : List Piece} {p : Bool}
        → (c : Channel k ch) (chunk : Bytes) (x : Bool × ch.Pieces) → Holds len wanter s g p c
        → Sends laws.queued c.data_rx (inr chunk) x
        → Holds len wanter
            (taken (given_back k ch c chunk x).0 chunk s)
            g
            p
            (given_back k ch c chunk x).1
    sent-Holds c chunk (true, d) h q = more_sent c d (inr chunk) h q
    sent-Holds c chunk (false, d) h q = same_parts c (record c { data_rx = d }) h q refl refl

    failed-Holds :
        {len : DecodedLength} {wanter : Bool} {s g : List Piece} {p : Bool}
        → (c : Channel k ch) (e : Error) (x : Bool × ch.Pieces) → Holds len wanter s g p c
        → Sends laws.queued c.data_rx (inl e) x
        → Holds len wanter (failed_with x.0 e s) g p (record c { data_rx = x.1 })
    failed-Holds c e (true, d) h q = more_sent c d (inl e) h q
    failed-Holds c e (false, d) h q = same_parts c (record c { data_rx = d }) h q refl refl

    after_send-Holds :
        {len : DecodedLength} {wanter : Bool} {s g : List Piece} {p : Bool}
        → (c : Channel k ch) (m : ch.HeaderMap) (x : Bool × ch.Trailers) → Holds len wanter s g p c
        → Holds len wanter s g p (after_send k ch c m x).1
    after_send-Holds c m (true, t) h = same_parts c _ h refl refl refl
    after_send-Holds c m (false, t) h = same_parts c _ h refl refl refl

    send_if-Holds :
        {len : DecodedLength} {wanter : Bool} {s g : List Piece} {p : Bool}
        → (free : Bool) (c : Channel k ch) (m : ch.HeaderMap) → Holds len wanter s g p c
        → Holds len wanter s g p (send_if k ch free c m).1
    send_if-Holds true c m h = after_send-Holds c m (ch.send c.trailers_rx m) h
    send_if-Holds false c m h = h

    of_trailers-Holds :
        {len : DecodedLength} {wanter : Bool} {s g : List Piece} {p : Bool}
        → (c : Channel k ch) (x : Next ch.HeaderMap × ch.Trailers) → Holds len wanter s g p c
        → Holds len wanter s (delivered (of_trailers k ch c x).0 g) p (of_trailers k ch c x).1
    of_trailers-Holds c (waits, t) h = same_parts c _ h refl refl refl
    of_trailers-Holds c (ended, t) h = same_parts c _ h refl refl refl
    of_trailers-Holds c (item m, t) h = same_parts c _ h refl refl refl

    of_piece-Holds :
        {len : DecodedLength} {wanter : Bool} {s g : List Piece} {p : Bool}
        → (c : Channel k ch) (x : Next Piece × ch.Pieces) → Holds len wanter s g p c
        → Takes laws.queued c.data_rx x
        → Holds len wanter s (delivered (of_piece k ch c x).0 g) p (of_piece k ch c x).1
    of_piece-Holds c (waits, d) h q = same_parts c (record c { data_rx = d }) h q refl refl
    of_piece-Holds c (ended, d) h (a, b) =
        of_trailers-Holds (record c { data_rx = d }) _
          (same_parts c (record c { data_rx = d }) h (b ∙ sym a) refl refl)
    of_piece-Holds {len} {wanter} {s} {g} c (item (inl e), d) h q = record {
      order = h.order ∙ ap (λ l. g ++ l) q ∙ sym (append_assoc g (inl e ∷ []) (laws.queued d));
      exact = λ a b.
          let t = total-append g (inl e) in h.exact a (omega (arith, b, t)) ∙ omega (arith, t);
      value = h.value;
    }
    of_piece-Holds {len} {wanter} {s} {g} c (item (inr chunk), d) h q = record {
      order = h.order ∙ ap (λ l. g ++ l) q ∙ sym (append_assoc g (inr chunk ∷ []) (laws.queued d));
      exact = λ a b.
          let t = total-append g (inr chunk) in
          let e = h.exact a (omega (arith, b, t)) in
          sub_if-exact c.content_length (length chunk) (omega (arith, a, e))
            (omega (arith, e, b, t))
          ∙ omega (arith, e, t);
      value = h.value;
    }

    next_frame-Holds :
        {len : DecodedLength} {wanter : Bool} {s g : List Piece} {p : Bool}
        → (c : Channel k ch) → Holds len wanter s g p c
        → Holds len wanter s (delivered (next_frame k ch c).0 g) p (next_frame k ch c).1
    next_frame-Holds c h = elim (Bool-cases (ch.is_terminated c.data_rx)) [
      | inl q ↦ rw q (of_trailers-Holds c (ch.poll c.trailers_rx) h)
      | inr q ↦ rw q (of_piece-Holds c (ch.poll_next c.data_rx) h (laws.takes c.data_rx))
    ]

    set_ready-value : (w : Watch k) → (set_ready k w).value ≡ watch_ready
    unfolding set_ready send
    set_ready-value w = elim (Bool-cases (w.value == watch_ready)) [
      | inl q ↦ rw q ((let e : w.value ≡ watch_ready = ground (arith, q) in e))
      | inr q ↦ rw q refl
    ]

    now_ready :
        {len : DecodedLength} {wanter : Bool} {s g : List Piece} {p : Bool}
        → (c : Channel k ch) → Holds len wanter s g p c
        → Holds len wanter s g true (record c { want = set_ready k c.want })
    now_ready c h = record { order = h.order; exact = h.exact; value = set_ready-value c.want }

    polled-Holds :
        {len : DecodedLength} {wanter : Bool} {s g : List Piece} {p : Bool}
        → (c : Channel k ch) → Holds len wanter s g p c
        → Holds len wanter s (delivered (poll_frame k ch c).0 g) true (poll_frame k ch c).1
    unfolding poll_frame
    polled-Holds c h = next_frame-Holds (record c { want = set_ready k c.want }) (now_ready c h)

    pub Run-Holds :
        {len : DecodedLength} {wanter : Bool} {s g : List Piece} {p : Bool} {c : Channel k ch}
        → Run len wanter s g p c
        → Holds len wanter s g p c
    unfolding h1 poll_ready poll_watch send_data send_trailers send_error
    Run-Holds start = record { order = sym laws.starts; exact = λ a b. omega arith; value = refl }
    Run-Holds (asked {s} {g} {p} {c} r) = asked-Holds c (poll_watch k c.want) (Run-Holds r) refl
    Run-Holds (sent {s} {g} {p} {c} r chunk) =
        sent-Holds c chunk (ch.try_send c.data_rx (inr chunk)) (Run-Holds r)
          (laws.sends c.data_rx (inr chunk))
    Run-Holds (ended_with {s} {g} {p} {c} r m) = send_if-Holds c.trailers_tx c m (Run-Holds r)
    Run-Holds (failed {s} {g} {p} {c} r e) =
        failed-Holds c e (ch.clone_try_send c.data_rx (inl e)) (Run-Holds r)
          (laws.clones c.data_rx (inl e))
    Run-Holds (polled {s} {g} {p} {c} r) = polled-Holds c (Run-Holds r)
