-- ===== src/Body/Incoming/Flow.antt =====
-- The pieces of an HTTP/1 body between its sender and its `Incoming`.
use hwire.Base.{
  ℕ, ◌-◌, ◌≤◌, ◌≡◌, ◌≢◌, inl, inr, refl, ap, ◌∙◌, Bool, true, false, Bool-cases, List, [], ◌++◌,
  append-nil, if◌then◌else◌,
}
use hwire.Body.Length.{DecodedLength, max_len}
use hwire.Body.Watch.{
  Waker, Watch, Watched, open_now, not_yet, shut, unexpected, set_ready, watched, poll_watch,
  watch_ready, watch_pending,
}
use hwire.Body.Incoming.{
  Next, waits, ended, item, Room, Piece, Channels, Channel, Frame, end_of_body, trailers_frame,
  sender_waits, sender_panics, room_of, ready_if, poll_ready, of_trailers, of_piece, next_frame,
  poll_frame,
}
use hwire.Body.Incoming.Kept.{ChannelLaws, Takes, total, Run, Run-Holds}

module _ (k : Waker) (ch : Channels) (laws : ChannelLaws ch) where
  -- Where the sender is told to wait for the first poll, and where nothing goes wrong in its watch
  asked_of :
      (c : Channel k ch) (x : Watched × Watch k)
      → x.0 ≢ unexpected
      → ((ready_if k ch c x).0 ≢ sender_panics)
        × (x.0 ≡ not_yet → (ready_if k ch c x).0 ≡ sender_waits)
  asked_of c (open_now, w) h = (of_room-ne (ch.poll_room c.data_rx), λ e. absurd (cc))
    where
      of_room-ne :
          (r : Room × ch.Pieces) → (room_of k ch (record c { want = w }) r).0 ≢ sender_panics
      of_room-ne (Room.has_room, d) e = cc
      of_room-ne (Room.no_room, d) e = cc
      of_room-ne (Room.receiver_gone, d) e = cc
  asked_of c (not_yet, w) h = (λ e. (cc), λ e. refl)
  asked_of c (shut, w) h = (λ e. (cc), λ e. absurd (cc))
  asked_of c (unexpected, w) h = absurd (h refl)

  abbrev EndsOnly : List Piece → List Piece → Frame k ch → Type 0
  EndsOnly s g end_of_body = s ≡ g
  EndsOnly s g (trailers_frame m) = s ≡ g
  EndsOnly s g _ = Unit

  all_given : (s g : List Piece) (q : List Piece) → s ≡ g ++ q → q ≡ [] → s ≡ g
  all_given s g q e z = e ∙ ap (λ x. g ++ x) z ∙ append-nil g

  of_trailers-EndsOnly :
      (s g : List Piece) (c : Channel k ch) (x : Next ch.HeaderMap × ch.Trailers)
      → s ≡ g
      → EndsOnly s g (of_trailers k ch c x).0
  of_trailers-EndsOnly s g c (waits, t) e = tt
  of_trailers-EndsOnly s g c (ended, t) e = e
  of_trailers-EndsOnly s g c (item m, t) e = e

  of_piece-EndsOnly :
      (s g : List Piece) (c : Channel k ch) (x : Next Piece × ch.Pieces)
      → s ≡ g ++ laws.queued c.data_rx
      → Takes laws.queued c.data_rx x
      → EndsOnly s g (of_piece k ch c x).0
  of_piece-EndsOnly s g c (waits, d) e q = tt
  of_piece-EndsOnly s g c (ended, d) e (a, b) =
      of_trailers-EndsOnly s g (record c { data_rx = d }) (ch.poll c.trailers_rx)
        (all_given s g _ e a)
  of_piece-EndsOnly s g c (item (inl x), d) e q = tt
  of_piece-EndsOnly s g c (item (inr x), d) e q = tt

  next_frame-EndsOnly :
      (s g : List Piece) (c : Channel k ch)
      → s ≡ g ++ laws.queued c.data_rx
      → EndsOnly s g (next_frame k ch c).0
  next_frame-EndsOnly s g c e = elim (Bool-cases (ch.is_terminated c.data_rx)) [
    | inl q ↦ rw q (
        of_trailers-EndsOnly s g c (ch.poll c.trailers_rx)
          (all_given s g _ e (laws.over c.data_rx q)))
    | inr q ↦ rw q (of_piece-EndsOnly s g c (ch.poll_next c.data_rx) e (laws.takes c.data_rx))
  ]

  watched-known :
      (p wanter : Bool) (v : ℕ)
      → v ≡ (if p then watch_ready else if wanter then watch_pending else watch_ready)
      → (watched k v ≢ unexpected) × (p ≡ false → wanter ≡ true → watched k v ≡ not_yet)
  unfolding watched
  watched-known true wanter v e = (rw e (λ z. cc), λ a b. absurd (cc))
  watched-known false true v e = (rw e (λ z. cc), λ a b. rw e refl)
  watched-known false false v e = (rw e (λ z. cc), λ a b. absurd (cc))

  pub record Flows (len : DecodedLength) (wanter : Bool) (s g : List Piece) (p : Bool)
      (c : Channel k ch) : Type 0 where
    pub order : s ≡ g ++ laws.queued c.data_rx
    pub exact :
        len.value ≤ max_len → total g ≤ len.value → c.content_length.value ≡ len.value - total g
    pub whole : EndsOnly s g (poll_frame k ch c).0
    pub no_panic : (poll_ready k ch c).0 ≢ sender_panics
    pub wanted : p ≡ false → wanter ≡ true → (poll_ready k ch c).0 ≡ sender_waits

  -- Whatever both sides call, in any order: what was delivered and then what the channel holds is what
  -- was sent, in order; an exact length is the declared one less what was delivered, as long as that
  -- is no more; the end of the body and its trailers come only when all is delivered; and the
  -- sender, whose watch never panics, waits for the first poll where it is to be wanted.
  pub Run-Flows :
      {len : DecodedLength} {wanter : Bool} {s g : List Piece} {p : Bool} {c : Channel k ch}
      → Run k ch len wanter s g p c
      → Flows len wanter s g p c
  unfolding poll_ready poll_watch poll_frame
  Run-Flows {len} {wanter} {s} {g} {p} {c} r =
      let h = Run-Holds k ch laws r in
      let (known, waiting) = watched-known p wanter c.want.value h.value in
      let (fine, first) = asked_of c (poll_watch k c.want) known in
      record {
        order = h.order;
        exact = h.exact;
        whole = next_frame-EndsOnly s g (record c { want = set_ready k c.want }) h.order;
        no_panic = fine;
        wanted = λ a b. first (waiting a b);
      }
