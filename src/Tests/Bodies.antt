-- ===== src/Tests/Bodies.antt =====
-- A body over channels that are queues without a bound.
use hwire.Base.{ℕ, refl, true, false, List, [], ◌∷◌, ◌++◌, codes, inr}
use hwire.Body.Length.{DecodedLength}
use hwire.Body.Watch.{Waker}
use hwire.Body.Incoming.{
  Next, waits, item, has_room, Piece, Channels, Channel, h1, send_data, poll_frame,
}
use hwire.Body.Incoming.Kept.{Takes, ChannelLaws, Run, start, sent, polled}
use hwire.Body.Incoming.Flow.{Flows, Run-Flows}

abbrev waker : Waker
waker = record { W = ℕ; fresh = 0; register = λ w. w; wake = λ w. w }

abbrev front : List Piece → Next Piece × List Piece
front [] = (waits, [])
front (p ∷ ps) = (item p, ps)

abbrev queues : Channels
queues = record {
  Pieces = List Piece;
  no_pieces = [];
  try_send = λ d p. (true, d ++ p ∷ []);
  clone_try_send = λ d p. (true, d ++ p ∷ []);
  poll_room = λ d. (has_room, d);
  poll_next = front;
  is_terminated = λ d. false;
  HeaderMap = Unit;
  Trailers = Unit;
  no_trailers = tt;
  send = λ t m. (true, t);
  poll = λ t. (waits, t);
}

front-Takes : (d : List Piece) → Takes (λ d. d) d (front d)
front-Takes [] = refl
front-Takes (p ∷ ps) = refl

queues-ChannelLaws : ChannelLaws queues
queues-ChannelLaws = record {
  queued = λ d. d;
  starts = refl;
  sends = λ d p. refl;
  clones = λ d p. refl;
  rooms = λ d. refl;
  takes = front-Takes;
  over = λ d e. absurd (cc);
}

abbrev five : DecodedLength
five = record { value = 5 }

abbrev opened : Channel waker queues
opened = h1 waker queues five true

abbrev with_one : Channel waker queues
with_one = (send_data waker queues opened (codes "abc")).1

abbrev pieces : List Piece
pieces = inr (codes "abc") ∷ []

one_sent : Run waker queues five true pieces [] false with_one
unfolding send_data
one_sent = sent start (codes "abc")

one_polled : Run waker queues five true pieces pieces true (poll_frame waker queues with_one).1
unfolding send_data poll_frame h1
one_polled = polled one_sent

Run-Flows_example :
    Flows waker queues queues-ChannelLaws five true pieces pieces true
      (poll_frame waker queues with_one).1
Run-Flows_example = Run-Flows waker queues queues-ChannelLaws one_polled
