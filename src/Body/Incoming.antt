-- ===== src/Body/Incoming.antt =====
-- body/incoming.rs: the body of a response, and the sender of its pieces.
pub mod Kept
pub mod Flow
use hwire.Base.{
  ℕ, Bool, true, false, not, ◌&&◌, Option, none, some, ◌⊎◌, inl, inr, List, [], ◌∷◌, ◌==◌,
  if◌then◌else◌, Bytes, length,
}
use hwire.Error.{Error, new_error, channel_closed, body, http2}
use hwire.Body.Length.{DecodedLength, zero, same, sub_if, into_opt, is_exact}
use hwire.Body.Watch.{
  Waker, Watch, Watched, open_now, not_yet, shut, unexpected, new_watch, set_ready, drop_sender,
  poll_watch,
}
use hwire.Http2.Ping.{Outer, Locked, record_data, record_non_data}

-- What a channel gives its receiver: nothing yet, an item, or its end
pub data Next (A : Type 0) : Type 0 where
  waits ended : Next A
  item : A → Next A

-- `poll_ready` of a sender
pub data Room : Type 0 where
  has_room no_room receiver_gone : Room

-- A piece of a body, or the error that ends it
abbrev pub Piece : Type 0
Piece = Error ⊎ Bytes

-- The channels of futures-channel: `mpsc` with room for no item but one for each sender, and
-- `oneshot`, both ends of each together
pub record Channels : Type 1 where
  pub Pieces : Type 0
  pub no_pieces : Pieces
  -- whether the item is taken; it is given back if not
  pub try_send : Pieces → Piece → Bool × Pieces
  pub clone_try_send : Pieces → Piece → Bool × Pieces
  pub poll_room : Pieces → Room × Pieces
  pub poll_next : Pieces → Next Piece × Pieces
  pub is_terminated : Pieces → Bool
  pub HeaderMap : Type 0
  pub Trailers : Type 0
  pub no_trailers : Trailers
  pub send : Trailers → HeaderMap → Bool × Trailers
  pub poll : Trailers → Next HeaderMap × Trailers

-- `http2::RecvStream`; an error is whether its reason is `NO_ERROR`.
pub data Received (A : Type 0) : Type 0 where
  awaited : Received A
  got : A → Received A
  broken : (no_error : Bool) → Received A

pub record RecvStream (HeaderMap : Type 0) : Type 1 where
  pub Stream : Type 0
  pub poll_data : Stream → Received (Option Bytes) × Stream
  pub poll_trailers : Stream → Received (Option HeaderMap) × Stream
  pub release_capacity : Stream → ℕ → Stream
  pub is_end_stream : Stream → Bool

module _ (k : Waker) (ch : Channels) where
  open ch use {HeaderMap}

  -- `Kind::H1` with its `Sender`
  pub record Channel : Type 0 where
    pub want : Watch k
    pub data_rx : ch.Pieces
    pub trailers_rx : ch.Trailers
    pub trailers_tx : Bool
    pub content_length : DecodedLength

  -- `Poll<Option<Result<Frame, Error>>>`
  pub data Frame : Type 0 where
    no_frame end_of_body : Frame
    data_frame : Bytes → Frame
    trailers_frame : HeaderMap → Frame
    error_frame : Error → Frame

  -- `Incoming::h1`
  unfoldable pub h1 : DecodedLength → Bool → Channel
  h1 len wanter = record {
    want = new_watch k wanter;
    data_rx = ch.no_pieces;
    trailers_rx = ch.no_trailers;
    trailers_tx = true;
    content_length = len;
  }

  -- `Sender::poll_ready`: ready, not yet, an error, or the panic of the watch
  pub data SenderReady : Type 0 where
    sender_ready sender_waits sender_panics : SenderReady
    sender_error : Error → SenderReady

  abbrev pub of_room : Room → SenderReady
  of_room has_room = sender_ready
  of_room no_room = sender_waits
  of_room receiver_gone = sender_error (new_error channel_closed)

  abbrev pub room_of : Channel → Room × ch.Pieces → SenderReady × Channel
  room_of c (r, d) = (of_room r, record c { data_rx = d })

  abbrev pub ready_if : Channel → Watched × Watch k → SenderReady × Channel
  ready_if c (open_now, w) = room_of (record c { want = w }) (ch.poll_room c.data_rx)
  ready_if c (not_yet, w) = (sender_waits, record c { want = w })
  ready_if c (shut, w) = (sender_error (new_error channel_closed), record c { want = w })
  ready_if c (unexpected, w) = (sender_panics, record c { want = w })

  unfoldable pub poll_ready : Channel → SenderReady × Channel
  unfolding poll_watch
  poll_ready c = ready_if c (poll_watch k c.want)

  -- `Sender::send_data`: the chunk that is given back
  abbrev pub given_back : Channel → Bytes → Bool × ch.Pieces → Option Bytes × Channel
  given_back c chunk (true, d) = (none, record c { data_rx = d })
  given_back c chunk (false, d) = (some chunk, record c { data_rx = d })

  unfoldable pub send_data : Channel → Bytes → Option Bytes × Channel
  send_data c chunk = given_back c chunk (ch.try_send c.data_rx (inr chunk))

  -- `Sender::send_trailers`: `Err(None)`, `Err(Some(trailers))` and `Ok(())`
  pub data TrailersSent : Type 0 where
    sent_before trailers_sent : TrailersSent
    not_taken : HeaderMap → TrailersSent

  abbrev pub after_send : Channel → HeaderMap → Bool × ch.Trailers → TrailersSent × Channel
  after_send c m (true, t) = (trailers_sent, record c { trailers_rx = t; trailers_tx = false })
  after_send c m (false, t) = (not_taken m, record c { trailers_rx = t; trailers_tx = false })

  abbrev pub send_if : Bool → Channel → HeaderMap → TrailersSent × Channel
  send_if true c m = after_send c m (ch.send c.trailers_rx m)
  send_if false c m = (sent_before, c)

  unfoldable pub send_trailers : Channel → HeaderMap → TrailersSent × Channel
  send_trailers c m = send_if c.trailers_tx c m

  -- `Sender::send_error`
  unfoldable pub send_error : Channel → Error → Channel
  send_error c e = let r = ch.clone_try_send c.data_rx (inl e) in record c { data_rx = r.1 }

  -- `Incoming::poll_frame` of an HTTP/1 body
  abbrev pub of_trailers : Channel → Next HeaderMap × ch.Trailers → Frame × Channel
  of_trailers c (waits, t) = (no_frame, record c { trailers_rx = t })
  of_trailers c (ended, t) = (end_of_body, record c { trailers_rx = t })
  of_trailers c (item m, t) = (trailers_frame m, record c { trailers_rx = t })

  abbrev pub trailers_next : Channel → Frame × Channel
  trailers_next c = of_trailers c (ch.poll c.trailers_rx)

  abbrev pub of_piece : Channel → Next Piece × ch.Pieces → Frame × Channel
  of_piece c (waits, d) = (no_frame, record c { data_rx = d })
  of_piece c (ended, d) = trailers_next (record c { data_rx = d })
  of_piece c (item (inl e), d) = (error_frame e, record c { data_rx = d })
  of_piece c (item (inr chunk), d) = (
    data_frame chunk,
    record c { data_rx = d; content_length = sub_if c.content_length (length chunk) },
  )

  abbrev pub next_frame : Channel → Frame × Channel
  next_frame c =
      if ch.is_terminated c.data_rx then trailers_next c else of_piece c (ch.poll_next c.data_rx)

  unfoldable pub poll_frame : Channel → Frame × Channel
  unfolding set_ready sub_if
  poll_frame c = next_frame (record c { want = set_ready k c.want })

  -- The drop of an `Incoming`, as its sender sees it
  unfoldable pub drop_incoming : Channel → Channel
  unfolding drop_sender
  drop_incoming c = record c { want = drop_sender k c.want }

  -- `size_hint` and `is_end_stream`: an exact size, or none that is known
  unfoldable pub size_hint : DecodedLength → Option ℕ
  unfolding into_opt
  size_hint len = into_opt len

  unfoldable pub is_end_stream : DecodedLength → Bool
  is_end_stream len = same len zero

  module _ (o : Outer) (h : RecvStream ch.HeaderMap) where
    -- `Kind::H2`; a recorder may be disabled.
    pub record H2Body : Type 0 where
      pub ping : Option (Locked o)
      pub recv : h.Stream
      pub content_length : DecodedLength
      pub data_done : Bool

    -- `Incoming::h2`
    unfoldable pub h2 : h.Stream → DecodedLength → Option (Locked o) → H2Body
    unfolding is_exact
    h2 recv len ping = record {
      ping = ping;
      recv = recv;
      content_length = if not (is_exact len) && h.is_end_stream recv then zero else len;
      data_done = false;
    }

    abbrev pub record_len : ℕ → Option (Locked o) → Option (Locked o)
    record_len n none = none
    record_len n (some l) = some (record_data o n l)

    abbrev pub record_read : Option (Locked o) → Option (Locked o)
    record_read none = none
    record_read (some l) = some (record_non_data o l)

    abbrev pub h2_trailers : H2Body → Received (Option HeaderMap) × h.Stream → Frame × H2Body
    h2_trailers b (awaited, s) = (no_frame, record b { recv = s })
    h2_trailers b (got none, s) = (end_of_body, record b { recv = s; ping = record_read b.ping })
    h2_trailers b (got (some m), s) =
        (trailers_frame m, record b { recv = s; ping = record_read b.ping })
    h2_trailers b (broken true, s) = (end_of_body, record b { recv = s })
    h2_trailers b (broken false, s) = (error_frame (new_error http2), record b { recv = s })

    abbrev pub after_data : H2Body → Frame × H2Body
    after_data b = h2_trailers b (h.poll_trailers b.recv)

    abbrev pub h2_data : H2Body → Received (Option Bytes) × h.Stream → Frame × H2Body
    h2_data b (awaited, s) = (no_frame, record b { recv = s })
    h2_data b (got (some bytes), s) = (
      data_frame bytes,
      record b {
        recv = h.release_capacity s (length bytes);
        content_length = sub_if b.content_length (length bytes);
        ping = record_len (length bytes) b.ping;
      },
    )
    h2_data b (got none, s) = after_data (record b { recv = s; data_done = true })
    h2_data b (broken true, s) = (end_of_body, record b { recv = s })
    h2_data b (broken false, s) = (error_frame (new_error body), record b { recv = s })

    -- `Incoming::poll_frame` of an HTTP/2 body
    unfoldable pub poll_h2_frame : H2Body → Frame × H2Body
    unfolding sub_if record_data record_non_data
    poll_h2_frame b = if b.data_done then after_data b else h2_data b (h.poll_data b.recv)
