-- ===== src/Http1/Dispatch.antt =====
-- `Dispatcher` of proto/http1/dispatch.rs, between a dispatch and the connection.
pub mod Write
pub mod WriteSteps
pub mod Read
pub mod ReadSteps
pub mod Loop
pub mod Inner
pub mod Client
pub mod Asserts
use hwire.Body.Length.{DecodedLength}
use hwire.Base.{
  ◌⊎◌, ◌||◌, if◌then◌else◌, ℕ, Bool, true, false, not, ◌&&◌, Option, none, some, ◌⊎◌, Bytes,
}
use hwire.Io.{Out, ready, failed, pending, panicked}
use hwire.Error.{Error, new_error, with_cause, from_io, body_write}
use hwire.Http1.Buffered.{Transport, Buffered}
use hwire.Http1.Buffered.Flush.{Sink}
use hwire.Http1.Buffered.Flush
use hwire.Http1.State.{is_write_closed, Outside, close_read, close_write, is_read_closed}
use hwire.Http1.Transaction.{MessageHead, Transaction}
use hwire.Http1.Conn.{Conn, set_state, keep_alive_and_notify, can_write_body}

-- `Dispatch::poll_msg`: pending, `None`, an error of the service, or a head with its body
pub data Asked (H B : Type 0) : Type 0 where
  not_asked no_more service_failed : Asked H B
  message : H → B → Asked H B

-- `Body::poll_frame` of the body of a message
pub data BodyFrame (M : Type 0) : Type 0 where
  later over unknown_frame body_failed : BodyFrame M
  data_piece : Bytes → BodyFrame M
  trailers_piece : M → BodyFrame M

-- Whether a message or a piece is welcome: not yet, yes, or never again
pub data Heard : Type 0 where
  not_now hears deaf : Heard

-- A dispatch, the bodies of its messages and of those that it receives, and whether the vector of the write buffer has room
pub record Service (out : Outside) (role : Transaction out) : Type 1 where
  pub D : Type 0
  pub Body : Type 0
  -- `body::Sender` and `Incoming`
  pub Tx : Type 0
  pub Rx : Type 0
  pub poll_msg : D → Asked (MessageHead out role.Outgoing) Body × D
  pub should_poll : D → Bool
  pub is_end_stream : Body → Bool
  pub exact_size : Body → Option ℕ
  pub poll_frame : Body → BodyFrame out.http.HeaderMap × Body
  pub has_room : D → Bool
  -- `Dispatch::poll_ready` and `recv_msg`, with the error that it returns
  pub poll_ready : D → Heard × D
  pub recv_msg : D → Error ⊎ (MessageHead out role.Incoming × Rx) → Option Error × D
  -- `Incoming::empty`, `Incoming::h1` and the calls of a body's sender
  pub empty_body : Rx
  pub body_channel : DecodedLength → Bool → Tx × Rx
  pub tx_ready : Tx → Heard × Tx
  pub send_data : Tx → Bytes → Bool × Tx
  pub send_trailers : Tx → out.http.HeaderMap → Bool × Tx
  pub send_error : D → Tx → Error → D
  -- a pending upgrade, and a head that carries its other end
  pub new_upgrade : D → out.Pending
  pub with_upgrade : D → MessageHead out role.Incoming → MessageHead out role.Incoming

module _ (out : Outside) (t : Transport) (role : Transaction out) (sv : Service out role) where
  open sv use {D, Body}

  pub record Dispatcher : Type 0 where
    pub conn : Conn out t
    pub dispatch : D
    pub body_tx : Option sv.Tx
    pub body_rx : Option Body
    pub is_closing : Bool

  -- `Dispatcher::close`
  unfoldable pub close_conn : Conn out t → Conn out t
  close_conn c =
      let c' = set_state out t c (close_read out c.state) in
      set_state out t c' (close_write out c'.state)

  unfoldable pub close : Dispatcher → Dispatcher
  unfolding close_conn
  close s = record s { is_closing = true; conn = close_conn s.conn }

  abbrev pub is_some_body : Option Body → Bool
  is_some_body none = false
  is_some_body (some b) = true

  -- `Dispatcher::can_write_again`
  unfoldable pub can_write_again : Dispatcher → Bool
  can_write_again s = not s.is_closing && (is_some_body s.body_rx && can_write_body out t s.conn)

  -- `Dispatcher::is_done`
  abbrev pub write_done : Dispatcher → Bool
  write_done s =
      is_write_closed out s.conn.state
      || (not (sv.should_poll s.dispatch) && not (is_some_body s.body_rx))

  unfoldable pub is_done : Dispatcher → Bool
  is_done s =
      if s.is_closing
      then true
      else if is_read_closed out s.conn.state
      then true
      else is_read_closed out s.conn.state && write_done s

  module _ (sink : Sink t) where
    abbrev pub conn_flushed : Conn out t → Option (Conn out t) → Out (Conn out t) (Unit {0})
    conn_flushed c none = panicked
    conn_flushed c (some c') = ready c' tt

    abbrev pub after_flush : Conn out t → Out (Buffered t) (Unit {0}) → Out (Conn out t) (Unit {0})
    after_flush c (ready io u) = conn_flushed c (keep_alive_and_notify out t (record c { io = io }))
    after_flush c (failed io e) = failed (record c { io = io }) e
    after_flush c (pending io) = pending (record c { io = io })
    after_flush c panicked = panicked

    abbrev pub flushed_with :
        Conn out t → Option (Out (Buffered t) (Unit {0})) → Option (Out (Conn out t) (Unit {0}))
    flushed_with c none = none
    flushed_with c (some o) = some (after_flush c o)

    -- `Conn::poll_flush`
    unfoldable pub conn_flush : ℕ → Conn out t → Option (Out (Conn out t) (Unit {0}))
    conn_flush fuel c = flushed_with c (Flush.poll_flush t sink fuel c.io)
