-- ===== src/Http1/Dispatch/Read.antt =====
-- `Dispatcher::poll_read` and `poll_read_head` of proto/http1/dispatch.rs.
use hwire.Base.{ℕ, zero, suc, Bool, true, false, Option, none, some, ◌⊎◌, inl, inr}
use hwire.Io.{Out, ready, failed, pending, panicked, IoError}
use hwire.Error.{Error, new_io, with_cause, new_error, body, from_io}
use hwire.Body.Length.{DecodedLength, same}
use hwire.Body.Length
use hwire.Http1.Decode.{Frame, data_frame}
use hwire.Http1.Decode
use hwire.Http1.Buffered.{Transport}
use hwire.Http1.Buffered.Flush.{Sink}
use hwire.Http1.State.{Outside, is_write_closed, prepare_upgrade}
use hwire.Http1.Transaction.{MessageHead, Wants, Transaction}
use hwire.Http1.Conn.{Conn, set_state, can_read_head, can_read_body, conn_close_read}
use hwire.Http1.Conn.Read.{
  BodyFrame, poll_read_body, poll_drain_or_close_read, poll_read_keep_alive,
}
use hwire.Http1.Conn.Head.{HeadResult, poll_read_head}
use hwire.Http1.Dispatch.{Service, Heard, not_now, hears, deaf, close}
use hwire.Http1.Dispatch.Write.{
  Done, done_ready, done_pending, done_error, S, Round, returns, goes_on, panics, starved,
  with_conn,
}

module _ (out : Outside) (t : Transport) (role : Transaction out) (sv : Service out role)
    (sink : Sink t) where
  open sv use {D, Tx, Rx}

  abbrev pub R : Type 0
  R = Round out t role sv sink

  abbrev pub St : Type 0
  St = S out t role sv sink

  -- `self.dispatch.recv_msg(..)?`, and what follows it
  abbrev pub received : St → Option Error × D → St → R
  received s (some e, d) s' = returns (record s { dispatch = d }) (done_error e)
  received s (none, d) s' = goes_on (record s' { dispatch = d })

  abbrev pub close_it : St → St
  close_it s = close out t role sv s

  -- A head and the body that goes with it
  abbrev pub hand_over : St → MessageHead out role.Incoming → Rx → R
  hand_over s h rx = received s (sv.recv_msg s.dispatch (inr (h, rx))) s

  -- `self.conn.on_upgrade()`
  abbrev pub upgraded : St → St
  upgraded s = record s {
    conn = set_state out t s.conn (prepare_upgrade out s.conn.state (sv.new_upgrade s.dispatch));
  }

  abbrev pub upgrade_if : Bool → St → MessageHead out role.Incoming → Rx → R
  upgrade_if true s h rx = hand_over (upgraded s) (sv.with_upgrade s.dispatch h) rx
  upgrade_if false s h rx = hand_over s h rx

  abbrev pub with_channel : St → MessageHead out role.Incoming → Wants → Tx × Rx → R
  with_channel s h w (tx, rx) = upgrade_if w.upgrade (record s { body_tx = some tx }) h rx

  abbrev pub body_if_any : Bool → St → MessageHead out role.Incoming → DecodedLength → Wants → R
  body_if_any true s h len w = upgrade_if w.upgrade s h sv.empty_body
  body_if_any false s h len w = with_channel s h w (sv.body_channel len w.expect)

  abbrev pub head_failed : St → Error → R
  head_failed s e = received s (sv.recv_msg s.dispatch (inl e)) (close out t role sv s)

  abbrev pub no_head_if : Bool → St → R
  no_head_if true s = goes_on (close_it s)
  no_head_if false s = goes_on s

  abbrev pub on_head : St → Option (Out (Conn out t) (HeadResult out t role)) → R
  on_head s none = starved
  on_head s (some (ready c none)) =
      no_head_if (is_write_closed out c.state) (with_conn out t role sv sink s c)
  on_head s (some (ready c (some (inl e)))) = head_failed (with_conn out t role sv sink s c) e
  on_head s (some (ready c (some (inr (h, (len, w)))))) =
      body_if_any (same len Length.zero) (with_conn out t role sv sink s c) h len w
  on_head s (some (failed c e)) = head_failed (with_conn out t role sv sink s c) (new_io e)
  on_head s (some (pending c)) = returns (with_conn out t role sv sink s c) done_pending
  on_head s (some panicked) = panics

  -- `Dispatcher::poll_read_head`, behind `ready!` and `?`
  abbrev pub head_if : ℕ → St → Heard × D → R
  head_if fuel s (not_now, d) = returns (record s { dispatch = d }) done_pending
  head_if fuel s (deaf, d) = goes_on (close_it (record s { dispatch = d }))
  head_if fuel s (hears, d) =
      on_head (record s { dispatch = d }) (poll_read_head out t role fuel s.conn)

  unfoldable pub read_head_round : ℕ → St → R
  read_head_round fuel s = head_if fuel s (sv.poll_ready s.dispatch)

  -- A piece that the body's receiver took, or not
  abbrev pub close_if : Bool → Conn out t → Conn out t
  close_if true c = conn_close_read out t c
  close_if false c = c

  abbrev pub given : St → Conn out t → Bool × Tx → R
  given s c (true, tx) = goes_on (record s { conn = c; body_tx = some tx })
  given s c (false, tx) =
      goes_on (record s { conn = close_if (can_read_body out t c) c; body_tx = none })

  abbrev pub without_tx : St → Conn out t → St
  without_tx s c = record s { conn = c; body_tx = none }

  -- `body.send_error(Error::new_body(e))`, and the drop of the sender
  abbrev pub told : St → Conn out t → Tx → IoError → St
  told s c tx e = record s {
    conn = c;
    body_tx = none;
    dispatch = sv.send_error s.dispatch tx (with_cause (new_error body) (from_io e));
  }

  abbrev pub on_frame : St → Tx → Option (Out (Conn out t) (IoError ⊎ Option (BodyFrame out t))) → R
  on_frame s tx none = starved
  on_frame s tx (some (ready c (inr (some (data_frame chunk))))) = given s c (sv.send_data tx chunk)
  on_frame s tx (some (ready c (inr (some (Decode.trailers m))))) =
      given s c (sv.send_trailers tx m)
  on_frame s tx (some (ready c (inr none))) = goes_on (without_tx s c)
  on_frame s tx (some (ready c (inl e))) = goes_on (told s c tx e)
  on_frame s tx (some (failed c e)) = goes_on (told s c tx e)
  on_frame s tx (some (pending c)) = returns (record s { conn = c; body_tx = some tx }) done_pending
  on_frame s tx (some panicked) = panics

  abbrev pub on_drained : St → Option (Option (Conn out t)) → R
  on_drained s none = starved
  on_drained s (some none) = panics
  on_drained s (some (some c)) = goes_on (without_tx s c)

  abbrev pub frame_if : ℕ → St → Heard × Tx → R
  frame_if fuel s (not_now, tx) = returns (record s { body_tx = some tx }) done_pending
  frame_if fuel s (deaf, tx) = on_drained s (poll_drain_or_close_read out t fuel s.conn)
  frame_if fuel s (hears, tx) = on_frame s tx (poll_read_body out t fuel s.conn)

  abbrev pub body_round_if : Bool → ℕ → St → Tx → R
  body_round_if true fuel s tx = frame_if fuel s (sv.tx_ready tx)
  body_round_if false fuel s tx = goes_on (record s { body_tx = none })

  abbrev pub kept_alive : St → Out (Conn out t) (Option Error) → R
  kept_alive s (ready c none) = returns (with_conn out t role sv sink s c) done_ready
  kept_alive s (ready c (some e)) = returns (with_conn out t role sv sink s c) (done_error e)
  kept_alive s (failed c e) = returns (with_conn out t role sv sink s c) (done_error (new_io e))
  kept_alive s (pending c) = returns (with_conn out t role sv sink s c) done_pending
  kept_alive s panicked = panics

  abbrev pub tx_round : ℕ → St → Option Tx → R
  tx_round fuel s (some tx) = body_round_if (can_read_body out t s.conn) fuel s tx
  tx_round fuel s none = kept_alive s (poll_read_keep_alive out t s.conn)

  abbrev pub read_if : Bool → Bool → ℕ → St → R
  read_if true head fuel s = returns s done_ready
  read_if false true fuel s = read_head_round fuel s
  read_if false false fuel s = tx_round fuel s s.body_tx

  unfoldable pub read_round : ℕ → St → R
  unfolding read_head_round
  read_round fuel s = read_if s.is_closing (can_read_head out t s.conn) fuel s

  -- `Dispatcher::poll_read`: the inner `none` is a panic, the outer a lack of fuel.
  unfoldable pub poll_read : ℕ → ℕ → St → Option (Option (St × Done))
  unfolding read_round
  poll_read zero fuel s = none
  poll_read (suc rounds) fuel s = elim (read_round fuel s) [
    | returns s' d ↦ some (some (s', d))
    | goes_on s' ↦ poll_read rounds fuel s'
    | panics ↦ some none
    | starved ↦ none
  ]
