-- ===== src/Http1/Conn.antt =====
-- `Conn` of proto/http1/conn.rs: its state over the buffered transport, what it may do next, and
-- how it goes back to idle. `room` is whether the vector of the write buffer has room.
pub mod Scan
pub mod Write
pub mod Read
pub mod Head
pub mod Kept
pub mod KeptReading
pub mod KeptHeads
pub mod KeptMessages
pub mod Steps
pub mod Asserted
use hwire.Base.{
  ℕ, Bool, true, false, not, ◌&&◌, ◌||◌, Option, none, some, List, [], ◌∷◌, ◌++◌, ◌==◌,
  if◌then◌else◌, Bytes, codes,
}
use hwire.Io.{Out, ready, failed, pending, panicked}
use hwire.Error.{Error, new_io}
use hwire.Http1.Buffered.{Transport, Buffered, can_headers_buf, may_buffer, poll_read_from_io}
use hwire.Http1.State.{
  Reading, Outside, Writing, State, close, close_read, is_idle, is_read_closed, try_keep_alive,
}

module _ (out : Outside) (t : Transport) where
  pub record Conn : Type 0 where
    pub io : Buffered t
    pub state : State out

  abbrev pub set_state : Conn → State out → Conn
  set_state c s = record c { state = s }

  abbrev pub reading_init : Reading → Bool
  reading_init r = elim r [ Reading.init ↦ true | _ ↦ false ]

  abbrev pub writing_init : Writing out → Bool
  writing_init w = elim w [ Writing.init ↦ true | _ ↦ false ]

  abbrev pub can_read_head : Conn → Bool
  can_read_head c = reading_init c.state.reading && not (writing_init c.state.writing)

  abbrev pub body_or_continue : Reading → Bool
  body_or_continue (Reading.body d) = true
  body_or_continue (Reading.continue d) = true
  body_or_continue _ = false

  abbrev pub can_read_body : Conn → Bool
  can_read_body c = body_or_continue c.state.reading

  abbrev pub should_error_on_eof : Conn → Bool
  should_error_on_eof c = not (is_idle out c.state)

  abbrev pub starts_with : Bytes → Bytes → Bool
  starts_with s [] = true
  starts_with [] (p ∷ ps) = false
  starts_with (x ∷ s) (p ∷ ps) = x == p && starts_with s ps

  abbrev pub has_h2_prefix : Conn → Bool
  has_h2_prefix c = starts_with c.io.read_buf (codes "PRI * HTTP/2.0\r\n\r\nSM\r\n\r\n")

  abbrev pub can_write_head : Conn → Bool
  can_write_head c =
      not (is_read_closed out c.state) && (writing_init c.state.writing && can_headers_buf t c.io)

  abbrev pub is_body : Writing out → Bool
  is_body w = elim w [ Writing.body e ↦ true | _ ↦ false ]

  abbrev pub can_write_body : Conn → Bool
  can_write_body c = is_body c.state.writing

  abbrev pub can_buffer_body : Conn → Bool
  can_buffer_body c = may_buffer t c.io

  abbrev pub is_mid_message : Conn → Bool
  is_mid_message c = not (reading_init c.state.reading && writing_init c.state.writing)

  -- `Conn::close_read`, `Conn::close_write`
  abbrev pub conn_close_read : Conn → Conn
  conn_close_read c = set_state c (close_read out c.state)

  -- What the read of `maybe_notify` leads to; `none` is the panic of the transport.
  abbrev pub noticed : State out → Out (Buffered t) ℕ → Option Conn
  noticed s (ready io n) =
      if n == 0
      then (if is_idle out s
          then some (record { io = io; state = close out s })
          else some (record { io = io; state = close_read out s }))
      else some (record { io = io; state = record s { notify_read = true } })
  noticed s (failed io e) = some (record {
    io = io;
    state = record (close out s) { error = some (new_io e); notify_read = true };
  })
  noticed s (pending io) = some (record { io = io; state = s })
  noticed s panicked = none

  abbrev pub notify_from : Bytes → Conn → Option Conn
  notify_from [] c = noticed c.state (poll_read_from_io t c.io)
  notify_from (b ∷ bs) c = some (set_state c (record c.state { notify_read = true }))

  unfoldable pub maybe_notify : Conn → Option Conn
  maybe_notify c =
      if reading_init c.state.reading && (not (is_body c.state.writing) && not c.io.read_blocked)
      then notify_from c.io.read_buf c
      else some c

  -- `Conn::try_keep_alive`
  unfoldable pub keep_alive_and_notify : Conn → Option Conn
  unfolding maybe_notify
  keep_alive_and_notify c = maybe_notify (set_state c (try_keep_alive out c.state))

  abbrev pub then_keep_alive : {A : Type 0} → Conn → A → Out Conn A
  then_keep_alive c a = elim (keep_alive_and_notify c) [ none ↦ panicked | some c' ↦ ready c' a ]

  unfoldable pub wants_read_again : Conn → Conn × Bool
  wants_read_again c = (set_state c (record c.state { notify_read = false }), c.state.notify_read)

  unfoldable pub take_error : Conn → Conn × Option Error
  take_error c = (set_state c (record c.state { error = none }), c.state.error)
