-- ===== src/Tests/Dispatching.antt =====
-- The dispatcher with one message whose body has one piece.
use hwire.Base.{
  [], ℕ, zero, suc, ◌≡◌, refl, Bool, true, false, Option, none, some, Bytes, codes, length,
}
use hwire.Io.{ready}
use hwire.Http1.WriteBuf.Queue.{unsent}
use hwire.Http1.Buffered.Flush.{Sink}
use hwire.Http1.Transaction.{MessageHead}
use hwire.Http1.Dispatch.{
  Asked, not_asked, message, BodyFrame, data_piece, over, Service, Dispatcher, hears,
}
use hwire.Http1.Dispatch.Write.{Done}
use hwire.Http1.Dispatch.Loop.{poll_loop}
use hwire.Http1.Dispatch.Inner.{poll_catch, PollKeeps, poll_catch-PollKeeps}
use hwire.Tests.Connection.{outside, transport, role, fresh, fresh-IdleIsFresh}
use hwire.Tests.Connection

abbrev pub sink : Sink transport
sink = record {
  poll_write = λ s bytes. ready s (length bytes);
  poll_write_buf = λ s w. ready s (length (unsent w));
  poll_flush = λ s. ready s tt;
}

-- The number of messages that are left
abbrev ask : ℕ → Asked (MessageHead outside ℕ) ℕ × ℕ
ask zero = (not_asked, zero)
ask (suc n) = (message Connection.message 1, n)

abbrev pub piece : ℕ → BodyFrame outside.http.HeaderMap × ℕ
piece zero = (over, zero)
piece (suc n) = (data_piece (codes "abc"), n)

abbrev pub is_zero : ℕ → Bool
is_zero zero = true
is_zero (suc n) = false

abbrev service : Service outside role
service = record {
  D = ℕ;
  Body = ℕ;
  Tx = Unit;
  Rx = Unit;
  poll_msg = ask;
  should_poll = λ d. true;
  is_end_stream = is_zero;
  exact_size = λ b. some 3;
  poll_frame = piece;
  has_room = λ d. false;
  poll_ready = λ d. (hears, d);
  recv_msg = λ d m. (none, d);
  empty_body = tt;
  body_channel = λ len wanter. (tt, tt);
  tx_ready = λ tx. (hears, tx);
  send_data = λ tx chunk. (true, tx);
  send_trailers = λ tx m. (true, tx);
  send_error = λ d tx e. d;
  new_upgrade = λ d. tt;
  with_upgrade = λ d h. h;
}

abbrev dispatcher : Dispatcher outside transport role service
dispatcher = record {
  conn = fresh;
  dispatch = 1;
  body_tx = none;
  body_rx = none;
  is_closing = false;
}

poll_catch-PollKeeps_example :
    PollKeeps outside transport role service sink
      (λ k. ready k tt)
      dispatcher
      (poll_catch outside transport role service sink (λ k. ready k tt) 20 50 true dispatcher)
poll_catch-PollKeeps_example =
    poll_catch-PollKeeps outside transport role service sink (λ k. ready k tt) 20 50 true dispatcher
      fresh-IdleIsFresh

-- What the write buffer and the socket leave unsent, where the loop comes to an end
abbrev leaves : Option (Option (Dispatcher outside transport role service × Done)) → Option Bytes
leaves (some (some (s, d))) = some (unsent s.conn.io.write_buf)
leaves _ = none

loop_ends : leaves (poll_loop outside transport role service sink 20 50 dispatcher) ≡ some []
unfolding poll_loop hwire.Http1.Conn.Read.poll_read_keep_alive
    hwire.Http1.Conn.Read.require_empty_read hwire.Http1.Conn.Read.force_io_read
    hwire.Http1.Buffered.poll_read_from_io
loop_ends = refl
