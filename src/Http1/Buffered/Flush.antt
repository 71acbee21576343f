-- ===== src/Http1/Buffered/Flush.antt =====
-- `poll_flush` of `Buffered` in proto/http1/io.rs. The loops of writes take fuel; `none` is a lack
-- of it.
use hwire.Base.{
  ℕ, zero, suc, ◌+◌, Bool, true, false, not, ◌&&◌, Option, none, some, [], ◌∷◌, ◌==◌, if◌then◌else◌,
  Bytes,
}
use hwire.Io.{Out, ready, failed, pending, panicked, write_zero}
use hwire.Http1.WriteBuf.{
  WriteBuf, WriteStrategy, flatten, queue, Cursor, cursor_chunk, cursor_remaining, cursor_reset,
  remaining, advance,
}
use hwire.Http1.Buffered.{Transport, Buffered}

-- The write side of the socket: `AsyncWrite`, and `poll_write_buf` of tokio-util, which returns by
-- how many bytes it advances the buffer that it is given.
pub record Sink (t : Transport) : Type 0 where
  pub poll_write : t.Socket → Bytes → Out t.Socket ℕ
  pub poll_write_buf : t.Socket → WriteBuf → Out t.Socket ℕ
  pub poll_flush : t.Socket → Out t.Socket (Unit {0})

abbrev pub is_empty : Bytes → Bool
is_empty [] = true
is_empty (b ∷ bs) = false

module _ (t : Transport) (sink : Sink t) where
  open t use {Socket}

  abbrev pub Flushed : Type 0
  Flushed = Out (Buffered t) (Unit {0})

  -- One round of a loop: it returns, is left by `break`, or goes on.
  pub data Turn : Type 0 where
    stop : Flushed → Turn
    leave : Buffered t → Turn
    again : Buffered t → Turn

  abbrev pub with_io : Buffered t → Socket → Buffered t
  with_io b s = record b { io = s }

  abbrev pub flushed : Buffered t → Out Socket (Unit {0}) → Flushed
  flushed b (ready s u) = ready (with_io b s) u
  flushed b (failed s e) = failed (with_io b s) e
  flushed b (pending s) = pending (with_io b s)
  flushed b panicked = panicked

  abbrev pub with_headers : Buffered t → Cursor → Buffered t
  with_headers b c = record b { write_buf = record b.write_buf { headers = c } }

  -- `poll_flush_flattened`
  unfoldable pub flat_turn : Buffered t → Cursor → ℕ → Turn
  flat_turn b c n =
      if cursor_remaining c == 0
      then leave (with_headers b cursor_reset)
      else if n == 0
      then stop (failed (with_headers b c) write_zero)
      else again (with_headers b c)

  abbrev pub wrote_flat : Buffered t → Out Socket ℕ → Turn
  wrote_flat b (ready s n) =
      let h = b.write_buf.headers in flat_turn (with_io b s) (record h { pos = h.pos + n }) n
  wrote_flat b (failed s e) = stop (failed (with_io b s) e)
  wrote_flat b (pending s) = stop (pending (with_io b s))
  wrote_flat b panicked = stop panicked

  unfoldable pub write_flat : Buffered t → Turn
  unfolding flat_turn
  write_flat b = wrote_flat b (sink.poll_write b.io (cursor_chunk b.write_buf.headers))

  -- The loop of `poll_flush`
  unfoldable pub queue_turn : Buffered t → WriteBuf → ℕ → Turn
  queue_turn b w n =
      if remaining w == 0
      then leave (record b { write_buf = w })
      else if n == 0
      then stop (failed (record b { write_buf = w }) write_zero)
      else again (record b { write_buf = w })

  abbrev pub advanced : Buffered t → ℕ → Option WriteBuf → Turn
  advanced b n none = stop panicked
  advanced b n (some w) = queue_turn b w n

  abbrev pub wrote_queue : Buffered t → Out Socket ℕ → Turn
  wrote_queue b (ready s n) = advanced (with_io b s) n (advance b.write_buf n)
  wrote_queue b (failed s e) = stop (failed (with_io b s) e)
  wrote_queue b (pending s) = stop (pending (with_io b s))
  wrote_queue b panicked = stop panicked

  unfoldable pub write_queue : Buffered t → Turn
  unfolding queue_turn
  write_queue b = wrote_queue b (sink.poll_write_buf b.io b.write_buf)

  abbrev pub socket_flush : Buffered t → Flushed
  socket_flush b = flushed b (sink.poll_flush b.io)

  unfoldable pub write_loop : (Buffered t → Turn) → ℕ → Buffered t → Option Flushed
  write_loop turn zero b = none
  write_loop turn (suc fuel) b = elim (turn b) [
    | stop x ↦ some x
    | leave b' ↦ some (socket_flush b')
    | again b' ↦ write_loop turn fuel b'
  ]

  abbrev pub write_with : WriteStrategy → ℕ → Buffered t → Option Flushed
  write_with flatten fuel b = write_loop write_flat fuel b
  write_with queue fuel b = write_loop write_queue fuel b

  -- Whether responses are held back for those of further requests that are there to be read
  abbrev pub holds_back : Buffered t → Bool
  holds_back b = b.flush_pipeline && not (is_empty b.read_buf)

  -- `Buffered::poll_flush`
  unfoldable pub poll_flush : ℕ → Buffered t → Option Flushed
  unfolding write_flat write_queue write_loop
  poll_flush fuel b =
      if holds_back b
      then some (ready b tt)
      else if remaining b.write_buf == 0
      then some (socket_flush b)
      else write_with b.write_buf.strategy fuel b
