-- ===== src/Tests/Flushing.antt =====
-- A flush over a socket that takes four bytes at a time.
use hwire.Base.{
  zero, suc, ℕ, ◌≡◌, refl, sym, ap, false, none, [], ◌∷◌, ◌++◌, Bytes, codes, length, take,
  length-take, arith,
}
use hwire.Io.{ready, pending}
use hwire.Http1.WriteBuf.{WriteBuf, queue, buffer, new_write_buf}
use hwire.Http1.WriteBuf.Queue.{unsent, IsBuf, buffer-unsent}
use hwire.Http1.Buffered.{Transport, Buffered, with_max}
use hwire.Http1.Buffered.Flush.{Sink, poll_flush}
use hwire.Http1.Buffered.Flushed.{Writes, SinkLaws, Outcome, poll_flush-Outcome}

abbrev wire : Transport
wire = record {
  Socket = Bytes;
  poll_read_buf = λ s room. pending (s, room);
  reserve = λ room additional. additional;
}

abbrev sink : Sink wire
sink = record {
  poll_write = λ s bytes. ready (s ++ take 4 bytes) (length (take 4 bytes));
  poll_write_buf = λ s w. ready (s ++ take 4 (unsent w)) (length (take 4 (unsent w)));
  poll_flush = λ s. ready s tt;
}

take-length-take : (n : ℕ) (bytes : Bytes) → take (length (take n bytes)) bytes ≡ take n bytes
take-length-take zero bytes = refl
take-length-take (suc n) [] = refl
take-length-take (suc n) (b ∷ bs) = ap (λ l. b ∷ l) (take-length-take n bs)

takes_four :
    (s bytes : Bytes) → Writes (λ s. s) s bytes (ready (s ++ take 4 bytes) (length (take 4 bytes)))
takes_four s bytes =
    (omega (arith, length-take 4 bytes), ap (λ x. s ++ x) (sym (take-length-take 4 bytes)))

sink-SinkLaws : SinkLaws sink
sink-SinkLaws = record {
  sent = λ s. s;
  writes = takes_four;
  writes_buf = λ s w i. takes_four s (unsent w);
  flushes = λ s. refl;
}

abbrev empty : WriteBuf
empty = new_write_buf queue

abbrev two_pieces : WriteBuf
two_pieces = buffer (buffer empty false (codes "first ")) false (codes "second")

two_pieces-IsBuf : IsBuf two_pieces
two_pieces-IsBuf =
    let (i, e) =
      buffer-unsent empty false (codes "first ") (record { counted = refl; within = omega arith })
        tt in
    let (j, f) =
      buffer-unsent (buffer empty false (codes "first ")) false (codes "second") i
        (unfold buffer in tt) in
    j

abbrev pending_writes : Buffered wire
pending_writes = record {
  flush_pipeline = false;
  io = [];
  partial_len = none;
  read_blocked = false;
  read_buf = [];
  read_buf_remaining_mut = 0;
  read_buf_strategy = with_max 417792;
  write_buf = two_pieces;
}

poll_flush-Outcome_example :
    Outcome wire sink sink-SinkLaws pending_writes (poll_flush wire sink 20 pending_writes)
unfolding buffer
poll_flush-Outcome_example =
    poll_flush-Outcome wire sink sink-SinkLaws 20 pending_writes two_pieces-IsBuf tt (omega arith)
