-- ===== src/Http1/Buffered.antt =====
-- The read side of `Buffered` of proto/http1/io.rs, its strategy for the sizes of reads included.
-- A byte buffer is its bytes and the room that is allocated behind them.
pub mod Flush
pub mod Flushed
pub mod Reads
pub mod Bounds
use hwire.Base.{
  ℕ, zero, suc, min, max, ◌+◌, ◌-◌, ◌*◌, ◌/◌, ◌≡◌, ◌≤◌, Bool, true, false, ◌||◌, Option, none, some,
  List, [], ◌∷◌, ◌++◌, ltb, leb, ◌==◌, if◌then◌else◌, Bytes, length, take, drop, usize_max,
}
use hwire.Io.{Out, ready, failed, pending, panicked}
use hwire.Http1.WriteBuf.{WriteBuf, WriteStrategy, new_write_buf, can_buffer, buffer}

abbrev pub init_buffer_size : ℕ
init_buffer_size = 8192

pub data ReadStrategy : Type 0 where
  adaptive : (decrease_now : Bool) (next max_size : ℕ) → ReadStrategy
  exact : ℕ → ReadStrategy

abbrev pub with_max : ℕ → ReadStrategy
with_max n = adaptive false init_buffer_size n

abbrev pub next : ReadStrategy → ℕ
next (adaptive d n m) = n
next (exact e) = e

abbrev pub max_of : ReadStrategy → ℕ
max_of (adaptive d n m) = m
max_of (exact e) = e

-- `saturating_mul(2)`
unfoldable pub incr_power_of_two : ℕ → ℕ
incr_power_of_two n = min (n * 2) usize_max

-- `n >> k`
abbrev pub shr : ℕ → ℕ → ℕ
shr n zero = n
shr n (suc k) = shr (n / 2) k

-- The bits of a number below 2 ^ fuel.
abbrev pub bits : ℕ → ℕ → ℕ
bits zero n = 0
bits (suc fuel) n = let more = bits fuel (n / 2) in if n == 0 then 0 else suc more

abbrev pub leading_zeros : ℕ → ℕ
leading_zeros n = 64 - bits 64 n

unfoldable pub prev_power_of_two : ℕ → ℕ
prev_power_of_two n = shr usize_max (leading_zeros n + 2) + 1

-- `ReadStrategy::record`
unfoldable pub record_read : ReadStrategy → ℕ → ReadStrategy
unfolding incr_power_of_two prev_power_of_two
record_read (exact e) bytes_read = exact e
record_read (adaptive decrease_now n m) bytes_read =
    let decr_to = prev_power_of_two n in
    if leb n bytes_read
    then adaptive false (min (incr_power_of_two n) m) m
    else if ltb bytes_read decr_to
    then (if decrease_now
        then adaptive false (max decr_to init_buffer_size) m
        else adaptive true n m)
    else adaptive false n m

-- The socket and the byte buffer, which are other crates' code.
pub record Transport : Type 1 where
  pub Socket : Type 0
  -- `poll_read_buf`: what it appends to a buffer with that much room, and the room it leaves
  pub poll_read_buf : Socket → ℕ → Out (Socket × ℕ) Bytes
  -- the room in a buffer after `BytesMut::reserve`, from the room before it
  pub reserve : ℕ → ℕ → ℕ

-- What a read does to the bytes that the peer is still to send: it takes a prefix, and an empty one
-- only at the end.
abbrev pub Receives : {S : Type 0} → (S → Bytes) → Bytes → Out (S × ℕ) Bytes → Type 0
Receives rest whole (ready (s, room) bs) = (whole ≡ bs ++ rest s) × (bs ≡ [] → whole ≡ [])
Receives rest whole (failed (s, room) e) = rest s ≡ whole
Receives rest whole (pending (s, room)) = rest s ≡ whole
Receives rest whole panicked = ⊥

pub record TransportLaws (t : Transport) : Type 0 where
  pub rest : t.Socket → Bytes
  pub receives : (s : t.Socket) (room : ℕ) → Receives rest (rest s) (t.poll_read_buf s room)

module _ (t : Transport) where
  open t use {Socket, poll_read_buf, reserve}

  pub record Buffered : Type 0 where
    pub flush_pipeline : Bool
    pub io : Socket
    pub partial_len : Option ℕ
    pub read_blocked : Bool
    pub read_buf : Bytes
    pub read_buf_remaining_mut : ℕ
    pub read_buf_strategy : ReadStrategy
    pub write_buf : WriteBuf

  -- `set_max_buf_size`; `none` is its failed assertion.
  unfoldable pub set_max_buf_size : Buffered → ℕ → Option Buffered
  set_max_buf_size b n =
      if leb init_buffer_size n
      then some (record b {
        read_buf_strategy = with_max n;
        write_buf = record b.write_buf { max_buf_size = n };
      })
      else none

  abbrev pub set_read_buf_exact_size : Buffered → ℕ → Buffered
  set_read_buf_exact_size b n = record b { read_buf_strategy = exact n }

  abbrev pub can_headers_buf : Buffered → Bool
  can_headers_buf b = b.write_buf.bufs.remaining == 0

  -- Bytes appended to `headers_buf`
  abbrev pub extend_headers_buf : Buffered → Bytes → Buffered
  extend_headers_buf b bytes =
      let h = b.write_buf.headers in
      record b {
        write_buf = record b.write_buf { headers = record h { bytes = h.bytes ++ bytes } };
      }

  abbrev pub buffer_bytes : Buffered → Bool → Bytes → Buffered
  buffer_bytes b room bytes = record b { write_buf = buffer b.write_buf room bytes }

  abbrev pub may_buffer : Buffered → Bool
  may_buffer b = b.flush_pipeline || can_buffer b.write_buf

  pub skip_lines : Bytes → Bytes
  skip_lines [] = []
  skip_lines (c ∷ cs) =
      let more = skip_lines cs in if (c == b'\r') || (c == b'\n') then more else c ∷ cs

  unfoldable pub consume_leading_lines : Buffered → Buffered
  unfolding skip_lines
  consume_leading_lines b = record b { read_buf = skip_lines b.read_buf }

  abbrev pub room_for : Buffered → ℕ → ℕ
  room_for b n =
      if ltb b.read_buf_remaining_mut n
      then reserve b.read_buf_remaining_mut n
      else b.read_buf_remaining_mut

  abbrev pub received : Buffered → Out (Socket × ℕ) Bytes → Out Buffered ℕ
  received b (ready (s, room) bs) =
      let n = length bs in
      ready
        (record b {
          io = s;
          read_blocked = false;
          read_buf = b.read_buf ++ bs;
          read_buf_remaining_mut = room;
          read_buf_strategy = record_read b.read_buf_strategy n;
        })
        n
  received b (failed (s, room) e) =
      failed (record b { io = s; read_blocked = false; read_buf_remaining_mut = room }) e
  received b (pending (s, room)) =
      pending (record b { io = s; read_blocked = true; read_buf_remaining_mut = room })
  received b panicked = panicked

  unfoldable pub poll_read_from_io : Buffered → Out Buffered ℕ
  unfolding record_read
  poll_read_from_io b = received b (poll_read_buf b.io (room_for b (next b.read_buf_strategy)))

  -- `self.read_buf.split_to(n)`
  abbrev pub split_to : Buffered → ℕ → Out Buffered Bytes
  split_to b n = ready (record b { read_buf = drop n b.read_buf }) (take n b.read_buf)

  abbrev pub split_read : ℕ → Out Buffered ℕ → Out Buffered Bytes
  split_read len (ready b n) = split_to b (min len n)
  split_read len (failed b e) = failed b e
  split_read len (pending b) = pending b
  split_read len panicked = panicked

  abbrev pub read_from : Bytes → Buffered → ℕ → Out Buffered Bytes
  read_from [] b len = split_read len (poll_read_from_io b)
  read_from (c ∷ cs) b len = split_to b (min len (length (c ∷ cs)))

  -- `impl MemRead for Buffered`
  unfoldable pub read_mem : Buffered → ℕ → Out Buffered Bytes
  unfolding poll_read_from_io
  read_mem b len = read_from b.read_buf b len
