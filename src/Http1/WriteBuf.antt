-- ===== src/Http1/WriteBuf.antt =====
-- The write side of proto/http1/io.rs and the buffer list of proto/http1/buf.rs. A buffer is the
-- bytes that it has still to give.
pub mod Queue
use hwire.Base.{
  ℕ, zero, suc, ◌+◌, ◌-◌, Bool, true, false, ◌&&◌, Option, none, some, List, [], ◌∷◌, ◌++◌, ltb,
  leb, ◌==◌, if◌then◌else◌, Bytes, length, take, drop, concat,
}

-- `BufList`
pub record BufList : Type 0 where
  pub bufs : List Bytes
  pub remaining : ℕ

abbrev pub no_bufs : BufList
no_bufs = record { bufs = []; remaining = 0 }

unfoldable pub push : BufList → Bytes → BufList
push l buf = record { bufs = l.bufs ++ buf ∷ []; remaining = l.remaining + length buf }

abbrev pub bufs_cnt : BufList → ℕ
bufs_cnt l = length l.bufs

abbrev front_chunk : List Bytes → Bytes
front_chunk [] = []
front_chunk (b ∷ bs) = b

abbrev pub list_chunk : BufList → Bytes
list_chunk l = front_chunk l.bufs

-- The loop of `advance`; `none` is the panic of `bufs[0]` on an empty list.
pub advance_bufs : ℕ → List Bytes → Option (List Bytes)
advance_bufs cnt [] = if cnt == 0 then some [] else none
advance_bufs cnt (b ∷ bs) =
    let rest = advance_bufs (cnt - length b) bs in
    if cnt == 0 then some (b ∷ bs) else if ltb cnt (length b) then some (drop cnt b ∷ bs) else rest

abbrev with_remaining : ℕ → Option (List Bytes) → Option BufList
with_remaining n none = none
with_remaining n (some bs) = some (record { bufs = bs; remaining = n })

-- `none` is a failed assertion.
unfoldable pub advance_list : BufList → ℕ → Option BufList
unfolding advance_bufs
advance_list l cnt =
    if leb cnt l.remaining
    then with_remaining (l.remaining - cnt) (advance_bufs cnt l.bufs)
    else none

-- What `bm.put(self.take(len))` copies, and the list that it leaves.
abbrev copied : Bytes → Option BufList → Option (Bytes × BufList)
copied bs none = none
copied bs (some l) = some (bs, l)

copy_front : BufList → List Bytes → ℕ → Option (Bytes × BufList)
unfolding advance_list
copy_front l [] len = copied (take len (concat l.bufs)) (advance_list l len)
copy_front l (b ∷ bs) len =
    if length b == len
    then some (b, record { bufs = bs; remaining = l.remaining - len })
    else if ltb len (length b)
    then some (take len b, record { bufs = drop len b ∷ bs; remaining = l.remaining - len })
    else copied (take len (concat l.bufs)) (advance_list l len)

-- `copy_to_bytes`
unfoldable pub copy_to_bytes : BufList → ℕ → Option (Bytes × BufList)
unfolding copy_front
copy_to_bytes l len = copy_front l l.bufs len

pub data WriteStrategy : Type 0 where
  flatten queue : WriteStrategy

-- `Cursor<Vec<u8>>`
pub record Cursor : Type 0 where
  pub bytes : Bytes
  pub pos : ℕ

abbrev pub cursor_remaining : Cursor → ℕ
cursor_remaining c = length c.bytes - c.pos

abbrev pub cursor_chunk : Cursor → Bytes
cursor_chunk c = drop c.pos c.bytes

abbrev pub cursor_reset : Cursor
cursor_reset = record { bytes = []; pos = 0 }

-- The flag says whether the vector has room for the bytes to come, which its allocator decides.
maybe_unshift : Cursor → Bool → Cursor
maybe_unshift c room =
    if c.pos == 0 then c else if room then c else record { bytes = drop c.pos c.bytes; pos = 0 }

pub record WriteBuf : Type 0 where
  pub headers : Cursor
  pub max_buf_size : ℕ
  pub bufs : BufList
  pub strategy : WriteStrategy

abbrev pub max_buf_list_buffers : ℕ
max_buf_list_buffers = 16

abbrev pub default_max_buffer_size : ℕ
default_max_buffer_size = 417792

abbrev pub new_write_buf : WriteStrategy → WriteBuf
new_write_buf strategy = record {
  headers = cursor_reset;
  max_buf_size = default_max_buffer_size;
  bufs = no_bufs;
  strategy = strategy;
}

abbrev put_in : WriteStrategy → WriteBuf → Bool → Bytes → WriteBuf
put_in flatten w room buf =
    let c = maybe_unshift w.headers room in
    record w { headers = record c { bytes = c.bytes ++ buf } }
put_in queue w room buf = record w { bufs = push w.bufs buf }

-- `WriteBuf::buffer`
unfoldable pub buffer : WriteBuf → Bool → Bytes → WriteBuf
unfolding maybe_unshift push
buffer w room buf = put_in w.strategy w room buf

unfoldable pub remaining : WriteBuf → ℕ
remaining w = cursor_remaining w.headers + w.bufs.remaining

abbrev may_take : WriteStrategy → WriteBuf → Bool
may_take flatten w = true
may_take queue w = ltb (bufs_cnt w.bufs) max_buf_list_buffers

unfoldable pub can_buffer : WriteBuf → Bool
unfolding remaining
can_buffer w = may_take w.strategy w && ltb (remaining w) w.max_buf_size

is_empty : Bytes → Bool
is_empty [] = true
is_empty (b ∷ bs) = false

unfoldable pub chunk : WriteBuf → Bytes
unfolding is_empty
chunk w = if is_empty (cursor_chunk w.headers) then list_chunk w.bufs else cursor_chunk w.headers

abbrev with_bufs : WriteBuf → Option BufList → Option WriteBuf
with_bufs w none = none
with_bufs w (some l) = some (record w { bufs = l })

-- `WriteBuf::advance`
unfoldable pub advance : WriteBuf → ℕ → Option WriteBuf
unfolding advance_list
advance w cnt =
    let hrem = cursor_remaining w.headers in
    if hrem == cnt
    then some (record w { headers = cursor_reset })
    else if ltb cnt hrem
    then some (record w { headers = record { bytes = w.headers.bytes; pos = w.headers.pos + cnt } })
    else with_bufs (record w { headers = cursor_reset }) (advance_list w.bufs (cnt - hrem))
