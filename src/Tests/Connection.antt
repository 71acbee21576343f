-- ===== src/Tests/Connection.antt =====
-- The connection of proto/http1/conn.rs with a role that writes a fixed head.
use hwire.Base.{
  Bool, true, arith, ℕ, zero, suc, ◌≡◌, inr, refl, sym, false, Option, none, some, [], ◌∷◌, Bytes,
  codes, take, drop, take-append-drop,
}
use hwire.HttpCrate.{KnownMethod, get, head, connect}
use hwire.Tests.Crate.{crate}
use hwire.Io.{ready, Delivers}
use hwire.Http1.WriteBuf.{flatten, new_write_buf}
use hwire.Http1.Encode.{new_length, encode}
use hwire.Http1.Buffered.{Transport, TransportLaws, Receives, Buffered, with_max, read_mem}
use hwire.Http1.Buffered.{ReadStrategy, adaptive, record_read}
use hwire.Http1.Buffered.Bounds.{WellSized, record_read-WellSized}
use hwire.Http1.Buffered.Reads.{to_come, read_mem-Delivers}
use hwire.Http1.State.{Outside, new_state, http_11}
use hwire.Http1.State.Laws.{Keeps, IdleIsFresh}
use hwire.Http1.Transaction.{Transaction, MessageHead}
use hwire.Http1.Conn.{Conn}
use hwire.Http1.Conn.Write.{write_head, write_body}
use hwire.Http1.Conn.Steps.{Step, Steps, then, done, piece, Steps-Keeps}

-- A full buffer grows by 64.
abbrev room_of : ℕ → ℕ
room_of zero = 64
room_of (suc n) = suc n

abbrev pub transport : Transport
transport = record {
  Socket = Bytes;
  poll_read_buf = λ s room. ready (drop (room_of room) s, 0) (take (room_of room) s);
  reserve = λ room additional. additional;
}

take-nil_suc : (n : ℕ) (s : Bytes) → take (suc n) s ≡ [] → s ≡ []
take-nil_suc n [] h = refl
take-nil_suc n (x ∷ s) h = absurd (cc)

transport-Receives : (s : Bytes) (room : ℕ) → Receives (λ r. r) s (transport.poll_read_buf s room)
transport-Receives s zero = (sym (take-append-drop 64 s), take-nil_suc 63 s)
transport-Receives s (suc n) = (sym (take-append-drop (suc n) s), take-nil_suc n s)

abbrev laws : TransportLaws transport
laws = record { rest = λ s. s; receives = transport-Receives }

abbrev fresh_io : Buffered transport
fresh_io = record {
  flush_pipeline = false;
  io = codes "HTTP/1.1 200 OK\r\n\r\n";
  partial_len = none;
  read_blocked = false;
  read_buf = [];
  read_buf_remaining_mut = 0;
  read_buf_strategy = with_max 417792;
  write_buf = new_write_buf flatten;
}

read_mem-Delivers_example :
    Delivers
      (to_come transport laws)
      (to_come transport laws fresh_io)
      4
      (read_mem transport fresh_io 4)
read_mem-Delivers_example = read_mem-Delivers transport laws fresh_io 4

abbrev same_method : KnownMethod → KnownMethod → Bool
same_method get get = true
same_method head head = true
same_method connect connect = true
same_method _ _ = false

abbrev method_text : KnownMethod → Bytes
method_text get = codes "GET"
method_text head = codes "HEAD"
method_text connect = codes "CONNECT"

abbrev pub outside : Outside
outside = record {
  http = crate;
  Method = KnownMethod;
  is_method = same_method;
  method_str = method_text;
  OnInformational = ℕ;
  call = λ calls version status headers reason. suc calls;
  OnPreserveHeader = Unit;
  call_visit = λ o headers. headers;
  Pending = Unit;
}

abbrev pub role : Transaction outside
role = record {
  Incoming = ℕ;
  Outgoing = ℕ;
  parse = λ fuel bytes ctx. some ((bytes, ctx), inr none);
  encode = λ h body method. some (record {
    dst = codes "POST / HTTP/1.1\r\ncontent-length: 3\r\n\r\n";
    req_method = some get;
    headers = [];
    result = inr (new_length crate 3);
  });
  on_error = λ e. none;
}

abbrev pub message : MessageHead outside ℕ
message = record {
  version = http_11;
  subject = 0;
  headers = [];
  on_informational = none;
  on_preserve = none;
  reason_phrase = none;
}

abbrev pub fresh : Conn outside transport
fresh = record { io = fresh_io; state = new_state outside }

abbrev or_else : Conn outside transport → Option (Conn outside transport) → Conn outside transport
or_else c none = c
or_else c (some c') = c'

abbrev with_head : Conn outside transport
with_head = or_else fresh (write_head outside transport role fresh message none)

writes_head : write_head outside transport role fresh message none ≡ some with_head
unfolding write_head
writes_head = refl

abbrev with_body : Conn outside transport
with_body = or_else with_head (write_body outside transport with_head false (codes "abc"))

writes_body : write_body outside transport with_head false (codes "abc") ≡ some with_body
unfolding write_body write_head encode
writes_body = refl

session : Steps outside transport role fresh with_body
session =
    then (Step.head message none refl writes_head)
      (then (piece false (codes "abc") writes_body) done)

pub fresh-IdleIsFresh : IdleIsFresh outside fresh.state
fresh-IdleIsFresh e = (refl, refl)

Steps-Keeps_example : Keeps outside fresh.state with_body.state
Steps-Keeps_example = Steps-Keeps outside transport role session fresh-IdleIsFresh

abbrev shrinking : ReadStrategy
shrinking = adaptive true 32768 417792

record_read-WellSized_example : WellSized (record_read shrinking 10)
record_read-WellSized_example =
    record_read-WellSized shrinking 10 (omega arith, omega arith, omega arith)
