-- ===== src/Tests/Rounds.antt =====
-- The dispatcher of a client that writes one request, whose body has one piece.
use hwire.Base.{[], ℕ, zero, suc, ◌≡◌, refl, true, false, none, some, Bytes, codes, length}
use hwire.Io.{ready}
use hwire.Http1.WriteBuf.Queue.{unsent}
use hwire.Http1.Buffered.Flush.{Sink}
use hwire.Http1.Dispatch.{Asked, not_asked, message, data_piece, Service, Dispatcher, hears}
use hwire.Http1.Dispatch.Write.{goes_on, Round}
use hwire.Http1.Dispatch.Asserts.{Serves, write_round-Ok}
use hwire.Http1.Dispatch.Write.{write_round, panics}
use hwire.Http1.Dispatch.{conn_flush}
use hwire.Http1.Encode.Total.{StartsNamed}
use hwire.Io.{panicked}
use hwire.Http1.Encode.{new_length}
use hwire.Http1.State.{new_state, Writing}
use hwire.Base.{◌∷◌, sym, subst}
use hwire.Base.{u64_mod, arith, ◌≢◌, ◌<◌}
use hwire.Tests.Connection.{outside, transport, fresh}
use hwire.Http1.Role.{RequestLine}
use hwire.Http1.Role.Client.{client, Request}
use hwire.Http1.Role.Written.{IsSpoken}
use hwire.Http1.Transaction.{Transaction}
use hwire.HttpCrate.{get}
use hwire.Http1.State.{http_11}
use hwire.Tests.Roles.{role_crate}
use hwire.Tests.Maps.{crate-MapLaws}
use hwire.Tests.Dispatching.{sink, piece, is_zero}

abbrev role : Transaction outside
role = client outside role_crate

abbrev request : Request outside role_crate
request = record {
  version = http_11;
  subject = record { method = get; uri = codes "/" };
  headers = [];
  on_informational = none;
  on_preserve = none;
  reason_phrase = none;
}

-- The number of requests that are left
abbrev ask : ℕ → Asked (Request outside role_crate) ℕ × ℕ
ask zero = (not_asked, zero)
ask (suc n) = (message request 1, n)

abbrev service : Service outside role
service = record {
  D = ℕ;
  Body = ℕ;
  Tx = Unit;
  Rx = Unit;
  poll_msg = ask;
  should_poll = λ d. true;
  is_end_stream = is_zero;
  exact_size = λ b. some 3;
  poll_frame = piece;
  has_room = λ d. false;
  poll_ready = λ d. (hears, d);
  recv_msg = λ d m. (none, d);
  empty_body = tt;
  body_channel = λ len wanter. (tt, tt);
  tx_ready = λ tx. (hears, tx);
  send_data = λ tx chunk. (true, tx);
  send_trailers = λ tx m. (true, tx);
  send_error = λ d tx e. d;
  new_upgrade = λ d. tt;
  with_upgrade = λ d h. h;
}

abbrev dispatcher : Dispatcher outside transport role service
dispatcher = record {
  conn = fresh;
  dispatch = 1;
  body_tx = none;
  body_rx = none;
  is_closing = false;
}

piece-word : (b b' : ℕ) (chunk : Bytes) → piece b ≡ (data_piece chunk, b') → length chunk < u64_mod
piece-word zero b' chunk e = absurd (cc)
piece-word (suc b) b' chunk e = ground (arith, e)

starts_named : (m : outside.http.HeaderMap) → StartsNamed outside.http (outside.http.into_items m)
starts_named [] = tt
starts_named (x ∷ m) = tt

ask-IsSpoken :
    (d d' : ℕ) (h : Request outside role_crate) (b : ℕ)
    → ask d ≡ (message h b, d')
    → IsSpoken h.version
ask-IsSpoken zero d' h b e = absurd (cc)
ask-IsSpoken (suc n) d' h b e = let z : request ≡ h = cc in subst (λ h. IsSpoken h.version) z tt

fine : Serves outside role_crate crate-MapLaws transport service sink
fine = record { spoken = ask-IsSpoken; words = piece-word; named = starts_named }

-- A piece of the body of a message that is being written
abbrev busy : Dispatcher outside transport role service
busy = record dispatcher {
  body_rx = some 1;
  conn = record fresh {
    state = record (new_state outside) { writing = Writing.body (new_length outside.http 3) };
  };
}

flush_done : conn_flush outside transport role service sink 50 busy.conn ≡ some (ready busy.conn tt)
unfolding conn_flush hwire.Http1.Buffered.Flush.poll_flush hwire.Http1.WriteBuf.remaining
    hwire.Http1.Conn.keep_alive_and_notify hwire.Http1.State.try_keep_alive
flush_done = refl

write_round-Ok_example : write_round outside transport role service sink 50 busy ≢ panics
write_round-Ok_example =
    write_round-Ok outside role_crate crate-MapLaws transport service sink fine 50 busy
      (subst (λ x. x ≢ some panicked) (sym flush_done) (λ e. cc))

abbrev unsent_of : Round outside transport role service sink → Bytes
unsent_of (goes_on s) = unsent s.conn.io.write_buf
unsent_of _ = []

-- The round that asks for the request writes its head, with the length of its body.
head_written :
    unsent_of (write_round outside transport role service sink 50 dispatcher)
    ≡ codes "GET / HTTP/1.1\r\ncontent-length: 3\r\n\r\n"
unfolding write_round hwire.Http1.Conn.Write.write_head hwire.Http1.Role.Client.encode
    hwire.Http1.Role.Decoder.contains_key hwire.Http1.Headers.content_length_parse_all_values
head_written = refl
