-- ===== src/Http1/Conn/Read.antt =====
-- The reading operations of `Conn`, and `Buffered::parse` with `parse_headers` of proto/http1/role.rs.
-- The loops take fuel; `none` is a lack of it.
use hwire.Base.{
  ℕ, ◌-◌, Bool, true, false, not, ◌&&◌, ◌||◌, Option, none, some, ◌⊎◌, inl, inr, [], ◌∷◌, ◌==◌,
  if◌then◌else◌, Bytes, codes, drop,
}
use hwire.Io.{Out, ready, failed, pending, panicked, IoError, MemRead}
use hwire.Error.{Error, new_io, new_incomplete, new_unexpected_message}
use hwire.Http1.Buffered.{Transport, Buffered, poll_read_from_io, read_mem, extend_headers_buf}
use hwire.Http1.Decode.{Decoder, Frame, data_frame, decode}
use hwire.Http1.Decode
use hwire.Http1.State.{
  Reading, Version, http_09, http_10, Outside, close, close_read, is_read_closed,
}
use hwire.Http1.Conn.{
  Conn, set_state, writing_init, should_error_on_eof, is_mid_message, then_keep_alive,
}

abbrev pub starts_newline : Bytes → Bool
starts_newline (b ∷ _) = b == b'\n'
starts_newline [] = false

abbrev pub starts_crlf_end : Bytes → Bool
starts_crlf_end (a ∷ (b ∷ (c ∷ _))) = a == b'\n' && (b == b'\r' && c == b'\n')
starts_crlf_end _ = false

unfoldable pub has_end : Bytes → Bool
has_end [] = false
has_end (b ∷ bs) =
    let later = has_end bs in
    if b == b'\r'
    then (if starts_crlf_end bs then true else later)
    else if b == b'\n' && starts_newline bs
    then true
    else later

-- `is_complete_fast`. Its `prev_len` is the length of an earlier state of the same buffer, so the
-- slice starts within the bytes; behind their end the code panics, and this has nothing to scan.
unfoldable pub is_complete_fast : Bytes → ℕ → Bool
unfolding has_end
is_complete_fast bytes prev_len = has_end (drop (prev_len - 3) bytes)

abbrev pub is_after_10 : Version → Bool
is_after_10 http_09 = false
is_after_10 http_10 = false
is_after_10 _ = true

abbrev pub is_empty : Bytes → Bool
is_empty [] = true
is_empty (b ∷ bs) = false

module _ (out : Outside) (t : Transport) where
  open out use {http}

  abbrev pub reader : MemRead (Buffered t)
  reader = record { read_mem = read_mem t }

  abbrev pub set_reading : Conn out t → Reading → Conn out t
  set_reading c r = set_state out t c (record c.state { reading = r })

  abbrev pub BodyFrame : Type 0
  BodyFrame = Frame http.HeaderMap

  abbrev pub none_if_empty : Bytes → Option BodyFrame
  none_if_empty [] = none
  none_if_empty (b ∷ bs) = some (data_frame (b ∷ bs))

  -- The end of `poll_read_body`: the new state of reading, and what is returned
  abbrev pub read_done :
      Conn out t
      → Reading
      → IoError ⊎ Option BodyFrame
      → Out (Conn out t) (IoError ⊎ Option BodyFrame)
  read_done c r ret = then_keep_alive out t (set_reading c r) ret

  abbrev pub data_read : Conn out t → Bool → Bytes → Out (Conn out t) (IoError ⊎ Option BodyFrame)
  data_read c true slice = read_done c Reading.keep_alive (inr (none_if_empty slice))
  data_read c false [] = read_done c Reading.closed (inr none)
  data_read c false (b ∷ bs) = ready c (inr (some (data_frame (b ∷ bs))))

  abbrev pub with_decoder : Conn out t → Decoder × Buffered t → Conn out t
  with_decoder c (d, io) = record { io = io; state = record c.state { reading = Reading.body d } }

  abbrev pub decoded :
      Conn out t
      → Out (Decoder × Buffered t) BodyFrame
      → Out (Conn out t) (IoError ⊎ Option BodyFrame)
  decoded c (ready (d, io) (data_frame slice)) =
      data_read (with_decoder c (d, io)) (Decode.is_eof d) slice
  decoded c (ready (d, io) (Decode.trailers m)) =
      read_done (with_decoder c (d, io)) Reading.keep_alive (inr (some (Decode.trailers m)))
  decoded c (failed (d, io) e) = read_done (with_decoder c (d, io)) Reading.closed (inl e)
  decoded c (pending (d, io)) = pending (with_decoder c (d, io))
  decoded c panicked = panicked

  abbrev pub returned :
      Conn out t
      → Option (Out (Decoder × Buffered t) BodyFrame)
      → Option (Out (Conn out t) (IoError ⊎ Option BodyFrame))
  returned c none = none
  returned c (some o) = some (decoded c o)

  abbrev pub read_body :
      ℕ → Decoder → Conn out t → Option (Out (Conn out t) (IoError ⊎ Option BodyFrame))
  read_body fuel d c = returned c (decode http reader fuel d c.io)

  abbrev pub sent : Conn out t → Bool → Conn out t
  sent c true = record c { io = extend_headers_buf t c.io (codes "HTTP/1.1 100 Continue\r\n\r\n") }
  sent c false = c

  abbrev pub send_continue : Conn out t → Conn out t
  send_continue c = sent c (writing_init out t c.state.writing)

  abbrev pub read_in :
      ℕ → Reading → Conn out t → Option (Out (Conn out t) (IoError ⊎ Option BodyFrame))
  read_in fuel (Reading.body d) c = read_body fuel d c
  read_in fuel (Reading.continue d) c =
      read_body fuel d (set_reading (send_continue c) (Reading.body d))
  read_in fuel _ c = some panicked

  -- `poll_read_body`; the panic is its `unreachable!`.
  unfoldable pub poll_read_body :
      ℕ → Conn out t → Option (Out (Conn out t) (IoError ⊎ Option BodyFrame))
  poll_read_body fuel c = read_in fuel c.state.reading c

  abbrev pub skip_in : Reading → Conn out t → Conn out t
  skip_in (Reading.continue d) c = set_reading c (Reading.body d)
  skip_in _ c = c

  abbrev pub skip_continue : Conn out t → Conn out t
  skip_continue c = skip_in c.state.reading c

  abbrev pub drained_in : Reading → Conn out t → Conn out t
  drained_in Reading.init c = c
  drained_in Reading.keep_alive c = c
  drained_in _ c = set_state out t c (close_read out c.state)

  abbrev pub close_unless_drained : Conn out t → Conn out t
  close_unless_drained c = drained_in c.state.reading c

  abbrev pub after_drain : Out (Conn out t) (IoError ⊎ Option BodyFrame) → Option (Conn out t)
  after_drain (ready c r) = some (close_unless_drained c)
  after_drain (failed c e) = some (close_unless_drained c)
  after_drain (pending c) = some (close_unless_drained c)
  after_drain panicked = none

  abbrev pub drained :
      Option (Out (Conn out t) (IoError ⊎ Option BodyFrame)) → Option (Option (Conn out t))
  drained none = none
  drained (some o) = some (after_drain o)

  -- `poll_drain_or_close_read`; the inner `none` is a panic.
  unfoldable pub poll_drain_or_close_read : ℕ → Conn out t → Option (Option (Conn out t))
  unfolding poll_read_body
  poll_drain_or_close_read fuel c = drained (poll_read_body fuel (skip_continue c))

  abbrev pub forced : Conn out t → Out (Buffered t) ℕ → Out (Conn out t) (IoError ⊎ ℕ)
  forced c (ready io n) = ready (record c { io = io }) (inr n)
  forced c (failed io e) = ready (record { io = io; state = close out c.state }) (inl e)
  forced c (pending io) = pending (record c { io = io })
  forced c panicked = panicked

  -- `force_io_read`
  unfoldable pub force_io_read : Conn out t → Out (Conn out t) (IoError ⊎ ℕ)
  force_io_read c = forced c (poll_read_from_io t c.io)

  abbrev pub closed_read : Conn out t → Conn out t
  closed_read c = set_state out t c (close_read out c.state)

  abbrev pub empty_read : Out (Conn out t) (IoError ⊎ ℕ) → Out (Conn out t) (Option Error)
  empty_read (ready c (inl e)) = ready c (some (new_io e))
  empty_read (ready c (inr n)) =
      if n == 0
      then ready (closed_read c) (if should_error_on_eof out t c then some new_incomplete else none)
      else ready c (some new_unexpected_message)
  empty_read (failed c e) = failed c e
  empty_read (pending c) = pending c
  empty_read panicked = panicked

  abbrev pub require_if : Bool → Conn out t → Out (Conn out t) (Option Error)
  require_if true c = empty_read (force_io_read c)
  require_if false c = ready c (some new_unexpected_message)

  -- `require_empty_read`; an error is `some`.
  unfoldable pub require_empty_read : Conn out t → Out (Conn out t) (Option Error)
  require_empty_read c = require_if (is_empty c.io.read_buf) c

  abbrev pub eof_read : Out (Conn out t) (IoError ⊎ ℕ) → Out (Conn out t) (Option Error)
  eof_read (ready c (inl e)) = ready c (some (new_io e))
  eof_read (ready c (inr n)) =
      if n == 0 then ready (closed_read c) (some new_incomplete) else ready c none
  eof_read (failed c e) = failed c e
  eof_read (pending c) = pending c
  eof_read panicked = panicked

  abbrev pub detect_unless : Bool → Conn out t → Out (Conn out t) (Option Error)
  detect_unless true c = pending c
  detect_unless false c = eof_read (force_io_read c)

  -- `mid_message_detect_eof`
  unfoldable pub mid_message_detect_eof : Conn out t → Out (Conn out t) (Option Error)
  mid_message_detect_eof c =
      detect_unless (c.state.allow_half_close || not (is_empty c.io.read_buf)) c

  abbrev pub keep_alive_read : Bool → Bool → Conn out t → Out (Conn out t) (Option Error)
  keep_alive_read true mid c = pending c
  keep_alive_read false true c = mid_message_detect_eof c
  keep_alive_read false false c = require_empty_read c

  unfoldable pub poll_read_keep_alive : Conn out t → Out (Conn out t) (Option Error)
  poll_read_keep_alive c = keep_alive_read (is_read_closed out c.state) (is_mid_message out t c) c
