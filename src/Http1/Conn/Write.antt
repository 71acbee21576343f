-- ===== src/Http1/Conn/Write.antt =====
-- The writing operations of `Conn`. Where a method asserts the state of writing, `none` is its panic.
use hwire.Base.{Bool, true, false, ◌||◌, Option, none, some, ◌⊎◌, inl, inr, Bytes, codes}
use hwire.HttpCrate.{connection}
use hwire.Io.{Out, ready, panicked}
use hwire.Error.{Error, new_version_h2, new_body_write_aborted, with_cause, from_not_eof}
use hwire.Http1.Headers.{connection_keep_alive}
use hwire.Http1.Buffered.{Transport, Buffered, buffer_bytes, extend_headers_buf}
use hwire.Http1.Encode.{
  Encoder, EncodedBuf, EndResult, TrailersResult, content, encode, encode_and_end, encode_trailers,
  end_body, is_eof, is_close_delimited, at_end, end_with, not_eof, no_trailers, some_trailers,
  no_name,
}
use hwire.Http1.State.{
  Version, http_10, http_11, Outside, Writing, State, make_busy, wants_keep_alive, is_disabled,
  disable_keep_alive,
}
use hwire.Http1.Transaction.{BodyLength, MessageHead, Encoded, Transaction}
use hwire.Http1.Conn.{Conn, set_state, has_h2_prefix}

module _ (out : Outside) (t : Transport) where
  open out use {http, OnInformational}

  abbrev pub set_writing : Conn out t → Writing out → Conn out t
  set_writing c w = set_state out t c (record c.state { writing = w })

  -- Where the encoder is at its end: closed if this is the last message, else keep-alive.
  abbrev pub written : Encoder http → Writing out
  written e = elim e.is_last [ true ↦ Writing.closed | false ↦ Writing.keep_alive ]

  abbrev pub writing_after : Encoder http → Writing out
  writing_after e = elim (is_eof http e) [ true ↦ written e | false ↦ Writing.body e ]

  abbrev pub ended : Encoder http → Writing out
  ended e = elim (e.is_last || is_close_delimited http e) [
    | true ↦ Writing.closed
    | false ↦ Writing.keep_alive
  ]

  abbrev pub buffered : Conn out t → Bool → EncodedBuf http → Conn out t
  buffered c room b = record c { io = buffer_bytes t c.io room (content http b) }

  abbrev pub after_encode :
      Conn out t → Bool → Option (Encoder http × EncodedBuf http) → Option (Conn out t)
  after_encode c room none = none
  after_encode c room (some (e, b)) = some (set_writing (buffered c room b) (writing_after e))

  -- `write_body`
  abbrev pub write_in : Writing out → Conn out t → Bool → Bytes → Option (Conn out t)
  write_in (Writing.body e) c room chunk = after_encode c room (encode http e chunk)
  write_in _ c room chunk = none

  unfoldable pub write_body : Conn out t → Bool → Bytes → Option (Conn out t)
  write_body c room chunk = write_in c.state.writing c room chunk

  -- `write_trailers`
  abbrev pub after_trailers :
      Conn out t → Bool → Encoder http → TrailersResult http → Option (Conn out t)
  after_trailers c room e no_trailers = some c
  after_trailers c room e (some_trailers b) = some (set_writing (buffered c room b) (ended e))
  after_trailers c room e no_name = none

  abbrev pub trailers_in : Writing out → Conn out t → Bool → http.HeaderMap → Option (Conn out t)
  trailers_in (Writing.body e) c room trailers =
      after_trailers c room e (encode_trailers http e trailers)
  trailers_in _ c room trailers = none

  unfoldable pub write_trailers : Conn out t → Bool → http.HeaderMap → Option (Conn out t)
  write_trailers c room trailers = trailers_in c.state.writing c room trailers

  abbrev pub after_last : Conn out t → Bool → Option (EncodedBuf http × Bool) → Option (Conn out t)
  after_last c room none = none
  after_last c room (some (b, true)) = some (set_writing (buffered c room b) Writing.keep_alive)
  after_last c room (some (b, false)) = some (set_writing (buffered c room b) Writing.closed)

  -- `write_body_and_end`
  abbrev pub last_in : Writing out → Conn out t → Bool → Bytes → Option (Conn out t)
  last_in (Writing.body e) c room chunk = after_last c room (encode_and_end http e chunk)
  last_in _ c room chunk = none

  unfoldable pub write_body_and_end : Conn out t → Bool → Bytes → Option (Conn out t)
  write_body_and_end c room chunk = last_in c.state.writing c room chunk

  abbrev pub after_end :
      Conn out t → Bool → Encoder http → EndResult http → Conn out t × Option Error
  after_end c room e at_end = (set_writing c (ended e), none)
  after_end c room e (end_with b) = (set_writing (buffered c room b) (ended e), none)
  after_end c room e (not_eof n) =
      (set_writing c Writing.closed, some (with_cause new_body_write_aborted (from_not_eof n)))

  abbrev pub finish_in : Writing out → Conn out t → Bool → Conn out t × Option Error
  finish_in (Writing.body e) c room = after_end c room e (end_body http e)
  finish_in _ c room = (c, none)

  -- `Conn::end_body`, and the error that it returns
  unfoldable pub finish_body : Conn out t → Bool → Conn out t × Option Error
  finish_body c room = finish_in c.state.writing c room

  module _ (role : Transaction out) where
    abbrev pub Head : Type 0
    Head = MessageHead out role.Outgoing

    abbrev pub asks_keep_alive : Option http.HeaderValue → Bool
    asks_keep_alive none = false
    asks_keep_alive (some v) = connection_keep_alive http v

    abbrev pub insert_connection : Head → Bytes → Head
    insert_connection h text = record h {
      headers = http.insert h.headers (http.known connection) (http.from_static text);
    }

    abbrev pub insert_if : Bool → Bytes → State out → Head → State out × Head
    insert_if true text s h = (s, insert_connection h text)
    insert_if false text s h = (s, h)

    abbrev pub fix_version : Version → State out → Head → State out × Head
    fix_version http_10 s h = (disable_keep_alive out s, h)
    fix_version http_11 s h = insert_if (wants_keep_alive out s) (codes "keep-alive") s h
    fix_version _ s h = (s, h)

    abbrev pub fix_unless : Bool → State out → Head → State out × Head
    fix_unless true s h = (s, h)
    fix_unless false s h = fix_version h.version s h

    -- `fix_keep_alive`
    unfoldable pub fix_keep_alive : State out → Head → State out × Head
    fix_keep_alive s h =
        fix_unless (asks_keep_alive (http.get h.headers (http.known connection))) s h

    abbrev pub as_http_10 : State out × Head → State out × Head
    as_http_10 (s, h) = (s, record h { version = http_10 })

    abbrev pub enforce_for : Version → State out → Head → State out × Head
    enforce_for http_10 s h = as_http_10 (fix_keep_alive s h)
    enforce_for http_11 s h = insert_if (is_disabled s.keep_alive) (codes "close") s h
    enforce_for _ s h = (s, h)

    -- `enforce_version`
    unfoldable pub enforce_version : State out → Head → State out × Head
    enforce_version s h = enforce_for s.version s h

    abbrev pub head_result :
        Buffered t
        → State out
        → Encoded out
        → Option OnInformational
        → Error ⊎ Encoder http
        → Conn out t
    head_result io s x callback (inl err) = record {
      io = io;
      state = record s { error = some err; writing = Writing.closed };
    }
    head_result io s x callback (inr e) = record {
      io = io;
      state = record s {
        cached_headers = some x.headers;
        on_informational = callback;
        writing = writing_after e;
      };
    }

    -- The end of `encode_head` and `write_head`
    abbrev pub after_head : Conn out t → Head → Encoded out → Conn out t
    after_head c h x =
        head_result (extend_headers_buf t c.io x.dst) (record c.state { method = x.req_method }) x
          h.on_informational x.result

    abbrev pub after_encoding : Conn out t → Head → Option (Encoded out) → Option (Conn out t)
    after_encoding c h none = none
    after_encoding c h (some x) = some (after_head c h x)

    abbrev pub encode_head : Conn out t → State out × Head → Option BodyLength → Option (Conn out t)
    encode_head c (s, h) body = after_encoding (set_state out t c s) h (role.encode h body s.method)

    -- `write_head`
    unfoldable pub write_head : Conn out t → Head → Option BodyLength → Option (Conn out t)
    unfolding enforce_version make_busy
    write_head c h body = encode_head c (enforce_version (make_busy out c.state) h) body

    abbrev pub error_kept : Error → Option (Conn out t) → Out (Conn out t) (Option Error)
    error_kept err none = panicked
    error_kept err (some c) = ready (set_state out t c (record c.state { error = some err })) none

    abbrev pub answer_error : Conn out t → Error → Option Head → Out (Conn out t) (Option Error)
    answer_error c err none = ready c (some err)
    answer_error c err (some msg) =
        error_kept err
          (write_head (set_state out t c (record c.state { cached_headers = none })) msg none)

    abbrev pub answer_in : Writing out → Bool → Conn out t → Error → Out (Conn out t) (Option Error)
    answer_in Writing.init true c err = ready c (some new_version_h2)
    answer_in Writing.init false c err = answer_error c err (role.on_error err)
    answer_in _ prefix c err = ready c (some err)

    -- `on_parse_error`, and the error that it returns
    unfoldable pub on_parse_error : Conn out t → Error → Out (Conn out t) (Option Error)
    on_parse_error c err = answer_in c.state.writing (has_h2_prefix out t c) c err
