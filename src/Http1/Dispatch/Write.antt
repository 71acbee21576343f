-- ===== src/Http1/Dispatch/Write.antt =====
-- `Dispatcher::poll_write` of proto/http1/dispatch.rs.
use hwire.Base.{ℕ, zero, suc, Bool, true, false, not, ◌&&◌, Option, none, some, [], ◌∷◌, Bytes}
use hwire.Io.{Out, ready, failed, pending, panicked}
use hwire.Error.{Error, User, new_error, with_cause, from_io, user, body_write}
use hwire.Http1.Buffered.{Transport}
use hwire.Http1.Buffered.Flush.{Sink}
use hwire.Http1.State.{Outside}
use hwire.Http1.Transaction.{BodyLength, known, unknown, MessageHead, Transaction}
use hwire.Http1.Conn.{Conn, can_write_head, can_write_body, can_buffer_body}
use hwire.Http1.Conn.Write.{write_head, write_body, write_trailers, write_body_and_end, finish_body}
use hwire.Http1.Dispatch.{
  Asked, not_asked, no_more, service_failed, message, BodyFrame, later, over, unknown_frame,
  body_failed, data_piece, trailers_piece, Service, Dispatcher, close, is_some_body, conn_flush,
}

-- `Poll<Result<()>>`
pub data Done : Type 0 where
  done_ready done_pending : Done
  done_error : Error → Done

module _ (out : Outside) (t : Transport) (role : Transaction out) (sv : Service out role)
    (sink : Sink t) where
  open sv use {D, Body}

  abbrev pub S : Type 0
  S = Dispatcher out t role sv

  -- A round of the loop: it returns, goes on, panics, or lacks fuel for a flush.
  pub data Round : Type 0 where
    returns : S → Done → Round
    goes_on : S → Round
    panics starved : Round

  abbrev pub room : S → Bool
  room s = sv.has_room s.dispatch

  abbrev pub with_conn : S → Conn out t → S
  with_conn s c = record s { conn = c }

  abbrev pub on_conn : S → Option (Conn out t) → Round
  on_conn s none = panics
  on_conn s (some c) = goes_on (with_conn s c)

  abbrev pub on_end : S → Conn out t × Option Error → Round
  on_end s (c, none) = goes_on (with_conn s c)
  on_end s (c, some e) = returns (with_conn s c) (done_error e)

  -- `self.conn.end_body()?`
  unfoldable pub end_body : S → Round
  end_body s = on_end s (finish_body out t s.conn (room s))

  -- A message of the dispatch
  abbrev pub length_of : Option ℕ → BodyLength
  length_of none = unknown
  length_of (some n) = known n

  abbrev pub start_body : S → MessageHead out role.Outgoing → Body → Bool → Round
  start_body s h b true =
      on_conn (record s { body_rx = none }) (write_head out t role s.conn h none)
  start_body s h b false =
      on_conn (record s { body_rx = some b })
        (write_head out t role s.conn h (some (length_of (sv.exact_size b))))

  abbrev pub asked : S → Asked (MessageHead out role.Outgoing) Body × D → Round
  asked s (not_asked, d) = returns (record s { dispatch = d }) done_pending
  asked s (no_more, d) = returns (close out t role sv (record s { dispatch = d })) done_ready
  asked s (service_failed, d) =
      returns (record s { dispatch = d }) (done_error (new_error (user User.service)))
  asked s (message h b, d) = start_body (record s { dispatch = d }) h b (sv.is_end_stream b)

  -- `ready!(self.poll_flush(cx))?`
  abbrev pub on_flush : S → Option (Out (Conn out t) (Unit {0})) → Round
  on_flush s none = starved
  on_flush s (some (ready c u)) = goes_on (with_conn s c)
  on_flush s (some (failed c e)) =
      returns (with_conn s c) (done_error (with_cause (new_error body_write) (from_io e)))
  on_flush s (some (pending c)) = returns (with_conn s c) done_pending
  on_flush s (some panicked) = panics

  -- A piece of the body, which may be the last
  abbrev pub cleared : S → S
  cleared s = record s { body_rx = none }

  abbrev pub last_chunk : S → Bytes → Round
  last_chunk s [] = end_body s
  last_chunk s (b ∷ bs) = on_conn s (write_body_and_end out t s.conn (room s) (b ∷ bs))

  abbrev pub next_chunk : S → Bytes → Round
  next_chunk s [] = goes_on s
  next_chunk s (b ∷ bs) = on_conn s (write_body out t s.conn (room s) (b ∷ bs))

  abbrev pub chunk_if : Bool → S → Bytes → Round
  chunk_if true s chunk = last_chunk (cleared s) chunk
  chunk_if false s chunk = next_chunk s chunk

  abbrev pub framed : S → BodyFrame out.http.HeaderMap × Body → Round
  framed s (later, b) = returns (record s { body_rx = some b }) done_pending
  framed s (over, b) = end_body (cleared s)
  framed s (body_failed, b) = returns (cleared s) (done_error (new_error (user User.body)))
  framed s (unknown_frame, b) = goes_on (record s { body_rx = some b })
  framed s (data_piece chunk, b) =
      chunk_if (sv.is_end_stream b) (record s { body_rx = some b }) chunk
  framed s (trailers_piece m, b) = on_conn (cleared s) (write_trailers out t s.conn (room s) m)

  abbrev pub body_if : Bool → S → Option Body → Round
  body_if true s (some b) = framed s (sv.poll_frame b)
  body_if false s (some b) = goes_on (cleared s)
  body_if true s none = end_body s
  body_if false s none = returns s done_pending

  abbrev pub may_ask : S → Bool
  may_ask s =
      not (is_some_body out t role sv s.body_rx)
      && (can_write_head out t s.conn && sv.should_poll s.dispatch)

  -- The order of the tests: closing, a message, a full buffer, the body
  abbrev pub round_if : Bool → Bool → Bool → ℕ → S → Round
  round_if true ask full fuel s = returns s done_ready
  round_if false true full fuel s = asked s (sv.poll_msg s.dispatch)
  round_if false false true fuel s = on_flush s (conn_flush out t role sv sink fuel s.conn)
  round_if false false false fuel s = body_if (can_write_body out t s.conn) s s.body_rx

  unfoldable pub write_round : ℕ → S → Round
  unfolding end_body conn_flush
  write_round fuel s = round_if s.is_closing (may_ask s) (not (can_buffer_body out t s.conn)) fuel s

  -- `Dispatcher::poll_write`: the inner `none` is a panic, the outer a lack of fuel.
  unfoldable pub poll_write : ℕ → ℕ → S → Option (Option (S × Done))
  unfolding write_round
  poll_write zero fuel s = none
  poll_write (suc rounds) fuel s = elim (write_round fuel s) [
    | returns s' d ↦ some (some (s', d))
    | goes_on s' ↦ poll_write rounds fuel s'
    | panics ↦ some none
    | starved ↦ none
  ]
