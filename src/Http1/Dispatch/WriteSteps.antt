-- ===== src/Http1/Dispatch/WriteSteps.antt =====
-- The writing side of `Dispatcher` as steps of its connection.
use hwire.Base.{
  ℕ, zero, suc, ◌≡◌, refl, Bool, true, false, ◌&&◌, Option, none, some, [], ◌∷◌, Bytes,
}
use hwire.Io.{Out, ready, failed, pending, panicked}
use hwire.Error.{Error}
use hwire.Http1.Buffered.{Transport, Buffered}
use hwire.Http1.Buffered.Flush.{Sink}
use hwire.Http1.Buffered.Flush
use hwire.Http1.State.{Outside, Writing}
use hwire.Http1.Transaction.{MessageHead, Transaction}
use hwire.Http1.Conn.{Conn, keep_alive_and_notify, writing_init, can_write_body}
use hwire.Http1.Conn.Write.{write_head, write_body, write_trailers, write_body_and_end, finish_body}
use hwire.Http1.Conn.Steps.{Step, Steps, then, done, flushed, Steps-trans}
use hwire.Http1.Dispatch.{
  Asked, not_asked, no_more, service_failed, message, BodyFrame, later, over, unknown_frame,
  body_failed, data_piece, trailers_piece, Service, close, close_conn, conn_flushed, flushed_with,
  conn_flush,
}
use hwire.Http1.Dispatch.Write.{
  Done, S, Round, returns, goes_on, panics, starved, room, on_conn, on_end, end_body, length_of,
  start_body, asked, on_flush, chunk_if, framed, cleared, body_if, may_ask, round_if, write_round,
  poll_write,
}

module _ (out : Outside) (t : Transport) (role : Transaction out) (sv : Service out role)
    (sink : Sink t) where
  open sv use {D, Body}

  abbrev pub Run : Conn out t → Conn out t → Type 0
  Run = Steps out t role

  -- What a round does to the connection
  abbrev pub Moves : Conn out t → Round out t role sv sink → Type 0
  Moves c (returns s d) = Run c s.conn
  Moves c (goes_on s) = Run c s.conn
  Moves c panics = Unit
  Moves c starved = Unit

  on_conn-Moves :
      (c : Conn out t) (s : S out t role sv sink) (o : Option (Conn out t))
      → ((c' : Conn out t) → o ≡ some c' → Step out t role c c')
      → Moves c (on_conn out t role sv sink s o)
  on_conn-Moves c s none k = tt
  on_conn-Moves c s (some c') k = then (k c' refl) done

  on_end-Moves :
      (s : S out t role sv sink) (b : Bool) (r : Conn out t × Option Error)
      → finish_body out t s.conn b ≡ r
      → Moves s.conn (on_end out t role sv sink s r)
  on_end-Moves s b (c, none) e = then (Step.finish b e) done
  on_end-Moves s b (c, some x) e = then (Step.finish b e) done

  end_body-Moves : (s : S out t role sv sink) → Moves s.conn (end_body out t role sv sink s)
  unfolding end_body
  end_body-Moves s = on_end-Moves s (room out t role sv sink s) _ refl

  pub close-Moves : (c : Conn out t) → Run c (close_conn out t role sv c)
  unfolding close_conn
  close-Moves c = then Step.close_reading (then Step.close_writing done)

  start_body-Moves :
      (s : S out t role sv sink) (h : MessageHead out role.Outgoing) (b : Body) (empty : Bool)
      → s.conn.state.writing ≡ Writing.init
      → Moves s.conn (start_body out t role sv sink s h b empty)
  start_body-Moves s h b true w =
      on_conn-Moves s.conn (record s { body_rx = none }) (write_head out t role s.conn h none)
        (λ c' e. Step.head h none w e)
  start_body-Moves s h b false w =
      on_conn-Moves s.conn (record s { body_rx = some b })
        (write_head out t role s.conn h (some (length_of out t role sv sink (sv.exact_size b))))
        (λ c' e. Step.head h _ w e)

  asked-Moves :
      (s : S out t role sv sink) (x : Asked (MessageHead out role.Outgoing) Body × D)
      → s.conn.state.writing ≡ Writing.init
      → Moves s.conn (asked out t role sv sink s x)
  unfolding close
  asked-Moves s (not_asked, d) w = done
  asked-Moves s (no_more, d) w = close-Moves s.conn
  asked-Moves s (service_failed, d) w = done
  asked-Moves s (message h b, d) w =
      start_body-Moves (record s { dispatch = d }) h b (sv.is_end_stream b) w

  flushed-Moves :
      (s : S out t role sv sink) (io : Buffered t) (o : Option (Conn out t))
      → keep_alive_and_notify out t (record s.conn { io = io }) ≡ o
      → Moves s.conn
          (on_flush out t role sv sink s (some (conn_flushed out t role sv sink s.conn o)))
  unfolding flushed
  flushed-Moves s io none e = tt
  flushed-Moves s io (some c') e = then (Step.flush io e) done

  after_flush-Moves :
      (s : S out t role sv sink) (x : Option (Out (Buffered t) (Unit {0})))
      → Moves s.conn (on_flush out t role sv sink s (flushed_with out t role sv sink s.conn x))
  after_flush-Moves s none = tt
  after_flush-Moves s (some (ready io u)) = flushed-Moves s io _ refl
  after_flush-Moves s (some (failed io e)) = then (Step.io_left io) done
  after_flush-Moves s (some (pending io)) = then (Step.io_left io) done
  after_flush-Moves s (some panicked) = tt

  pub flush-Moves :
      (fuel : ℕ) (s : S out t role sv sink)
      → Moves s.conn (on_flush out t role sv sink s (conn_flush out t role sv sink fuel s.conn))
  unfolding conn_flush
  flush-Moves fuel s = after_flush-Moves s (Flush.poll_flush t sink fuel s.conn.io)

  chunk_if-Moves :
      (last : Bool) (s : S out t role sv sink) (chunk : Bytes)
      → Moves s.conn (chunk_if out t role sv sink last s chunk)
  chunk_if-Moves true s [] = end_body-Moves (cleared out t role sv sink s)
  chunk_if-Moves true s (b ∷ bs) =
      on_conn-Moves s.conn (cleared out t role sv sink s)
        (write_body_and_end out t s.conn (room out t role sv sink s) (b ∷ bs))
        (λ c' e. Step.last_piece _ (b ∷ bs) e)
  chunk_if-Moves false s [] = done
  chunk_if-Moves false s (b ∷ bs) =
      on_conn-Moves s.conn s (write_body out t s.conn (room out t role sv sink s) (b ∷ bs))
        (λ c' e. Step.piece _ (b ∷ bs) e)

  framed-Moves :
      (s : S out t role sv sink) (x : BodyFrame out.http.HeaderMap × Body)
      → Moves s.conn (framed out t role sv sink s x)
  framed-Moves s (later, b) = done
  framed-Moves s (over, b) = end_body-Moves (cleared out t role sv sink s)
  framed-Moves s (body_failed, b) = done
  framed-Moves s (unknown_frame, b) = done
  framed-Moves s (data_piece chunk, b) =
      chunk_if-Moves (sv.is_end_stream b) (record s { body_rx = some b }) chunk
  framed-Moves s (trailers_piece m, b) =
      on_conn-Moves s.conn (cleared out t role sv sink s)
        (write_trailers out t s.conn (room out t role sv sink s) m) (λ c' e. Step.trailing _ m e)

  body_if-Moves :
      (may : Bool) (s : S out t role sv sink) (b : Option Body)
      → Moves s.conn (body_if out t role sv sink may s b)
  body_if-Moves true s (some b) = framed-Moves s (sv.poll_frame b)
  body_if-Moves false s (some b) = done
  body_if-Moves true s none = end_body-Moves s
  body_if-Moves false s none = done

  round_if-Moves :
      (closing ask full : Bool) (fuel : ℕ) (s : S out t role sv sink)
      → (ask ≡ true → s.conn.state.writing ≡ Writing.init)
      → Moves s.conn (round_if out t role sv sink closing ask full fuel s)
  round_if-Moves true ask full fuel s w = done
  round_if-Moves false true full fuel s w = asked-Moves s (sv.poll_msg s.dispatch) (w refl)
  round_if-Moves false false true fuel s w = flush-Moves fuel s
  round_if-Moves false false false fuel s w =
      body_if-Moves (can_write_body out t s.conn) s s.body_rx

  pub both : (a b : Bool) → (a && b) ≡ true → (a ≡ true) × (b ≡ true)
  both true true e = (refl, refl)
  both true false e = absurd (cc)
  both false b e = absurd (cc)

  init_of : (w : Writing out) → writing_init out t w ≡ true → w ≡ Writing.init
  init_of Writing.init e = refl
  init_of (Writing.body x) e = absurd (cc)
  init_of Writing.keep_alive e = absurd (cc)
  init_of Writing.closed e = absurd (cc)

  -- A message is asked for only where the connection has not begun to write one.
  may_ask-init :
      (s : S out t role sv sink)
      → may_ask out t role sv sink s ≡ true
      → s.conn.state.writing ≡ Writing.init
  may_ask-init s e =
      let (a, rest) = both _ _ e in
      let (can, polls) = both _ _ rest in
      let (open_, writable) = both _ _ can in
      let (start, room) = both _ _ writable in init_of s.conn.state.writing start

  write_round-Moves :
      (fuel : ℕ) (s : S out t role sv sink) → Moves s.conn (write_round out t role sv sink fuel s)
  unfolding write_round
  write_round-Moves fuel s =
      round_if-Moves s.is_closing (may_ask out t role sv sink s) _ fuel s (may_ask-init s)

  abbrev pub Polls : Conn out t → Option (Option (S out t role sv sink × Done)) → Type 0
  Polls c (some (some (s, d))) = Steps out t role c s.conn
  Polls c _ = Unit

  pub before : {a b : Conn out t} (x : _) → Run a b → Polls b x → Polls a x
  before none r p = tt
  before (some none) r p = tt
  before (some (some (s, d))) r p = Steps-trans out t role r p

  pub poll_write-Polls :
      (rounds fuel : ℕ) (s : S out t role sv sink)
      → Polls s.conn (poll_write out t role sv sink rounds fuel s)
  unfolding poll_write
  poll_write-Polls zero fuel s = tt
  poll_write-Polls (suc rounds) fuel s =
      go (write_round out t role sv sink fuel s) (write_round-Moves fuel s)
        (λ s'. poll_write-Polls rounds fuel s')
    where
      go :
          (x : Round out t role sv sink)
          → Moves s.conn x
          → ((s' : S out t role sv sink)
              → Polls s'.conn (poll_write out t role sv sink rounds fuel s'))
          → Polls s.conn (elim x [
            | returns s' d ↦ some (some (s', d))
            | goes_on s' ↦ poll_write out t role sv sink rounds fuel s'
            | panics ↦ some none
            | starved ↦ none
          ])
      go (returns s' d) m ih = m
      go (goes_on s') m ih = before (poll_write out t role sv sink rounds fuel s') m (ih s')
      go panics m ih = tt
      go starved m ih = tt
