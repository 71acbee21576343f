-- ===== src/Http1/Dispatch/ReadSteps.antt =====
-- The reading side of `Dispatcher` as steps of its connection.
use hwire.Base.{ℕ, zero, suc, ◌≡◌, refl, Bool, true, false, Option, none, some, ◌⊎◌, inl, inr}
use hwire.Io.{Out, ready, failed, pending, panicked, IoError}
use hwire.Error.{Error, new_io}
use hwire.Body.Length.{DecodedLength, same}
use hwire.Body.Length
use hwire.Http1.Decode.{data_frame}
use hwire.Http1.Decode
use hwire.Http1.Buffered.{Transport}
use hwire.Http1.Buffered.Flush.{Sink}
use hwire.Http1.State.{Outside, Reading, is_write_closed}
use hwire.Http1.Transaction.{MessageHead, Wants, Transaction}
use hwire.Http1.Conn.{Conn, can_read_head, can_read_body, reading_init}
use hwire.Http1.Conn.Read.{
  BodyFrame, poll_read_body, poll_drain_or_close_read, poll_read_keep_alive,
}
use hwire.Http1.Conn.Head.{HeadResult, poll_read_head}
use hwire.Http1.Conn.Steps.{Steps-trans, Step, Steps, then, done, left}
use hwire.Http1.Dispatch.{Service, Heard, not_now, hears, deaf, close}
use hwire.Http1.Dispatch.Write.{Round, returns, goes_on, panics, starved, with_conn}
use hwire.Http1.Dispatch.WriteSteps.{Moves, close-Moves, before, Polls, both}
use hwire.Http1.Dispatch.Read.{
  R, St, received, upgraded, upgrade_if, with_channel, body_if_any, head_failed, no_head_if,
  on_head, head_if, read_head_round, close_if, given, on_frame, on_drained, frame_if, body_round_if,
  kept_alive, tx_round, read_if, read_round, poll_read,
}

module _ (out : Outside) (t : Transport) (role : Transaction out) (sv : Service out role)
    (sink : Sink t) where
  open sv use {D, Tx, Rx}

  abbrev Moved : Conn out t → R out t role sv sink → Type 0
  Moved c x = Moves out t role sv sink c x

  abbrev Ran : Conn out t → Conn out t → Type 0
  Ran = Steps out t role

  received-Moves :
      (c : Conn out t) (s s' : St out t role sv sink) (x : Option Error × D)
      → Ran c s.conn
      → Ran c s'.conn
      → Moved c (received out t role sv sink s x s')
  received-Moves c s s' (some e, d) a b = a
  received-Moves c s s' (none, d) a b = b

  closed : (s : St out t role sv sink) → Ran s.conn (close out t role sv s).conn
  unfolding close
  closed s = close-Moves out t role sv sink s.conn

  upgrade_if-Moves :
      (c : Conn out t) (up : Bool) (s : St out t role sv sink) (h : MessageHead out role.Incoming)
      (rx : Rx)
      → Ran c s.conn
      → Moved c (upgrade_if out t role sv sink up s h rx)
  upgrade_if-Moves c true s h rx r =
      let r' = Steps-trans out t role r (then (Step.upgraded (sv.new_upgrade s.dispatch)) done) in
      received-Moves c (upgraded out t role sv sink s) (upgraded out t role sv sink s)
        (sv.recv_msg s.dispatch (inr (sv.with_upgrade s.dispatch h, rx))) r' r'
  upgrade_if-Moves c false s h rx r =
      received-Moves c s s (sv.recv_msg s.dispatch (inr (h, rx))) r r

  with_channel-Moves :
      (c : Conn out t) (s : St out t role sv sink) (h : MessageHead out role.Incoming) (w : Wants)
      (x : Tx × Rx)
      → Ran c s.conn
      → Moved c (with_channel out t role sv sink s h w x)
  with_channel-Moves c s h w (tx, rx) r =
      upgrade_if-Moves c w.upgrade (record s { body_tx = some tx }) h rx r

  body_if_any-Moves :
      (c : Conn out t) (empty : Bool) (s : St out t role sv sink)
      (h : MessageHead out role.Incoming) (len : DecodedLength) (w : Wants)
      → Ran c s.conn
      → Moved c (body_if_any out t role sv sink empty s h len w)
  body_if_any-Moves c true s h len w r = upgrade_if-Moves c w.upgrade s h sv.empty_body r
  body_if_any-Moves c false s h len w r =
      with_channel-Moves c s h w (sv.body_channel len w.expect) r

  head_failed-Moves :
      (c : Conn out t) (s : St out t role sv sink) (e : Error)
      → Ran c s.conn
      → Moved c (head_failed out t role sv sink s e)
  head_failed-Moves c s e r =
      received-Moves c s (close out t role sv s) (sv.recv_msg s.dispatch (inl e)) r
        (Steps-trans out t role r (closed s))

  no_head_if-Moves :
      (c : Conn out t) (b : Bool) (s : St out t role sv sink)
      → Ran c s.conn
      → Moved c (no_head_if out t role sv sink b s)
  no_head_if-Moves c true s r = Steps-trans out t role r (closed s)
  no_head_if-Moves c false s r = r

  on_head-Moves :
      (s : St out t role sv sink) (x : Option (Out (Conn out t) (HeadResult out t role)))
      → ((o : Out (Conn out t) (HeadResult out t role))
          → x ≡ some o
          → (c' : Conn out t) → left out t role o ≡ some c'
          → Ran s.conn c')
      → Moved s.conn (on_head out t role sv sink s x)
  on_head-Moves s none k = tt
  on_head-Moves s (some (ready c none)) k =
      no_head_if-Moves s.conn (is_write_closed out c.state) (with_conn out t role sv sink s c)
        (k _ refl c refl)
  on_head-Moves s (some (ready c (some (inl e)))) k =
      head_failed-Moves s.conn (with_conn out t role sv sink s c) e (k _ refl c refl)
  on_head-Moves s (some (ready c (some (inr (h, (len, w)))))) k =
      body_if_any-Moves s.conn (same len Length.zero) (with_conn out t role sv sink s c) h len w
        (k _ refl c refl)
  on_head-Moves s (some (failed c e)) k =
      head_failed-Moves s.conn (with_conn out t role sv sink s c) (new_io e) (k _ refl c refl)
  on_head-Moves s (some (pending c)) k = k _ refl c refl
  on_head-Moves s (some panicked) k = tt

  head_if-Moves :
      (fuel : ℕ) (s : St out t role sv sink) (x : Heard × D)
      → s.conn.state.reading ≡ Reading.init
      → Moved s.conn (head_if out t role sv sink fuel s x)
  head_if-Moves fuel s (not_now, d) i = done
  head_if-Moves fuel s (deaf, d) i = closed (record s { dispatch = d })
  head_if-Moves fuel s (hears, d) i =
      on_head-Moves (record s { dispatch = d }) (poll_read_head out t role fuel s.conn)
        (λ o e c' l. then (Step.read_head fuel i e l) done)

  given-Moves :
      (s : St out t role sv sink) (c : Conn out t) (x : Bool × Tx)
      → Ran s.conn c
      → Moved s.conn (given out t role sv sink s c x)
  given-Moves s c (true, tx) r = r
  given-Moves s c (false, tx) r = dropped (can_read_body out t c)
    where
      dropped : (b : Bool) → Ran s.conn (close_if out t role sv sink b c)
      dropped true = Steps-trans out t role r (then Step.close_reading done)
      dropped false = r

  on_frame-Moves :
      (s : St out t role sv sink) (tx : Tx)
      (x : Option (Out (Conn out t) (IoError ⊎ Option (BodyFrame out t))))
      → ((o : Out (Conn out t) (IoError ⊎ Option (BodyFrame out t)))
          → x ≡ some o
          → (c' : Conn out t) → left out t role o ≡ some c'
          → Ran s.conn c')
      → Moved s.conn (on_frame out t role sv sink s tx x)
  on_frame-Moves s tx none k = tt
  on_frame-Moves s tx (some (ready c (inr (some (data_frame chunk))))) k =
      given-Moves s c (sv.send_data tx chunk) (k _ refl c refl)
  on_frame-Moves s tx (some (ready c (inr (some (Decode.trailers m))))) k =
      given-Moves s c (sv.send_trailers tx m) (k _ refl c refl)
  on_frame-Moves s tx (some (ready c (inr none))) k = k _ refl c refl
  on_frame-Moves s tx (some (ready c (inl e))) k = k _ refl c refl
  on_frame-Moves s tx (some (failed c e)) k = k _ refl c refl
  on_frame-Moves s tx (some (pending c)) k = k _ refl c refl
  on_frame-Moves s tx (some panicked) k = tt

  on_drained-Moves :
      (s : St out t role sv sink) (x : Option (Option (Conn out t)))
      → ((c' : Conn out t) → x ≡ some (some c') → Ran s.conn c')
      → Moved s.conn (on_drained out t role sv sink s x)
  on_drained-Moves s none k = tt
  on_drained-Moves s (some none) k = tt
  on_drained-Moves s (some (some c)) k = k c refl

  frame_if-Moves :
      (fuel : ℕ) (s : St out t role sv sink) (x : Heard × Tx)
      → Moved s.conn (frame_if out t role sv sink fuel s x)
  frame_if-Moves fuel s (not_now, tx) = done
  frame_if-Moves fuel s (deaf, tx) =
      on_drained-Moves s (poll_drain_or_close_read out t fuel s.conn)
        (λ c' e. then (Step.drain fuel e) done)
  frame_if-Moves fuel s (hears, tx) =
      on_frame-Moves s tx (poll_read_body out t fuel s.conn)
        (λ o e c' l. then (Step.read_body fuel e l) done)

  kept_alive-Moves :
      (s : St out t role sv sink) (x : Out (Conn out t) (Option Error))
      → ((c' : Conn out t) → left out t role x ≡ some c' → Ran s.conn c')
      → Moved s.conn (kept_alive out t role sv sink s x)
  kept_alive-Moves s (ready c none) k = k c refl
  kept_alive-Moves s (ready c (some e)) k = k c refl
  kept_alive-Moves s (failed c e) k = k c refl
  kept_alive-Moves s (pending c) k = k c refl
  kept_alive-Moves s panicked k = tt

  tx_round-Moves :
      (fuel : ℕ) (s : St out t role sv sink) (tx : Option Tx)
      → Moved s.conn (tx_round out t role sv sink fuel s tx)
  tx_round-Moves fuel s none =
      kept_alive-Moves s (poll_read_keep_alive out t s.conn)
        (λ c' l. then (Step.read_keep_alive l) done)
  tx_round-Moves fuel s (some tx) = go (can_read_body out t s.conn)
    where
      go : (b : Bool) → Moved s.conn (body_round_if out t role sv sink b fuel s tx)
      go true = frame_if-Moves fuel s (sv.tx_ready tx)
      go false = done

  read_if-Moves :
      (closing head : Bool) (fuel : ℕ) (s : St out t role sv sink)
      → (head ≡ true → s.conn.state.reading ≡ Reading.init)
      → Moved s.conn (read_if out t role sv sink closing head fuel s)
  unfolding read_head_round
  read_if-Moves true head fuel s i = done
  read_if-Moves false true fuel s i = head_if-Moves fuel s (sv.poll_ready s.dispatch) (i refl)
  read_if-Moves false false fuel s i = tx_round-Moves fuel s s.body_tx

  init_of : (r : Reading) → reading_init out t r ≡ true → r ≡ Reading.init
  init_of Reading.init e = refl
  init_of (Reading.body x) e = absurd (cc)
  init_of (Reading.continue x) e = absurd (cc)
  init_of Reading.keep_alive e = absurd (cc)
  init_of Reading.closed e = absurd (cc)

  -- A head is read only where the connection waits for one.
  can_read_head-init :
      (c : Conn out t) → can_read_head out t c ≡ true → c.state.reading ≡ Reading.init
  can_read_head-init c e = let (a, b) = both out t role sv sink _ _ e in init_of c.state.reading a

  read_round-Moves :
      (fuel : ℕ) (s : St out t role sv sink) → Moved s.conn (read_round out t role sv sink fuel s)
  unfolding read_round
  read_round-Moves fuel s =
      read_if-Moves s.is_closing (can_read_head out t s.conn) fuel s (can_read_head-init s.conn)

  pub poll_read-Polls :
      (rounds fuel : ℕ) (s : St out t role sv sink)
      → Polls out t role sv sink s.conn (poll_read out t role sv sink rounds fuel s)
  unfolding poll_read
  poll_read-Polls zero fuel s = tt
  poll_read-Polls (suc rounds) fuel s =
      go (read_round out t role sv sink fuel s) (read_round-Moves fuel s)
        (λ s'. poll_read-Polls rounds fuel s')
    where
      go :
          (x : Round out t role sv sink)
          → Moved s.conn x
          → ((s' : St out t role sv sink)
              → Polls out t role sv sink s'.conn (poll_read out t role sv sink rounds fuel s'))
          → Polls out t role sv sink s.conn (elim x [
            | returns s' d ↦ some (some (s', d))
            | goes_on s' ↦ poll_read out t role sv sink rounds fuel s'
            | panics ↦ some none
            | starved ↦ none
          ])
      go (returns s' d) m ih = m
      go (goes_on s') m ih =
          before out t role sv sink (poll_read out t role sv sink rounds fuel s') m (ih s')
      go panics m ih = tt
      go starved m ih = tt
