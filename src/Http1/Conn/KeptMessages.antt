-- ===== src/Http1/Conn/KeptMessages.antt =====
-- What reading a head keeps of the connection's state.
use hwire.Base.{Bool, true, false, ◌&&◌, ◌≡◌, ◌⊎◌, inl, inr, refl, ◌∙◌, Option, none, some, ℕ}
use hwire.Io.{Out, ready, failed, pending, panicked}
use hwire.Error.{Error}
use hwire.Body.Length.{same}
use hwire.Body.Length
use hwire.Http1.Buffered.{Transport}
use hwire.Http1.State.{Reading, Outside, State, make_busy}
use hwire.Http1.State.Laws.{
  IdleIsFresh, Keeps, close_read-Keeps, close_write-Keeps, busy_again-NotIdle, busy_again-disabled,
  and_enabled-NotIdle, and_enabled-disabled,
}
use hwire.Http1.Transaction.{Transaction}
use hwire.Http1.Conn.{Conn, set_state, keep_alive_and_notify}
use hwire.Http1.Conn.Read.{set_reading}
use hwire.Http1.Conn.Head.{
  Message, Parsing, HeadResult, received_head, begin_body, allowed, on_message, closed_read, report,
  report_if, on_read_head_error, with_context, on_parsed, read_head_from, poll_read_head,
  parse_message, context, is_after_10,
}
use hwire.Http1.Conn.Kept.{OptionKeeps, OutKeeps, then_option, keep_alive_and_notify-Keeps}
use hwire.Http1.Conn.KeptReading.{then_out}
use hwire.Http1.Conn.KeptHeads.{Busy, on_parse_error-Keeps}

module _ (out : Outside) (t : Transport) (role : Transaction out) where
  open out use {http, OnInformational}

  report-Keeps :
      (s : State out) (p : Out (Conn out t) (Option Error))
      → OutKeeps out t s p
      → OutKeeps out t s (report out t role p)
  report-Keeps s (ready c none) k = k
  report-Keeps s (ready c (some e)) k = k
  report-Keeps s (failed c e) k = k
  report-Keeps s (pending c) k = k
  report-Keeps s panicked k = k

  report_if-Keeps :
      (b : Bool) (c : Conn out t) (e : Error)
      → IdleIsFresh out c.state
      → OutKeeps out t c.state (report_if out t role b c e)
  report_if-Keeps true c e h = report-Keeps c.state _ (on_parse_error-Keeps out t role c e h)
  report_if-Keeps false c e h = close_write-Keeps out c.state

  on_read_head_error-Keeps :
      (c : Conn out t) (e : Error) → OutKeeps out t c.state (on_read_head_error out t role c e)
  unfolding on_read_head_error
  on_read_head_error-Keeps c e =
      let k = close_read-Keeps out c.state in
      then_out out t _ k (report_if-Keeps _ (closed_read out t role c) e k.fresh)

  received-Busy :
      (s : State out) (m : Message out t role) → Busy out t role s (received_head out t role s m)
  unfolding make_busy
  received-Busy s m = record {
    not_idle = and_enabled-NotIdle out _ m.keep_alive (busy_again-NotIdle out s.keep_alive);
    disabled_stays =
        λ e. and_enabled-disabled out _ m.keep_alive (busy_again-disabled out s.keep_alive e);
    reading = refl;
    writing = refl;
  }

  -- A reading side at its start may go to any state while keep-alive is not idle.
  began-Keeps :
      (s s' : State out) (r : Reading)
      → Busy out t role s s'
      → s.reading ≡ Reading.init
      → Keeps out s (record s' { reading = r })
  began-Keeps s s' r b i = record {
    fresh = λ e. absurd (b.not_idle e);
    disabled_stays = b.disabled_stays;
    read_stays = λ e. absurd (cc);
    write_stays = λ e. b.writing ∙ e;
  }

  allowed-Keeps :
      (s : State out) (m : Message out t role) (o : Option (Conn out t))
      → OptionKeeps out t s o
      → OutKeeps out t s (allowed out t role m o)
  allowed-Keeps s m none k = tt
  allowed-Keeps s m (some c) k = record {
    fresh = k.fresh;
    disabled_stays = k.disabled_stays;
    read_stays = k.read_stays;
    write_stays = k.write_stays;
  }

  flagged :
      (s s' : State out) (b : Bool)
      → Keeps out s s'
      → Keeps out s (record s' { allow_trailer_fields = b })
  flagged s s' b k = record {
    fresh = k.fresh;
    disabled_stays = k.disabled_stays;
    read_stays = k.read_stays;
    write_stays = k.write_stays;
  }

  begin_body-Keeps :
      (zero_ waits : Bool) (s : State out) (c : Conn out t) (m : Message out t role)
      → Busy out t role s c.state
      → s.reading ≡ Reading.init
      → OutKeeps out t s (begin_body out t role zero_ waits c m)
  begin_body-Keeps true waits s c m b i =
      let k = began-Keeps s c.state Reading.keep_alive b i in
      let next = set_reading out t c Reading.keep_alive in
      allowed-Keeps s m (keep_alive_and_notify out t next)
        (then_option out t _ k (keep_alive_and_notify-Keeps out t next k.fresh))
  begin_body-Keeps false true s c m b i = flagged s _ _ (began-Keeps s c.state _ b i)
  begin_body-Keeps false false s c m b i = flagged s _ _ (began-Keeps s c.state _ b i)

  context-Keeps :
      (c : Conn out t) (p : Parsing out t role)
      → IdleIsFresh out c.state
      → Keeps out c.state (with_context out t role c p).state
  context-Keeps c p h = record {
    fresh = h;
    disabled_stays = λ e. e;
    read_stays = λ e. e;
    write_stays = λ e. e;
  }

  message-Keeps :
      (c : Conn out t) (p : Parsing out t role) (m : Message out t role)
      → c.state.reading ≡ Reading.init
      → OutKeeps out t c.state (on_message out t role (with_context out t role c p) m)
  unfolding on_message
  message-Keeps c p m i =
      let c' = with_context out t role c p in
      let b = received-Busy c'.state m in
      begin_body-Keeps (same m.decode Length.zero) (m.expect_continue && is_after_10 m.head.version)
        c.state (set_state out t c' (received_head out t role c'.state m)) m
        (record {
          not_idle = b.not_idle;
          disabled_stays = b.disabled_stays;
          reading = b.reading;
          writing = b.writing;
        })
        i

  on_parsed-Keeps :
      (c : Conn out t) (o : Out (Parsing out t role) (Error ⊎ Message out t role))
      → IdleIsFresh out c.state
      → c.state.reading ≡ Reading.init
      → OutKeeps out t c.state (on_parsed out t role c o)
  on_parsed-Keeps c (ready p (inl e)) h i =
      then_out out t _ (context-Keeps c p h)
        (on_read_head_error-Keeps (with_context out t role c p) e)
  on_parsed-Keeps c (ready p (inr m)) h i = message-Keeps c p m i
  on_parsed-Keeps c (failed p e) h i = context-Keeps c p h
  on_parsed-Keeps c (pending p) h i = context-Keeps c p h
  on_parsed-Keeps c panicked h i = tt

  abbrev pub HeadKeeps : State out → Option (Out (Conn out t) (HeadResult out t role)) → Type 0
  HeadKeeps s none = Unit
  HeadKeeps s (some o) = OutKeeps out t s o

  read_head_from-Keeps :
      (c : Conn out t) (o : Option (Out (Parsing out t role) (Error ⊎ Message out t role)))
      → IdleIsFresh out c.state
      → c.state.reading ≡ Reading.init
      → HeadKeeps c.state (read_head_from out t role c o)
  read_head_from-Keeps c none h i = tt
  read_head_from-Keeps c (some o) h i = on_parsed-Keeps c o h i

  pub poll_read_head-Keeps :
      (fuel : ℕ) (c : Conn out t)
      → IdleIsFresh out c.state
      → c.state.reading ≡ Reading.init
      → HeadKeeps c.state (poll_read_head out t role fuel c)
  unfolding poll_read_head
  poll_read_head-Keeps fuel c h i =
      read_head_from-Keeps c (parse_message out t role fuel (c.io, context out t role c.state)) h i
