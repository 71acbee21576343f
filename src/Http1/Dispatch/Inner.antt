-- ===== src/Http1/Dispatch/Inner.antt =====
-- `Dispatcher::poll_inner` and `poll_catch` of proto/http1/dispatch.rs, and what a poll of the
-- dispatcher does to its connection.
use hwire.Base.{sym, subst, ℕ, ◌≡◌, refl, Bool, true, false, Option, none, some, inl}
use hwire.Io.{Out, ready, failed, pending, panicked}
use hwire.Error.{Error, new_error, with_cause, from_io, shutdown, body}
use hwire.Http1.Buffered.{Transport}
use hwire.Http1.Buffered.Flush.{Sink}
use hwire.Http1.State.{Outside}
use hwire.Http1.State.Laws.{Keeps, IdleIsFresh}
use hwire.Http1.Transaction.{Transaction}
use hwire.Http1.Conn.{Conn, set_state, take_error}
use hwire.Http1.Conn.Steps.{Step, Steps, done, Steps-Keeps, Steps-trans}
use hwire.Http1.Dispatch.{Service, is_done}
use hwire.Http1.Dispatch.Write.{done_ready, done_pending, done_error, with_conn}
use hwire.Http1.Dispatch.Loop.{St, Polled, Goes, poll_loop, poll_loop-IsCall}

module _ (out : Outside) (t : Transport) (role : Transaction out) (sv : Service out role)
    (sink : Sink t) where
  -- `Poll<Result<Dispatched>>`
  pub data Ended : Type 0 where
    not_ended shut_down : Ended
    upgrading : out.Pending → Ended
    ended_error : Error → Ended

  abbrev pub S : Type 0
  S = St out t role sv sink

  abbrev pub Inner : Type 0
  Inner = Option (Option (S × Ended))

  -- `self.conn.take_error()?`
  abbrev pub no_error : S → Ended → Conn out t × Option Error → Inner
  no_error s x (c, none) = some (some (with_conn out t role sv sink s c, x))
  no_error s x (c, some e) = some (some (with_conn out t role sv sink s c, ended_error e))

  abbrev pub end_with : S → Ended → Inner
  end_with s x = no_error s x (take_error out t s.conn)

  abbrev pub with_io : S → t.Socket → S
  with_io s k = with_conn out t role sv sink s (record s.conn { io = record s.conn.io { io = k } })

  abbrev pub on_shutdown : S → Out t.Socket (Unit {0}) → Inner
  on_shutdown s (ready k u) = end_with (with_io s k) shut_down
  on_shutdown s (failed k e) =
      some (some (with_io s k, ended_error (with_cause (new_error shutdown) (from_io e))))
  on_shutdown s (pending k) = some (some (with_io s k, not_ended))
  on_shutdown s panicked = some none

  -- `AsyncWrite::poll_shutdown` of the socket
  module _ (poll_shutdown : t.Socket → Out t.Socket (Unit {0})) where
    abbrev pub upgrade_taken : S → S
    upgrade_taken s =
        with_conn out t role sv sink s
          (set_state out t s.conn (record s.conn.state { upgrade = none }))

    abbrev pub finish : Option out.Pending → Bool → S → Inner
    finish (some p) should_shutdown s = end_with (upgrade_taken s) (upgrading p)
    finish none true s = on_shutdown (upgrade_taken s) (poll_shutdown s.conn.io.io)
    finish none false s = end_with (upgrade_taken s) shut_down

    abbrev pub finish_if : Bool → Bool → S → Inner
    finish_if true should_shutdown s = finish s.conn.state.upgrade should_shutdown s
    finish_if false should_shutdown s = some (some (s, not_ended))

    abbrev pub looped : Bool → Polled out t role sv sink → Inner
    looped sh none = none
    looped sh (some none) = some none
    looped sh (some (some (s, done_error e))) = some (some (s, ended_error e))
    looped sh (some (some (s, done_pending))) = some (some (s, not_ended))
    looped sh (some (some (s, done_ready))) = finish_if (is_done out t role sv s) sh s

    -- `Dispatcher::poll_inner`
    unfoldable pub poll_inner : ℕ → ℕ → Bool → S → Inner
    unfolding poll_loop is_done take_error
    poll_inner rounds fuel sh s = looped sh (poll_loop out t role sv sink rounds fuel s)

    -- The sender of a body is told, and then the dispatch.
    abbrev pub tell_body : Option sv.Tx → S → S
    tell_body none s = s
    tell_body (some tx) s = record s {
      body_tx = none;
      dispatch = sv.send_error s.dispatch tx (new_error body);
    }

    abbrev pub told : S → Option Error × sv.D → Inner
    told s (none, d) = some (some (record s { dispatch = d }, shut_down))
    told s (some e, d) = some (some (record s { dispatch = d }, ended_error e))

    abbrev pub caught : S → Error → Inner
    caught s e = told s (sv.recv_msg s.dispatch (inl e))

    abbrev pub catch : Inner → Inner
    catch (some (some (s, ended_error e))) = caught (tell_body s.body_tx s) e
    catch x = x

    -- `Dispatcher::poll_catch`
    unfoldable pub poll_catch : ℕ → ℕ → Bool → S → Inner
    unfolding poll_inner
    poll_catch rounds fuel sh s = catch (poll_inner rounds fuel sh s)

    abbrev Comes : Conn out t → Inner → Type 0
    Comes c (some (some (s, x))) = Steps out t role c s.conn
    Comes c _ = Unit

    no_error-Comes :
        (c : Conn out t) (s : S) (x : Ended) (r : Conn out t × Option Error)
        → Steps out t role c s.conn
        → take_error out t s.conn ≡ r
        → Comes c (no_error s x r)
    no_error-Comes c s x (c', none) y e =
        Steps-trans out t role y (Steps.then (Step.error_taken e) done)
    no_error-Comes c s x (c', some z) y e =
        Steps-trans out t role y (Steps.then (Step.error_taken e) done)

    on_shutdown-Comes :
        (c : Conn out t) (s : S) (o : Out t.Socket (Unit {0}))
        → Steps out t role c s.conn
        → Comes c (on_shutdown s o)
    on_shutdown-Comes c s (ready k u) y =
        no_error-Comes c (with_io s k) shut_down _
          (Steps-trans out t role y (Steps.then (Step.io_left _) done)) refl
    on_shutdown-Comes c s (failed k e) y =
        Steps-trans out t role y (Steps.then (Step.io_left _) done)
    on_shutdown-Comes c s (pending k) y =
        Steps-trans out t role y (Steps.then (Step.io_left _) done)
    on_shutdown-Comes c s panicked y = tt

    finish-Comes :
        (c : Conn out t) (p : Option out.Pending) (sh : Bool) (s : S)
        → Steps out t role c s.conn
        → Comes c (finish p sh s)
    finish-Comes c (some p) sh s y =
        no_error-Comes c (upgrade_taken s) (upgrading p) _
          (Steps-trans out t role y (Steps.then Step.upgrade_taken done)) refl
    finish-Comes c none true s y =
        on_shutdown-Comes c (upgrade_taken s) (poll_shutdown s.conn.io.io)
          (Steps-trans out t role y (Steps.then Step.upgrade_taken done))
    finish-Comes c none false s y =
        no_error-Comes c (upgrade_taken s) shut_down _
          (Steps-trans out t role y (Steps.then Step.upgrade_taken done)) refl

    looped-Comes :
        (c : Conn out t) (sh : Bool) (x : Polled out t role sv sink)
        → Goes out t role sv sink c x
        → Comes c (looped sh x)
    looped-Comes c sh none g = tt
    looped-Comes c sh (some none) g = tt
    looped-Comes c sh (some (some (s, done_error e))) g = g
    looped-Comes c sh (some (some (s, done_pending))) g = g
    looped-Comes c sh (some (some (s, done_ready))) g = go (is_done out t role sv s)
      where
        go : (b : Bool) → Comes c (finish_if b sh s)
        go true = finish-Comes c s.conn.state.upgrade sh s g
        go false = g

    told-Comes :
        (c : Conn out t) (s : S) (x : Option Error × sv.D)
        → Steps out t role c s.conn
        → Comes c (told s x)
    told-Comes c s (none, d) y = y
    told-Comes c s (some e, d) y = y

    tell_body-conn : (tx : Option sv.Tx) (s : S) → (tell_body tx s).conn ≡ s.conn
    tell_body-conn none s = refl
    tell_body-conn (some tx) s = refl

    catch-Comes : (c : Conn out t) (x : Inner) → Comes c x → Comes c (catch x)
    catch-Comes c none g = tt
    catch-Comes c (some none) g = tt
    catch-Comes c (some (some (s, not_ended))) g = g
    catch-Comes c (some (some (s, shut_down))) g = g
    catch-Comes c (some (some (s, upgrading p))) g = g
    catch-Comes c (some (some (s, ended_error e))) g =
        told-Comes c (tell_body s.body_tx s) _
          (subst (λ x. Steps out t role c x) (sym (tell_body-conn s.body_tx s)) g)

    abbrev pub PollKeeps : S → Inner → Type 0
    PollKeeps s (some (some (s', x))) =
        Steps out t role s.conn s'.conn × Keeps out s.conn.state s'.conn.state
    PollKeeps s _ = Unit

    kept : (s : S) (x : Inner) → IdleIsFresh out s.conn.state → Comes s.conn x → PollKeeps s x
    kept s none h g = tt
    kept s (some none) h g = tt
    kept s (some (some (s', x))) h g = (g, Steps-Keeps out t role g h)

    -- Whatever the dispatch, the bodies and the socket answer: where a poll of the dispatcher neither
    -- panics nor runs out of fuel, steps of a connection lead to the connection that it leaves, so a
    -- head is read or written only where the connection waits for one. Where an idle connection was
    -- fresh, an idle one is fresh after the poll, and keep-alive that was disabled and sides that
    -- were closed stay so.
    pub poll_catch-PollKeeps :
        (rounds fuel : ℕ) (sh : Bool) (s : S)
        → IdleIsFresh out s.conn.state
        → PollKeeps s (poll_catch rounds fuel sh s)
    unfolding poll_catch poll_inner
    poll_catch-PollKeeps rounds fuel sh s h = kept s _ h (
        catch-Comes s.conn _
          (looped-Comes s.conn sh _ (poll_loop-IsCall out t role sv sink rounds fuel s)))
