-- ===== src/Http1/Conn/Steps.antt =====
-- The operations of a connection as steps between its states, each with what is needed of what its
-- method asserts of the state, and what holds over any sequence of them.
use hwire.Base.{Bool, ◌≡◌, subst, Option, none, some, ℕ, Bytes}
use hwire.Io.{Out, ready, failed, pending, panicked}
use hwire.Error.{Error}
use hwire.Http1.Buffered.{Transport, Buffered}
use hwire.Http1.State.{prepare_upgrade, Reading, Outside, Writing, State, close_read, close_write}
use hwire.Http1.State.Laws.{
  IdleIsFresh, Keeps, Keeps-refl, Keeps-trans, close_read-Keeps, close_write-Keeps,
}
use hwire.Http1.Transaction.{BodyLength, Transaction}
use hwire.Http1.Conn.{Conn, set_state, keep_alive_and_notify, wants_read_again, take_error}
use hwire.Http1.Conn.Write.{
  Head, write_head, write_body, write_trailers, write_body_and_end, finish_body,
}
use hwire.Http1.Conn.Read.{poll_read_body, poll_drain_or_close_read, poll_read_keep_alive}
use hwire.Http1.Conn.Head.{poll_read_head}
use hwire.Http1.Conn.Kept.{
  OptionKeeps, OutKeeps, keep_alive_and_notify-Keeps, write_body-Keeps, write_trailers-Keeps,
  write_body_and_end-Keeps, finish_body-Keeps, left_by,
}
use hwire.Http1.Conn.KeptReading.{
  poll_read_body-Keeps, poll_drain_or_close_read-Keeps, poll_read_keep_alive-Keeps, FuelKeeps,
  DrainKeeps,
}
use hwire.Http1.Conn.KeptHeads.{write_head-Keeps}
use hwire.Http1.Conn.KeptMessages.{poll_read_head-Keeps, HeadKeeps}

module _ (out : Outside) (t : Transport) (role : Transaction out) where
  open out use {http}

  -- The connection that a polled call leaves, unless it panics
  abbrev pub left : {A : Type 0} → Out (Conn out t) A → Option (Conn out t)
  left (ready c a) = some c
  left (failed c e) = some c
  left (pending c) = some c
  left panicked = none

  -- `poll_flush` once the transport is flushed
  unfoldable pub flushed : Conn out t → Buffered t → Option (Conn out t)
  flushed c io = keep_alive_and_notify out t (record c { io = io })

  pub data Step : Conn out t → Conn out t → Type 0 where
    read_head :
        {c c' : Conn out t} {o : _} (fuel : ℕ)
        → c.state.reading ≡ Reading.init
        → poll_read_head out t role fuel c ≡ some o
        → left o ≡ some c'
        → Step c c'
    read_body :
        {c c' : Conn out t} {o : _} (fuel : ℕ)
        → poll_read_body out t fuel c ≡ some o
        → left o ≡ some c'
        → Step c c'
    read_keep_alive :
        {c c' : Conn out t} → left (poll_read_keep_alive out t c) ≡ some c' → Step c c'
    drain :
        {c c' : Conn out t} (fuel : ℕ)
        → poll_drain_or_close_read out t fuel c ≡ some (some c')
        → Step c c'
    head :
        {c c' : Conn out t} (h : Head out t role) (body : Option BodyLength)
        → c.state.writing ≡ Writing.init
        → write_head out t role c h body ≡ some c'
        → Step c c'
    piece :
        {c c' : Conn out t} (room : Bool) (chunk : Bytes)
        → write_body out t c room chunk ≡ some c'
        → Step c c'
    trailing :
        {c c' : Conn out t} (room : Bool) (m : http.HeaderMap)
        → write_trailers out t c room m ≡ some c'
        → Step c c'
    last_piece :
        {c c' : Conn out t} (room : Bool) (chunk : Bytes)
        → write_body_and_end out t c room chunk ≡ some c'
        → Step c c'
    finish :
        {c c' : Conn out t} {e : Option Error} (room : Bool)
        → finish_body out t c room ≡ (c', e)
        → Step c c'
    flush : {c c' : Conn out t} (io : Buffered t) → flushed c io ≡ some c' → Step c c'
    io_left : {c : Conn out t} (io : Buffered t) → Step c (record c { io = io })
    upgraded :
        {c : Conn out t} (p : out.Pending)
        → Step c (set_state out t c (prepare_upgrade out c.state p))
    upgrade_taken :
        {c : Conn out t} → Step c (set_state out t c (record c.state { upgrade = none }))
    close_reading : {c : Conn out t} → Step c (set_state out t c (close_read out c.state))
    close_writing : {c : Conn out t} → Step c (set_state out t c (close_write out c.state))
    read_again : {c c' : Conn out t} {b : Bool} → wants_read_again out t c ≡ (c', b) → Step c c'
    error_taken : {c c' : Conn out t} {e : Option Error} → take_error out t c ≡ (c', e) → Step c c'

  pub data Steps : Conn out t → Conn out t → Type 0 where
    done : {c : Conn out t} → Steps c c
    then : {a b c : Conn out t} → Step a b → Steps b c → Steps a c

  pub Steps-trans : {a b c : Conn out t} → Steps a b → Steps b c → Steps a c
  Steps-trans done y = y
  Steps-trans (then s x) y = then s (Steps-trans x y)

  left-Keeps :
      {A : Type 0} (s : State out) (o : Out (Conn out t) A) (c' : Conn out t)
      → left o ≡ some c'
      → OutKeeps out t s o
      → Keeps out s c'.state
  left-Keeps s (ready c a) c' e k = let q : c ≡ c' = cc in subst (λ x. Keeps out s x.state) q k
  left-Keeps s (failed c a) c' e k = let q : c ≡ c' = cc in subst (λ x. Keeps out s x.state) q k
  left-Keeps s (pending c) c' e k = let q : c ≡ c' = cc in subst (λ x. Keeps out s x.state) q k
  left-Keeps s panicked c' e k = absurd (cc)

  -- A step from a connection that is fresh where it is idle.
  Step-Keeps :
      {c c' : Conn out t} → Step c c' → IdleIsFresh out c.state → Keeps out c.state c'.state
  unfolding flushed wants_read_again take_error
  Step-Keeps {c} {c'} (read_head {o = o} fuel i e l) h =
      left-Keeps c.state o c' l
        (subst (HeadKeeps out t role c.state) e (poll_read_head-Keeps out t role fuel c h i))
  Step-Keeps {c} {c'} (read_body {o = o} fuel e l) h =
      left-Keeps c.state o c' l
        (subst (FuelKeeps out t c.state) e (poll_read_body-Keeps out t fuel c h))
  Step-Keeps {c} {c'} (read_keep_alive l) h =
      left-Keeps c.state _ c' l (poll_read_keep_alive-Keeps out t c h)
  Step-Keeps {c} {c'} (drain fuel e) h =
      subst (DrainKeeps out t c.state) e (poll_drain_or_close_read-Keeps out t fuel c h)
  Step-Keeps {c} (head m body w e) h =
      subst (OptionKeeps out t c.state) e (write_head-Keeps out t role c m body w)
  Step-Keeps {c} (piece room chunk e) h =
      subst (OptionKeeps out t c.state) e (write_body-Keeps out t c room chunk h)
  Step-Keeps {c} (trailing room m e) h =
      subst (OptionKeeps out t c.state) e (write_trailers-Keeps out t c room m h)
  Step-Keeps {c} (last_piece room chunk e) h =
      subst (OptionKeeps out t c.state) e (write_body_and_end-Keeps out t c room chunk h)
  Step-Keeps {c} (finish room e) h =
      subst (λ p. Keeps out c.state (left_by out t p)) e (finish_body-Keeps out t c room h)
  Step-Keeps {c} (flush io e) h =
      subst (OptionKeeps out t c.state) e
        (keep_alive_and_notify-Keeps out t (record c { io = io }) h)
  Step-Keeps {c} (io_left io) h = Keeps-refl out c.state h
  Step-Keeps {c} (upgraded p) h = record {
    fresh = h;
    disabled_stays = λ q. q;
    read_stays = λ q. q;
    write_stays = λ q. q;
  }
  Step-Keeps {c} upgrade_taken h = record {
    fresh = h;
    disabled_stays = λ q. q;
    read_stays = λ q. q;
    write_stays = λ q. q;
  }
  Step-Keeps {c} close_reading h = close_read-Keeps out c.state
  Step-Keeps {c} close_writing h = close_write-Keeps out c.state
  Step-Keeps {c} (read_again e) h =
      subst (λ p. Keeps out c.state (first p).state) e
        (record { fresh = h; disabled_stays = λ q. q; read_stays = λ q. q; write_stays = λ q. q })
    where
      first : Conn out t × Bool → Conn out t
      first (x, y) = x
  Step-Keeps {c} (error_taken e) h =
      subst (λ p. Keeps out c.state (left_by out t p)) e
        (record { fresh = h; disabled_stays = λ q. q; read_stays = λ q. q; write_stays = λ q. q })

  -- Over any steps, a connection that is idle is at the start of an exchange on both sides,
  -- keep-alive that was disabled stays disabled, and a side that was closed stays closed.
  pub Steps-Keeps :
      {c c' : Conn out t} → Steps c c' → IdleIsFresh out c.state → Keeps out c.state c'.state
  Steps-Keeps {c} done h = Keeps-refl out c.state h
  Steps-Keeps (then s ss) h = let k = Step-Keeps s h in Keeps-trans out k (Steps-Keeps ss k.fresh)
