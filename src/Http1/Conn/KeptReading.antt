-- ===== src/Http1/Conn/KeptReading.antt =====
-- What reading a body, and reading where nothing is expected, keep of the connection's state.
use hwire.Base.{
  Bool, true, false, ◌||◌, not, ◌≡◌, ◌⊎◌, inl, inr, refl, Option, none, some, [], ◌∷◌, ℕ, ◌==◌,
  Bytes, Bool-cases,
}
use hwire.Io.{Out, ready, failed, pending, panicked, IoError}
use hwire.Http1.Buffered.{Transport, Buffered, poll_read_from_io}
use hwire.Http1.Decode.{Decoder, data_frame, decode}
use hwire.Http1.Decode
use hwire.Http1.State.{Reading, Outside, State, is_read_closed}
use hwire.Http1.State.Laws.{
  IdleIsFresh, Keeps, Keeps-refl, Keeps-trans, close-Keeps, close_read-Keeps,
}
use hwire.Http1.Conn.{Conn, writing_init, is_mid_message, then_keep_alive, keep_alive_and_notify}
use hwire.Http1.Conn.Read.{
  set_reading, BodyFrame, read_done, data_read, with_decoder, decoded, returned, read_in,
  poll_read_body, sent, send_continue, skip_in, skip_continue, drained_in, close_unless_drained,
  after_drain, drained, poll_drain_or_close_read, forced, force_io_read, require_if, detect_unless,
  keep_alive_read, empty_read, require_empty_read, eof_read, mid_message_detect_eof,
  poll_read_keep_alive,
}
use hwire.Http1.Conn.Read
use hwire.Http1.Conn.Kept.{OptionKeeps, OutKeeps, keep_alive_and_notify-Keeps, reading-Keeps}

module _ (out : Outside) (t : Transport) where
  open out use {http}

  abbrev InBody : Conn out t → Type 0
  InBody c = (d : Decoder) × (c.state.reading ≡ Reading.body d)

  abbrev BodyResult : Type 0
  BodyResult = Out (Conn out t) (IoError ⊎ Option (BodyFrame out t))

  pub then_out :
      {A : Type 0} {a b : State out} (o : Out (Conn out t) A)
      → Keeps out a b
      → OutKeeps out t b o
      → OutKeeps out t a o
  then_out (ready c x) h k = Keeps-trans out h k
  then_out (failed c x) h k = Keeps-trans out h k
  then_out (pending c) h k = Keeps-trans out h k
  then_out panicked h k = tt

  pub then_keep_alive-Keeps :
      {A : Type 0} (c : Conn out t) (a : A)
      → IdleIsFresh out c.state
      → OutKeeps out t c.state (then_keep_alive out t c a)
  then_keep_alive-Keeps c a h =
      go (keep_alive_and_notify out t c) (keep_alive_and_notify-Keeps out t c h)
    where
      go :
          (o : Option (Conn out t))
          → OptionKeeps out t c.state o
          → OutKeeps out t c.state (elim o [ none ↦ panicked | some c' ↦ ready c' a ])
      go none k = tt
      go (some c') k = k

  mid-Keeps :
      (c : Conn out t) (r : Reading)
      → InBody c
      → IdleIsFresh out c.state
      → Keeps out c.state (set_reading out t c r).state
  mid-Keeps c r (d, e) h = reading-Keeps out t c.state r h (λ z. absurd (cc)) (λ z. absurd (cc))

  read_done-Keeps :
      (c : Conn out t) (r : Reading) (ret : IoError ⊎ Option (BodyFrame out t))
      → InBody c
      → IdleIsFresh out c.state
      → OutKeeps out t c.state (read_done out t c r ret)
  read_done-Keeps c r ret b h =
      let k = mid-Keeps c r b h in
      then_out (read_done out t c r ret) k
        (then_keep_alive-Keeps (set_reading out t c r) ret k.fresh)

  data_read-Keeps :
      (c : Conn out t) (at_eof : Bool) (slice : Bytes)
      → InBody c
      → IdleIsFresh out c.state
      → OutKeeps out t c.state (data_read out t c at_eof slice)
  data_read-Keeps c true slice b h = read_done-Keeps c Reading.keep_alive _ b h
  data_read-Keeps c false [] b h = read_done-Keeps c Reading.closed _ b h
  data_read-Keeps c false (x ∷ xs) b h = Keeps-refl out c.state h

  decoded-Keeps :
      (c : Conn out t) (o : Out (Decoder × Buffered t) (BodyFrame out t))
      → InBody c
      → IdleIsFresh out c.state
      → OutKeeps out t c.state (decoded out t c o)
  decoded-Keeps c (ready (d, io) (data_frame slice)) b h =
      let k = mid-Keeps c (Reading.body d) b h in
      then_out _ k
        (data_read-Keeps (with_decoder out t c (d, io)) (Decode.is_eof d) slice (d, refl) k.fresh)
  decoded-Keeps c (ready (d, io) (Decode.trailers m)) b h =
      let k = mid-Keeps c (Reading.body d) b h in
      then_out _ k
        (read_done-Keeps (with_decoder out t c (d, io)) Reading.keep_alive _ (d, refl) k.fresh)
  decoded-Keeps c (failed (d, io) e) b h =
      let k = mid-Keeps c (Reading.body d) b h in
      then_out _ k
        (read_done-Keeps (with_decoder out t c (d, io)) Reading.closed _ (d, refl) k.fresh)
  decoded-Keeps c (pending (d, io)) b h = mid-Keeps c (Reading.body d) b h
  decoded-Keeps c panicked b h = tt

  abbrev pub FuelKeeps : State out → Option BodyResult → Type 0
  FuelKeeps s none = Unit
  FuelKeeps s (some o) = OutKeeps out t s o

  returned-Keeps :
      (c : Conn out t) (o : Option (Out (Decoder × Buffered t) (BodyFrame out t)))
      → InBody c
      → IdleIsFresh out c.state
      → FuelKeeps c.state (returned out t c o)
  returned-Keeps c none b h = tt
  returned-Keeps c (some o) b h = decoded-Keeps c o b h

  then_fuel :
      {a b : State out} (o : Option BodyResult) → Keeps out a b → FuelKeeps b o → FuelKeeps a o
  then_fuel none h k = tt
  then_fuel (some o) h k = then_out o h k

  continue-Keeps :
      (c : Conn out t) (d : Decoder) (e : Decoder)
      → c.state.reading ≡ Reading.continue d
      → IdleIsFresh out c.state
      → Keeps out c.state (set_reading out t (send_continue out t c) (Reading.body e)).state
  continue-Keeps c d e r h = go (writing_init out t c.state.writing)
    where
      go :
          (b : Bool) → Keeps out c.state (set_reading out t (sent out t c b) (Reading.body e)).state
      go true = reading-Keeps out t c.state (Reading.body e) h (λ z. absurd (cc)) (λ z. absurd (cc))
      go false =
          reading-Keeps out t c.state (Reading.body e) h (λ z. absurd (cc)) (λ z. absurd (cc))

  read_in-Keeps :
      (fuel : ℕ) (r : Reading) (c : Conn out t)
      → c.state.reading ≡ r
      → IdleIsFresh out c.state
      → FuelKeeps c.state (read_in out t fuel r c)
  read_in-Keeps fuel Reading.init c e h = tt
  read_in-Keeps fuel Reading.keep_alive c e h = tt
  read_in-Keeps fuel Reading.closed c e h = tt
  read_in-Keeps fuel (Reading.body d) c e h = returned-Keeps c _ (d, e) h
  read_in-Keeps fuel (Reading.continue d) c e h =
      let k = continue-Keeps c d d e h in
      then_fuel _ k (
        returned-Keeps (set_reading out t (send_continue out t c) (Reading.body d)) _ (d, refl)
          k.fresh)

  pub poll_read_body-Keeps :
      (fuel : ℕ) (c : Conn out t)
      → IdleIsFresh out c.state
      → FuelKeeps c.state (poll_read_body out t fuel c)
  unfolding poll_read_body
  poll_read_body-Keeps fuel c h = read_in-Keeps fuel c.state.reading c refl h

  skip_in-Keeps :
      (r : Reading) (c : Conn out t)
      → c.state.reading ≡ r
      → IdleIsFresh out c.state
      → Keeps out c.state (skip_in out t r c).state
  skip_in-Keeps (Reading.continue d) c e h =
      reading-Keeps out t c.state _ h (λ z. absurd (cc)) (λ z. absurd (cc))
  skip_in-Keeps Reading.init c e h = Keeps-refl out c.state h
  skip_in-Keeps (Reading.body d) c e h = Keeps-refl out c.state h
  skip_in-Keeps Reading.keep_alive c e h = Keeps-refl out c.state h
  skip_in-Keeps Reading.closed c e h = Keeps-refl out c.state h

  drained_in-Keeps :
      (r : Reading) (c : Conn out t)
      → IdleIsFresh out c.state
      → Keeps out c.state (drained_in out t r c).state
  drained_in-Keeps (Reading.continue d) c h = close_read-Keeps out c.state
  drained_in-Keeps Reading.init c h = Keeps-refl out c.state h
  drained_in-Keeps (Reading.body d) c h = close_read-Keeps out c.state
  drained_in-Keeps Reading.keep_alive c h = Keeps-refl out c.state h
  drained_in-Keeps Reading.closed c h = close_read-Keeps out c.state

  abbrev pub DrainKeeps : State out → Option (Option (Conn out t)) → Type 0
  DrainKeeps s none = Unit
  DrainKeeps s (some o) = OptionKeeps out t s o

  after_drain-Keeps :
      (s : State out) (o : BodyResult)
      → OutKeeps out t s o
      → OptionKeeps out t s (after_drain out t o)
  after_drain-Keeps s (ready c r) k = Keeps-trans out k (drained_in-Keeps c.state.reading c k.fresh)
  after_drain-Keeps s (failed c e) k =
      Keeps-trans out k (drained_in-Keeps c.state.reading c k.fresh)
  after_drain-Keeps s (pending c) k = Keeps-trans out k (drained_in-Keeps c.state.reading c k.fresh)
  after_drain-Keeps s panicked k = tt

  drained-Keeps :
      (s : State out) (o : Option BodyResult) → FuelKeeps s o → DrainKeeps s (drained out t o)
  drained-Keeps s none k = tt
  drained-Keeps s (some o) k = after_drain-Keeps s o k

  pub poll_drain_or_close_read-Keeps :
      (fuel : ℕ) (c : Conn out t)
      → IdleIsFresh out c.state
      → DrainKeeps c.state (poll_drain_or_close_read out t fuel c)
  unfolding poll_drain_or_close_read
  poll_drain_or_close_read-Keeps fuel c h =
      let k = skip_in-Keeps c.state.reading c refl h in
      drained-Keeps c.state _
        (then_fuel _ k (poll_read_body-Keeps fuel (skip_continue out t c) k.fresh))

  forced-Keeps :
      (c : Conn out t) (o : Out (Buffered t) ℕ)
      → IdleIsFresh out c.state
      → OutKeeps out t c.state (forced out t c o)
  forced-Keeps c (ready io n) h = Keeps-refl out c.state h
  forced-Keeps c (failed io e) h = close-Keeps out c.state
  forced-Keeps c (pending io) h = Keeps-refl out c.state h
  forced-Keeps c panicked h = tt

  force_io_read-Keeps :
      (c : Conn out t) → IdleIsFresh out c.state → OutKeeps out t c.state (force_io_read out t c)
  unfolding force_io_read
  force_io_read-Keeps c h = forced-Keeps c (poll_read_from_io t c.io) h

  empty_read-Keeps :
      (s : State out) (o : Out (Conn out t) (IoError ⊎ ℕ))
      → OutKeeps out t s o
      → OutKeeps out t s (empty_read out t o)
  empty_read-Keeps s (ready c (inl e)) k = k
  empty_read-Keeps s (ready c (inr n)) k = elim (Bool-cases (n == 0)) [
    | inl e ↦ rw e (Keeps-trans out k (close_read-Keeps out c.state))
    | inr e ↦ rw e k
  ]
  empty_read-Keeps s (failed c e) k = k
  empty_read-Keeps s (pending c) k = k
  empty_read-Keeps s panicked k = k

  eof_read-Keeps :
      (s : State out) (o : Out (Conn out t) (IoError ⊎ ℕ))
      → OutKeeps out t s o
      → OutKeeps out t s (eof_read out t o)
  eof_read-Keeps s (ready c (inl e)) k = k
  eof_read-Keeps s (ready c (inr n)) k = elim (Bool-cases (n == 0)) [
    | inl e ↦ rw e (Keeps-trans out k (close_read-Keeps out c.state))
    | inr e ↦ rw e k
  ]
  eof_read-Keeps s (failed c e) k = k
  eof_read-Keeps s (pending c) k = k
  eof_read-Keeps s panicked k = k

  require_empty_read-Keeps :
      (c : Conn out t)
      → IdleIsFresh out c.state
      → OutKeeps out t c.state (require_empty_read out t c)
  unfolding require_empty_read
  require_empty_read-Keeps c h = go (Read.is_empty c.io.read_buf)
    where
      go : (b : Bool) → OutKeeps out t c.state (require_if out t b c)
      go true = empty_read-Keeps c.state _ (force_io_read-Keeps c h)
      go false = Keeps-refl out c.state h

  mid_message_detect_eof-Keeps :
      (c : Conn out t)
      → IdleIsFresh out c.state
      → OutKeeps out t c.state (mid_message_detect_eof out t c)
  unfolding mid_message_detect_eof
  mid_message_detect_eof-Keeps c h =
      go (c.state.allow_half_close || not (Read.is_empty c.io.read_buf))
    where
      go : (b : Bool) → OutKeeps out t c.state (detect_unless out t b c)
      go true = Keeps-refl out c.state h
      go false = eof_read-Keeps c.state _ (force_io_read-Keeps c h)

  pub poll_read_keep_alive-Keeps :
      (c : Conn out t)
      → IdleIsFresh out c.state
      → OutKeeps out t c.state (poll_read_keep_alive out t c)
  unfolding poll_read_keep_alive
  poll_read_keep_alive-Keeps c h = go (is_read_closed out c.state) (is_mid_message out t c)
    where
      go : (b m : Bool) → OutKeeps out t c.state (keep_alive_read out t b m c)
      go true m = Keeps-refl out c.state h
      go false true = mid_message_detect_eof-Keeps c h
      go false false = require_empty_read-Keeps c h
