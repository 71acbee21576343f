-- ===== src/Http2/Ping/Ponger.antt =====
-- `Ponger` of proto/http2/ping.rs: its poll, and the channel that makes it. `none` is a panic.
use hwire.Base.{ℕ, ◌+◌, ◌-◌, Bool, true, false, Option, none, some, leb, if◌then◌else◌}
use hwire.Http2.Ping.{
  Outer, Pong, acked, refused, awaited, Config, Shared, Locked, is_ping_sent, update_last_read_at,
}
use hwire.Http2.Ping.Bdp.{Floats, Bdp, calculate}
use hwire.Http2.Ping.KeepAlive.{KeepAlive, init, maybe_schedule, maybe_ping, maybe_timeout}

pub data Ponged : Type 0 where
  size_update : ℕ → Ponged
  keep_alive_timed_out : Ponged

module _ (o : Outer) (f : Floats) where
  open o use {World}

  -- The ponger with what it shares
  pub record Ponger : Type 0 where
    pub bdp : Option (Bdp f)
    pub keep_alive : Option KeepAlive
    pub locked : Locked o

  abbrev pub shared : Ponger → Shared
  shared p = p.locked.0

  -- `Ponger::is_idle`, from the number of references to what is shared
  abbrev pub is_idle : ℕ → Bool
  is_idle strong_count = leb strong_count 2

  abbrev pub with_ka : Ponger → Option (KeepAlive × Locked o) → Option Ponger
  with_ka p none = none
  with_ka p (some (ka, l)) = some (record p { keep_alive = some ka; locked = l })

  abbrev pub then_ping : Bool → Shared → Option (KeepAlive × World) → Option (KeepAlive × Locked o)
  then_ping idle s none = none
  then_ping idle s (some (ka, w)) = maybe_ping o ka idle (s, w)

  -- `maybe_schedule` and then `maybe_ping`
  abbrev pub keep_with : Option KeepAlive → Bool → Ponger → Option Ponger
  keep_with none idle p = some p
  keep_with (some ka) idle p =
      with_ka p (then_ping idle (shared p) (maybe_schedule o ka idle p.locked))

  unfoldable pub keep : Bool → Ponger → Option Ponger
  unfolding maybe_schedule maybe_ping
  keep idle p = keep_with p.keep_alive idle p

  abbrev pub Polled : Type 0
  Polled = Ponger × Option Ponged

  -- What `calculate` gave, and the time of the next sample
  abbrev pub measured : ℕ → Ponger → Bdp f × Option ℕ → Polled
  measured now p (b, update) =
      let l = p.locked in
      (
        record p {
          bdp = some b;
          locked = (record l.0 { bytes = some 0; next_bdp_at = some (now + b.ping_delay) }, l.1);
        },
        elim update [ none ↦ none | some size ↦ some (size_update size) ],
      )

  abbrev pub measure_bytes : ℕ → ℕ → Bdp f → Option ℕ → Ponger → Option Polled
  measure_bytes now rtt b none p = none
  measure_bytes now rtt b (some bytes) p = some (measured now p (calculate f bytes rtt b))

  abbrev pub measure_with : ℕ → ℕ → Option (Bdp f) → Ponger → Option Polled
  measure_with now rtt none p = some (p, none)
  measure_with now rtt (some b) p = measure_bytes now rtt b (shared p).bytes p

  unfoldable pub measure : ℕ → ℕ → Option Ponger → Option Polled
  unfolding calculate
  measure now rtt none = none
  measure now rtt (some p) = measure_with now rtt p.bdp p

  abbrev pub heard_with : Option KeepAlive → Bool → Ponger → Option Ponger
  heard_with none idle p = some p
  heard_with (some ka) idle p = keep idle (record p { locked = update_last_read_at o p.locked })

  -- The keep-alive is told of a frame.
  unfoldable pub heard : Bool → Ponger → Option Ponger
  unfolding keep update_last_read_at
  heard idle p = heard_with p.keep_alive idle p

  -- A pong: `start` is `ping_sent_at`.
  abbrev pub ponged_at : ℕ → Bool → Option ℕ → Ponger → Option Polled
  ponged_at now idle none p = none
  ponged_at now idle (some start) p =
      let l = p.locked in
      measure now (now - start)
        (heard idle (record p { locked = (record l.0 { ping_sent_at = none }, l.1) }))

  abbrev pub timed_out : Ponger → Bool × World → Polled
  timed_out p (false, w) = (record p { locked = (shared p, w) }, none)
  timed_out p (true, w) = (
    record p {
      keep_alive = none;
      locked = (record (shared p) { is_keep_alive_timed_out = true }, w);
    },
    some keep_alive_timed_out,
  )

  abbrev pub wait_with : Option KeepAlive → Ponger → Polled
  wait_with none p = (p, none)
  wait_with (some ka) p = timed_out p (maybe_timeout o ka p.locked.1)

  abbrev pub on_pong : ℕ → Bool → Ponger → Pong × World → Option Polled
  on_pong now idle p (acked, w) =
      ponged_at now idle (shared p).ping_sent_at (record p { locked = (shared p, w) })
  on_pong now idle p (refused, w) = some (record p { locked = (shared p, w) }, none)
  on_pong now idle p (awaited, w) =
      some (wait_with p.keep_alive (record p { locked = (shared p, w) }))

  unfoldable pub poll_pong : ℕ → Bool → Ponger → Option Polled
  unfolding measure heard maybe_timeout
  poll_pong now idle p =
      if is_ping_sent (shared p)
      then on_pong now idle p (o.poll_pong p.locked.1)
      else some (p, none)

  abbrev pub then_pong : ℕ → Bool → Option Ponger → Option Polled
  then_pong now idle none = none
  then_pong now idle (some p) = poll_pong now idle p

  -- `Ponger::poll`
  abbrev pub poll_at : Bool → Ponger → ℕ × World → Option Polled
  poll_at idle p (now, w) = then_pong now idle (keep idle (record p { locked = (shared p, w) }))

  unfoldable pub poll : ℕ → Ponger → Option Polled
  unfolding keep poll_pong
  poll strong_count p = poll_at (is_idle strong_count) p (o.timer_now p.locked.1)

  abbrev pub bdp_of : Option ℕ → Option (Bdp f)
  bdp_of none = none
  bdp_of (some wnd) = some (record {
    bdp = wnd;
    max_bandwidth = f.from_nat 0;
    rtt = f.from_nat 0;
    ping_delay = 100000000;
    stable_count = 0;
  })

  abbrev pub keep_alive_of : Config → Option ℕ → Option KeepAlive
  keep_alive_of c none = none
  keep_alive_of c (some interval) = some (record {
    interval = interval;
    timeout = c.keep_alive_timeout;
    while_idle = c.keep_alive_while_idle;
    state = init;
  })

  abbrev pub slept : Option ℕ → World → World
  slept none w = w
  slept (some interval) w = o.sleep w interval

  abbrev pub if_set : {A : Type 0} → Option ℕ → A → Option A
  if_set none a = none
  if_set (some x) a = some a

  abbrev pub opened_at : Config → ℕ × World → Ponger
  opened_at c (now, w) = record {
    bdp = bdp_of c.bdp_initial_window;
    keep_alive = keep_alive_of c c.keep_alive_interval;
    locked = (
      record {
        ping_sent_at = none;
        bytes = if_set c.bdp_initial_window 0;
        next_bdp_at = if_set c.bdp_initial_window now;
        last_read_at = if_set c.keep_alive_interval now;
        is_keep_alive_timed_out = false;
      },
      slept c.keep_alive_interval w,
    );
  }

  -- `channel`
  unfoldable pub channel : Config → World → Ponger
  channel c w = opened_at c (o.timer_now w)
