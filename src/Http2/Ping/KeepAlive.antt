-- ===== src/Http2/Ping/KeepAlive.antt =====
-- `KeepAlive` of proto/http2/ping.rs. `none` is the panic of an `expect`.
use hwire.Base.{ℕ, ◌+◌, Bool, true, false, not, ◌&&◌, Option, none, some, ltb, if◌then◌else◌}
use hwire.Http2.Ping.{Outer, Shared, Locked, is_ping_sent, send_ping}

pub data KeepAliveState : Type 0 where
  init : KeepAliveState
  scheduled : ℕ → KeepAliveState
  ping_sent : KeepAliveState

pub record KeepAlive : Type 0 where
  pub interval : ℕ
  pub timeout : ℕ
  pub while_idle : Bool
  pub state : KeepAliveState

module _ (o : Outer) where
  open o use {World}

  -- `KeepAlive::schedule`
  abbrev pub schedule_at : KeepAlive → ℕ → World → KeepAlive × World
  schedule_at ka interval w = (record ka { state = scheduled interval }, o.reset w interval)

  abbrev pub schedule_after : KeepAlive → Option ℕ → World → Option (KeepAlive × World)
  schedule_after ka none w = none
  schedule_after ka (some last) w = some (schedule_at ka (last + ka.interval) w)

  unfoldable pub schedule : KeepAlive → Locked o → Option (KeepAlive × World)
  schedule ka (s, w) = schedule_after ka s.last_read_at w

  abbrev pub quiet : KeepAlive → Bool → Bool
  quiet ka is_idle = not ka.while_idle && is_idle

  -- `KeepAlive::maybe_schedule`
  abbrev pub schedule_in : KeepAliveState → KeepAlive → Bool → Locked o → Option (KeepAlive × World)
  schedule_in init ka is_idle l = if quiet ka is_idle then some (ka, l.1) else schedule ka l
  schedule_in ping_sent ka is_idle l = if is_ping_sent l.0 then some (ka, l.1) else schedule ka l
  schedule_in (scheduled at) ka is_idle l = some (ka, l.1)

  unfoldable pub maybe_schedule : KeepAlive → Bool → Locked o → Option (KeepAlive × World)
  unfolding schedule
  maybe_schedule ka is_idle l = schedule_in ka.state ka is_idle l

  -- `KeepAlive::maybe_ping`
  abbrev pub ping_now : KeepAlive → Locked o → KeepAlive × Locked o
  ping_now ka (s, w) =
      let (now, w') = o.timer_now w in
      (record ka { state = ping_sent }, (s, o.reset w' (now + ka.timeout)))

  abbrev pub ping_after : ℕ → KeepAlive → Bool → Option ℕ → Locked o → Option (KeepAlive × Locked o)
  ping_after at ka is_idle none l = none
  ping_after at ka is_idle (some last) (s, w) =
      if ltb at (last + ka.interval)
      then some (record ka { state = init }, (s, o.wake w))
      else if quiet ka is_idle
      then some (ka, (s, w))
      else some (ping_now ka (send_ping o (s, w)))

  abbrev pub woken : ℕ → KeepAlive → Bool → Shared → Bool × World → Option (KeepAlive × Locked o)
  woken at ka is_idle s (false, w) = some (ka, (s, w))
  woken at ka is_idle s (true, w) = ping_after at ka is_idle s.last_read_at (s, w)

  abbrev pub ping_in : KeepAliveState → KeepAlive → Bool → Locked o → Option (KeepAlive × Locked o)
  ping_in (scheduled at) ka is_idle (s, w) = woken at ka is_idle s (o.poll_sleep w)
  ping_in init ka is_idle l = some (ka, l)
  ping_in ping_sent ka is_idle l = some (ka, l)

  unfoldable pub maybe_ping : KeepAlive → Bool → Locked o → Option (KeepAlive × Locked o)
  unfolding send_ping
  maybe_ping ka is_idle l = ping_in ka.state ka is_idle l

  -- `KeepAlive::maybe_timeout`: whether the time is over
  abbrev pub timeout_in : KeepAliveState → World → Bool × World
  timeout_in ping_sent w = o.poll_sleep w
  timeout_in init w = (false, w)
  timeout_in (scheduled at) w = (false, w)

  unfoldable pub maybe_timeout : KeepAlive → World → Bool × World
  maybe_timeout ka w = timeout_in ka.state w
