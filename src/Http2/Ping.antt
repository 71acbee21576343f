-- ===== src/Http2/Ping.antt =====
-- proto/http2/ping.rs: what the recorder and the ponger share, and the recorder. A time is a number
-- of nanoseconds, and the clocks, the pings of the crate http2 and the sleep are a world that answers.
pub mod Bdp
pub mod KeepAlive
pub mod Ponger
pub mod Kept
pub mod Growth
pub mod Run
use hwire.Base.{
  ℕ, Bool, true, false, not, ◌&&◌, ◌||◌, Option, none, some, ltb, leb, if◌then◌else◌, add_u64,
}
use hwire.Error.{Error, new_error, http2}

-- `PingPong::poll_pong`
pub data Pong : Type 0 where
  acked refused awaited : Pong

-- The timer, the clock of the system, `PingPong`, and the one sleep of the keep-alive
pub record Outer : Type 1 where
  pub World : Type 0
  pub timer_now : World → ℕ × World
  pub instant_now : World → ℕ × World
  -- whether a ping was sent
  pub send : World → Bool × World
  pub poll_pong : World → Pong × World
  -- whether the sleep is over
  pub poll_sleep : World → Bool × World
  pub reset : World → ℕ → World
  pub sleep : World → ℕ → World
  pub wake : World → World

pub record Config : Type 0 where
  pub bdp_initial_window : Option ℕ
  pub keep_alive_interval : Option ℕ
  pub keep_alive_timeout : ℕ
  pub keep_alive_while_idle : Bool

abbrev pub new_config : Bool → ℕ → Option ℕ → ℕ → Bool → Config
new_config adaptive_window size interval timeout while_idle = record {
  bdp_initial_window = if adaptive_window then some size else none;
  keep_alive_interval = interval;
  keep_alive_timeout = timeout;
  keep_alive_while_idle = while_idle;
}

abbrev pub is_some : {A : Type 0} → Option A → Bool
is_some none = false
is_some (some a) = true

unfoldable pub is_enabled : Config → Bool
is_enabled c = is_some c.bdp_initial_window || is_some c.keep_alive_interval

pub record Shared : Type 0 where
  pub ping_sent_at : Option ℕ
  pub bytes : Option ℕ
  pub next_bdp_at : Option ℕ
  pub last_read_at : Option ℕ
  pub is_keep_alive_timed_out : Bool

abbrev pub is_ping_sent : Shared → Bool
is_ping_sent s = is_some s.ping_sent_at

module _ (o : Outer) where
  open o use {World}

  abbrev pub Locked : Type 0
  Locked = Shared × World

  -- `Shared::send_ping`
  abbrev pub sent : Shared → Bool × World → Locked
  sent s (true, w) = let (now, w') = o.timer_now w in (record s { ping_sent_at = some now }, w')
  sent s (false, w) = (s, w)

  unfoldable pub send_ping : Locked → Locked
  send_ping (s, w) = sent s (o.send w)

  -- `Shared::update_last_read_at`
  abbrev pub read_again : Option ℕ → Locked → Locked
  read_again none l = l
  read_again (some at) (s, w) =
      let (now, w') = o.timer_now w in (record s { last_read_at = some now }, w')

  unfoldable pub update_last_read_at : Locked → Locked
  update_last_read_at l = read_again l.0.last_read_at l

  -- Whether it is time for another sample; if it is, the time is taken out.
  abbrev pub due : ℕ → Shared → ℕ × World → Bool × Locked
  due at s (now, w) =
      if ltb now at then (false, (s, w)) else (true, (record s { next_bdp_at = none }, w))

  abbrev pub sample_due : Option ℕ → Locked → Bool × Locked
  sample_due none l = (true, l)
  sample_due (some at) (s, w) = due at s (o.instant_now w)

  abbrev pub ping_unless_sent : Locked → Locked
  unfolding send_ping
  ping_unless_sent l = if is_ping_sent l.0 then l else send_ping l

  abbrev pub count_bytes : ℕ → Option ℕ → Locked → Locked
  count_bytes len none l = l
  count_bytes len (some bytes) (s, w) =
      ping_unless_sent (record s { bytes = some (add_u64 bytes len) }, w)

  abbrev pub sampled : ℕ → Bool × Locked → Locked
  sampled len (false, l) = l
  sampled len (true, l) = count_bytes len l.0.bytes l

  -- `Recorder::record_data`, of a recorder that is not disabled
  unfoldable pub record_data : ℕ → Locked → Locked
  unfolding update_last_read_at
  record_data len l = let l' = update_last_read_at l in sampled len (sample_due l'.0.next_bdp_at l')

  -- `Recorder::record_non_data`
  unfoldable pub record_non_data : Locked → Locked
  unfolding update_last_read_at
  record_non_data l = update_last_read_at l

  -- `Recorder::ensure_not_timed_out`: the error that it returns
  unfoldable pub ensure_not_timed_out : Shared → Option Error
  ensure_not_timed_out s = if s.is_keep_alive_timed_out then some (new_error http2) else none
