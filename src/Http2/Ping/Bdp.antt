-- ===== src/Http2/Ping/Bdp.antt =====
-- `Bdp` of proto/http2/ping.rs: the estimate of the bandwidth-delay product. Floating point is a
-- parameter; a `Duration` is a number of nanoseconds.
use hwire.Base.{
  ℕ, ◌+◌, ◌*◌, ◌/◌, ◌%◌, Bool, Option, none, some, ltb, leb, ◌==◌, min, if◌then◌else◌, u64_mod,
}

-- `f64` and its operations
pub record Floats : Type 1 where
  pub F : Type 0
  pub from_nat : ℕ → F
  pub add : F → F → F
  pub sub : F → F → F
  pub mul : F → F → F
  pub div : F → F → F
  pub same : F → F → Bool
  pub less : F → F → Bool
  -- 0.125 and 1.5
  pub eighth : F
  pub one_and_half : F

abbrev pub bdp_limit : ℕ
bdp_limit = 16777216

abbrev pub nanos : ℕ
nanos = 1000000000

module _ (f : Floats) where
  open f use {F}

  pub record Bdp : Type 0 where
    pub bdp : ℕ
    pub max_bandwidth : F
    pub rtt : F
    pub ping_delay : ℕ
    pub stable_count : ℕ

  -- `seconds`
  abbrev pub seconds : ℕ → F
  seconds dur =
      f.add (f.from_nat (dur / nanos)) (f.div (f.from_nat (dur % nanos)) (f.from_nat nanos))

  -- `Bdp::stabilize_delay`
  unfoldable pub stabilize_delay : Bdp → Bdp
  stabilize_delay b =
      if ltb b.ping_delay (10 * nanos)
      then if leb 2 (b.stable_count + 1)
        then record b { ping_delay = b.ping_delay * 4; stable_count = 0 }
        else record b { stable_count = b.stable_count + 1 }
      else b

  unfoldable pub average : F → F → F
  average old rtt =
      if f.same old (f.from_nat 0) then rtt else f.add old (f.mul (f.sub rtt old) f.eighth)

  abbrev pub bandwidth : ℕ → F → F
  bandwidth bytes rtt = f.div (f.from_nat bytes) (f.mul rtt f.one_and_half)

  -- `(bytes * 2).min(BDP_LIMIT) as WindowSize`
  abbrev pub doubled : ℕ → ℕ
  doubled bytes = min ((bytes * 2) % u64_mod) bdp_limit

  unfoldable pub raise : ℕ → Bdp → Bdp × Option ℕ
  raise bytes b =
      if leb (b.bdp * 2 / 3) bytes
      then (
        record b { bdp = doubled bytes; stable_count = 0; ping_delay = b.ping_delay / 2 },
        some (doubled bytes),
      )
      else (stabilize_delay b, none)

  unfoldable pub compare_bandwidth : ℕ → F → Bdp → Bdp × Option ℕ
  unfolding raise
  compare_bandwidth bytes bw b =
      if f.less bw b.max_bandwidth
      then (stabilize_delay b, none)
      else raise bytes (record b { max_bandwidth = bw })

  unfoldable pub measure : ℕ → F → Bdp → Bdp × Option ℕ
  unfolding compare_bandwidth
  measure bytes rtt b = compare_bandwidth bytes (bandwidth bytes rtt) (record b { rtt = rtt })

  -- `Bdp::calculate`
  unfoldable pub calculate : ℕ → ℕ → Bdp → Bdp × Option ℕ
  unfolding measure
  calculate bytes rtt b =
      if b.bdp == bdp_limit
      then (stabilize_delay b, none)
      else measure bytes (average b.rtt (seconds rtt)) b
