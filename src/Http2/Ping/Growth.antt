-- ===== src/Http2/Ping/Growth.antt =====
-- The estimate of `Bdp::calculate` in proto/http2/ping.rs.
use hwire.Base.{
  inr, ◌⊎◌, inl, ℕ, ◌+◌, ◌*◌, ◌/◌, ◌≤◌, ◌<◌, ◌≡◌, refl, Bool-cases, Option, none, some, ltb, leb,
  ◌==◌, arith, u64_mod,
}
use hwire.Http2.Ping.Bdp.{
  Floats, Bdp, bdp_limit, nanos, stabilize_delay, average, bandwidth, raise, compare_bandwidth,
  measure, calculate, seconds,
}

module _ (f : Floats) where
  -- A window below the limit, with a delay of at most forty seconds
  pub record IsEstimate (b : Bdp f) : Type 0 where
    pub low : 2 ≤ b.bdp
    pub high : b.bdp ≤ bdp_limit
    pub delay : b.ping_delay ≤ 40 * nanos
    pub count : b.stable_count ≤ 1

  -- The window stays where no update is given, and an update is the new window, which is no smaller.
  pub record Grows (b b' : Bdp f) (update : Option ℕ) : Type 0 where
    pub estimate : IsEstimate b'
    pub grown : b.bdp ≤ b'.bdp
    pub told : (update ≡ some b'.bdp) ⊎ ((update ≡ none) × (b'.bdp ≡ b.bdp))

  stabilize_delay-Grows : (b : Bdp f) → IsEstimate b → Grows b (stabilize_delay f b) none
  unfolding stabilize_delay
  stabilize_delay-Grows b e = elim (Bool-cases (ltb b.ping_delay (10 * nanos))) [
    | inr q ↦ rw q (record { estimate = e; grown = omega arith; told = inr (refl, refl) })
    | inl q ↦ elim (Bool-cases (leb 2 (b.stable_count + 1))) [
      | inl p ↦
          rw (q, p)
            (record {
              estimate = record {
                low = e.low;
                high = e.high;
                delay = ground (arith, q);
                count = omega arith;
              };
              grown = omega arith;
              told = inr (refl, refl);
            })
      | inr p ↦
          rw (q, p)
            (record {
              estimate = record {
                low = e.low;
                high = e.high;
                delay = e.delay;
                count = ground (arith, p);
              };
              grown = omega arith;
              told = inr (refl, refl);
            })
    ]
  ]

  raise-Grows :
      (bytes : ℕ) (b : Bdp f)
      → IsEstimate b
      → bytes * 2 < u64_mod
      → Grows b (raise f bytes b).0 (raise f bytes b).1
  unfolding raise
  raise-Grows bytes b e h = elim (Bool-cases (leb (b.bdp * 2 / 3) bytes)) [
    | inr q ↦ rw q (stabilize_delay-Grows b e)
    | inl q ↦
        let k : b.bdp * 2 / 3 ≤ bytes = ground (arith, q) in
        rw q (record {
          estimate = record {
            low = omega (arith, h, k, e.low);
            high = omega arith;
            delay = omega (arith, e.delay);
            count = omega arith;
          };
          grown = omega (arith, h, k, e.low, e.high);
          told = inl refl;
        })
  ]

  same_estimate :
      (b b' : Bdp f)
      → IsEstimate b
      → (b'.bdp ≡ b.bdp) × ((b'.ping_delay ≡ b.ping_delay) × (b'.stable_count ≡ b.stable_count))
      → IsEstimate b'
  same_estimate b b' e (x, (y, z)) = record {
    low = omega (arith, x, e.low);
    high = omega (arith, x, e.high);
    delay = omega (arith, y, e.delay);
    count = omega (arith, z, e.count);
  }

  compare_bandwidth-Grows :
      (bytes : ℕ) (bw : f.F) (b : Bdp f)
      → IsEstimate b
      → bytes * 2 < u64_mod
      → Grows b (compare_bandwidth f bytes bw b).0 (compare_bandwidth f bytes bw b).1
  unfolding compare_bandwidth
  compare_bandwidth-Grows bytes bw b e h = elim (Bool-cases (f.less bw b.max_bandwidth)) [
    | inl q ↦ rw q (stabilize_delay-Grows b e)
    | inr q ↦
        let b' = record b { max_bandwidth = bw } in
        let g = raise-Grows bytes b' (same_estimate b b' e (refl, (refl, refl))) h in
        rw q (record { estimate = g.estimate; grown = g.grown; told = g.told })
  ]

  -- From a window between 2 and the limit, with a sample that does not overflow when it is doubled,
  -- `calculate` leaves a window between the old one and the limit, reports it exactly as it is where
  -- it reports one and else keeps the old, and leaves a delay of at most forty seconds.
  pub calculate-Grows :
      (bytes rtt : ℕ) (b : Bdp f)
      → IsEstimate b
      → bytes * 2 < u64_mod
      → Grows b (calculate f bytes rtt b).0 (calculate f bytes rtt b).1
  unfolding calculate measure
  calculate-Grows bytes rtt b e h = elim (Bool-cases (b.bdp == bdp_limit)) [
    | inl q ↦ rw q (stabilize_delay-Grows b e)
    | inr q ↦
        let b' = record b { rtt = average f b.rtt (seconds f rtt) } in
        let g =
          compare_bandwidth-Grows bytes (bandwidth f bytes (average f b.rtt (seconds f rtt))) b'
            (same_estimate b b' e (refl, (refl, refl))) h in
        rw q (record { estimate = g.estimate; grown = g.grown; told = g.told })
  ]
