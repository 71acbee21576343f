-- ===== src/Http2/Ping/Kept.antt =====
-- What the recorder and the ponger of proto/http2/ping.rs keep of what they share: enough for no
-- `expect` to fail.
use hwire.Base.{
  inr, ◌+◌, inl, ℕ, ◌≡◌, refl, ◌∙◌, Bool, true, false, Bool-cases, Option, none, some, ltb, add_u64,
}
use hwire.Http2.Ping.{
  Outer, Shared, Locked, is_some, is_ping_sent, sent, send_ping, read_again, update_last_read_at,
  due, sample_due, ping_unless_sent, count_bytes, sampled, record_data,
}
use hwire.Http2.Ping.KeepAlive.{
  KeepAliveState, init, scheduled, ping_sent, KeepAlive, schedule, schedule_after, schedule_in,
  maybe_schedule, ping_after, woken, ping_in, maybe_ping, quiet,
}

-- The same fields are set, and the connection is timed out or not as before.
pub record SameKind (s s' : Shared) : Type 0 where
  pub read : is_some s'.last_read_at ≡ is_some s.last_read_at
  pub bytes : is_some s'.bytes ≡ is_some s.bytes
  pub flag : s'.is_keep_alive_timed_out ≡ s.is_keep_alive_timed_out

pub SameKind-refl : {s : Shared} → SameKind s s
SameKind-refl = record { read = refl; bytes = refl; flag = refl }

pub SameKind-trans : {a b c : Shared} → SameKind a b → SameKind b c → SameKind a c
SameKind-trans x y = record {
  read = y.read ∙ x.read;
  bytes = y.bytes ∙ x.bytes;
  flag = y.flag ∙ x.flag;
}

module _ (o : Outer) where
  open o use {World}

  sent-SameKind : (s : Shared) (r : Bool × World) → SameKind s (sent o s r).0
  sent-SameKind s (true, w) = record { read = refl; bytes = refl; flag = refl }
  sent-SameKind s (false, w) = SameKind-refl

  pub send_ping-SameKind : (l : Locked o) → SameKind l.0 (send_ping o l).0
  unfolding send_ping
  send_ping-SameKind (s, w) = sent-SameKind s (o.send w)

  read_again-SameKind :
      (at : Option ℕ) (l : Locked o) → l.0.last_read_at ≡ at → SameKind l.0 (read_again o at l).0
  read_again-SameKind none l e = SameKind-refl
  read_again-SameKind (some at) (s, w) e = record { read = rw e refl; bytes = refl; flag = refl }

  pub update_last_read_at-SameKind : (l : Locked o) → SameKind l.0 (update_last_read_at o l).0
  unfolding update_last_read_at
  update_last_read_at-SameKind l = read_again-SameKind l.0.last_read_at l refl

  ping_unless_sent-SameKind : (l : Locked o) → SameKind l.0 (ping_unless_sent o l).0
  unfolding ping_unless_sent
  ping_unless_sent-SameKind l = elim (Bool-cases (is_ping_sent l.0)) [
    | inl q ↦ rw q SameKind-refl
    | inr q ↦ rw q (send_ping-SameKind l)
  ]

  count_bytes-SameKind :
      (len : ℕ) (bytes : Option ℕ) (l : Locked o)
      → l.0.bytes ≡ bytes
      → SameKind l.0 (count_bytes o len bytes l).0
  count_bytes-SameKind len none l e = SameKind-refl
  count_bytes-SameKind len (some b) (s, w) e =
      let l' : Locked o = (record s { bytes = some (add_u64 b len) }, w) in
      SameKind-trans (record { read = refl; bytes = rw e refl; flag = refl })
        (ping_unless_sent-SameKind l')

  sampled-SameKind : (len : ℕ) (r : Bool × Locked o) → SameKind r.1.0 (sampled o len r).0
  sampled-SameKind len (false, l) = SameKind-refl
  sampled-SameKind len (true, l) = count_bytes-SameKind len l.0.bytes l refl

  due-SameKind : (at : ℕ) (s : Shared) (r : ℕ × World) → SameKind s (due o at s r).1.0
  due-SameKind at s (now, w) = elim (Bool-cases (ltb now at)) [
    | inl q ↦ rw q SameKind-refl
    | inr q ↦ rw q (record { read = refl; bytes = refl; flag = refl })
  ]

  sample_due-SameKind : (at : Option ℕ) (l : Locked o) → SameKind l.0 (sample_due o at l).1.0
  sample_due-SameKind none l = SameKind-refl
  sample_due-SameKind (some at) (s, w) = due-SameKind at s (o.instant_now w)

  pub record_data-SameKind : (len : ℕ) (l : Locked o) → SameKind l.0 (record_data o len l).0
  unfolding record_data
  record_data-SameKind len l =
      let l' = update_last_read_at o l in
      SameKind-trans (update_last_read_at-SameKind l)
        (SameKind-trans (sample_due-SameKind l'.0.next_bdp_at l') (sampled-SameKind len _))

  abbrev pub Scheduled : Option (KeepAlive × World) → Type 0
  Scheduled none = ⊥
  Scheduled (some x) = Unit

  schedule_after-Scheduled :
      (ka : KeepAlive) (last : Option ℕ) (w : World)
      → is_some last ≡ true
      → Scheduled (schedule_after o ka last w)
  schedule_after-Scheduled ka none w h = absurd (cc)
  schedule_after-Scheduled ka (some t) w h = tt

  schedule-Scheduled :
      (ka : KeepAlive) (l : Locked o)
      → is_some l.0.last_read_at ≡ true
      → Scheduled (schedule o ka l)
  unfolding schedule
  schedule-Scheduled ka (s, w) h = schedule_after-Scheduled ka s.last_read_at w h

  schedule_in-Scheduled :
      (st : KeepAliveState) (ka : KeepAlive) (is_idle : Bool) (l : Locked o)
      → is_some l.0.last_read_at ≡ true
      → Scheduled (schedule_in o st ka is_idle l)
  schedule_in-Scheduled init ka is_idle l h = elim (Bool-cases (quiet o ka is_idle)) [
    | inl q ↦ rw q tt
    | inr q ↦ rw q (schedule-Scheduled ka l h)
  ]
  schedule_in-Scheduled ping_sent ka is_idle l h = elim (Bool-cases (is_ping_sent l.0)) [
    | inl q ↦ rw q tt
    | inr q ↦ rw q (schedule-Scheduled ka l h)
  ]
  schedule_in-Scheduled (scheduled at) ka is_idle l h = tt

  -- Where the last read is known, `maybe_schedule` does not panic.
  pub maybe_schedule-Scheduled :
      (ka : KeepAlive) (is_idle : Bool) (l : Locked o)
      → is_some l.0.last_read_at ≡ true
      → Scheduled (maybe_schedule o ka is_idle l)
  unfolding maybe_schedule
  maybe_schedule-Scheduled ka is_idle l h = schedule_in-Scheduled ka.state ka is_idle l h

  abbrev pub PingedFrom : Shared → Option (KeepAlive × Locked o) → Type 0
  PingedFrom s none = ⊥
  PingedFrom s (some (ka, l)) = SameKind s l.0

  ping_after-PingedFrom :
      (at : ℕ) (ka : KeepAlive) (is_idle : Bool) (last : Option ℕ) (l : Locked o)
      → is_some last ≡ true
      → PingedFrom l.0 (ping_after o at ka is_idle last l)
  ping_after-PingedFrom at ka is_idle none l h = absurd (cc)
  ping_after-PingedFrom at ka is_idle (some t) (s, w) h =
      elim (Bool-cases (ltb at (t + ka.interval))) [
        | inl q ↦ rw q SameKind-refl
        | inr q ↦ elim (Bool-cases (quiet o ka is_idle)) [
          | inl p ↦ rw (q, p) SameKind-refl
          | inr p ↦ rw (q, p) (send_ping-SameKind (s, w))
        ]
      ]

  woken-PingedFrom :
      (at : ℕ) (ka : KeepAlive) (is_idle : Bool) (s : Shared) (r : Bool × World)
      → is_some s.last_read_at ≡ true
      → PingedFrom s (woken o at ka is_idle s r)
  woken-PingedFrom at ka is_idle s (false, w) h = SameKind-refl
  woken-PingedFrom at ka is_idle s (true, w) h =
      ping_after-PingedFrom at ka is_idle s.last_read_at (s, w) h

  ping_in-PingedFrom :
      (st : KeepAliveState) (ka : KeepAlive) (is_idle : Bool) (l : Locked o)
      → is_some l.0.last_read_at ≡ true
      → PingedFrom l.0 (ping_in o st ka is_idle l)
  ping_in-PingedFrom (scheduled at) ka is_idle (s, w) h =
      woken-PingedFrom at ka is_idle s (o.poll_sleep w) h
  ping_in-PingedFrom init ka is_idle l h = SameKind-refl
  ping_in-PingedFrom ping_sent ka is_idle l h = SameKind-refl

  -- Where the last read is known, `maybe_ping` does not panic and keeps what is set.
  pub maybe_ping-PingedFrom :
      (ka : KeepAlive) (is_idle : Bool) (l : Locked o)
      → is_some l.0.last_read_at ≡ true
      → PingedFrom l.0 (maybe_ping o ka is_idle l)
  unfolding maybe_ping
  maybe_ping-PingedFrom ka is_idle l h = ping_in-PingedFrom ka.state ka is_idle l h
