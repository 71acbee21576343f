-- ===== src/Http2/Ping/Run.antt =====
-- The ponger and the recorder of proto/http2/ping.rs in any order of calls.
use hwire.Base.{
  subst, ℕ, ◌-◌, ◌≡◌, inl, inr, refl, sym, ◌∙◌, Bool, true, false, Bool-cases, Option, none, some,
}
use hwire.Error.{new_error, http2}
use hwire.Http2.Ping.{
  Outer, Pong, acked, refused, awaited, Config, Shared, Locked, is_some, is_ping_sent,
  update_last_read_at, record_data, record_non_data, ensure_not_timed_out,
}
use hwire.Http2.Ping.Bdp.{Floats, Bdp, calculate}
use hwire.Http2.Ping.KeepAlive.{KeepAlive, maybe_timeout}
use hwire.Http2.Ping.Ponger.{
  Ponged, size_update, keep_alive_timed_out, Ponger, shared, is_idle, with_ka, then_ping, keep_with,
  keep, Polled, measured, measure_bytes, measure_with, measure, heard_with, heard, ponged_at,
  timed_out, wait_with, on_pong, poll_pong, then_pong, poll_at, poll, channel, bdp_of,
  keep_alive_of, if_set, opened_at,
}
use hwire.Http2.Ping.Kept.{
  SameKind, SameKind-refl, update_last_read_at-SameKind, record_data-SameKind, Scheduled,
  maybe_schedule-Scheduled, PingedFrom, maybe_ping-PingedFrom,
}

module _ (o : Outer) (f : Floats) where
  open o use {World}

  -- A keep-alive goes with the time of the last read, an estimate with a count of bytes, and a
  -- connection that is timed out has no keep-alive any more.
  pub record WellFormed (p : Ponger o f) : Type 0 where
    pub read : is_some p.keep_alive ≡ true → is_some (shared o f p).last_read_at ≡ true
    pub bytes : is_some p.bdp ≡ true → is_some (shared o f p).bytes ≡ true
    pub over : (shared o f p).is_keep_alive_timed_out ≡ true → is_some p.keep_alive ≡ false

  -- The same two parts are enabled, over fields of the same kind.
  with_kind :
      (p p' : Ponger o f)
      → WellFormed p
      → is_some p'.keep_alive ≡ is_some p.keep_alive
      → is_some p'.bdp ≡ is_some p.bdp
      → SameKind (shared o f p) (shared o f p')
      → WellFormed p'
  with_kind p p' w k b s = record {
    read = λ e. s.read ∙ w.read (sym k ∙ e);
    bytes = λ e. s.bytes ∙ w.bytes (sym b ∙ e);
    over = λ e. k ∙ w.over (sym s.flag ∙ e);
  }

  abbrev Kept : Option (Ponger o f) → Type 0
  Kept none = ⊥
  Kept (some p) = WellFormed p

  with_ka-Kept :
      (p : Ponger o f) (ka : KeepAlive) (r : Option (KeepAlive × Locked o))
      → WellFormed p
      → p.keep_alive ≡ some ka
      → PingedFrom o (shared o f p) r
      → Kept (with_ka o f p r)
  with_ka-Kept p ka none w e h = absurd h
  with_ka-Kept p ka (some (ka', l)) w e h =
      with_kind p (record p { keep_alive = some ka'; locked = l }) w (rw e refl) refl h

  then_ping-PingedFrom :
      (idle : Bool) (s : Shared) (r : Option (KeepAlive × World))
      → Scheduled o r
      → is_some s.last_read_at ≡ true
      → PingedFrom o s (then_ping o f idle s r)
  then_ping-PingedFrom idle s none h k = absurd h
  then_ping-PingedFrom idle s (some (ka, w)) h k = maybe_ping-PingedFrom o ka idle (s, w) k

  keep_with-Kept :
      (k : Option KeepAlive) (idle : Bool) (p : Ponger o f)
      → WellFormed p
      → p.keep_alive ≡ k
      → Kept (keep_with o f k idle p)
  keep_with-Kept none idle p w e = w
  keep_with-Kept (some ka) idle p w e =
      let h = w.read (rw e refl) in
      with_ka-Kept p ka _ w e (
        then_ping-PingedFrom idle (shared o f p) _ (maybe_schedule-Scheduled o ka idle p.locked h)
          h)

  keep-Kept : (idle : Bool) (p : Ponger o f) → WellFormed p → Kept (keep o f idle p)
  unfolding keep
  keep-Kept idle p w = keep_with-Kept p.keep_alive idle p w refl

  heard_with-Kept :
      (k : Option KeepAlive) (idle : Bool) (p : Ponger o f)
      → WellFormed p
      → Kept (heard_with o f k idle p)
  heard_with-Kept none idle p w = w
  heard_with-Kept (some ka) idle p w =
      keep-Kept idle (record p { locked = update_last_read_at o p.locked })
        (with_kind p _ w refl refl (update_last_read_at-SameKind o p.locked))

  heard-Kept : (idle : Bool) (p : Ponger o f) → WellFormed p → Kept (heard o f idle p)
  unfolding heard
  heard-Kept idle p w = heard_with-Kept p.keep_alive idle p w

  -- A time-out is told while a ping is out without its pong, and leaves an error for the streams.
  pub record TimedOut (p : Ponger o f) : Type 0 where
    pub waiting : is_ping_sent (shared o f p) ≡ true
    pub ended : is_some p.keep_alive ≡ false
    pub error : ensure_not_timed_out o (shared o f p) ≡ some (new_error http2)

  abbrev pub Told : Ponger o f → Option Ponged → Type 0
  Told p none = Unit
  Told p (some (size_update size)) = is_some p.bdp ≡ true
  Told p (some keep_alive_timed_out) = TimedOut p

  abbrev pub IsPolled : Option (Polled o f) → Type 0
  IsPolled none = ⊥
  IsPolled (some (p, out)) = WellFormed p × Told p out

  measured-IsPolled :
      (now : ℕ) (b : Bdp f) (p : Ponger o f) (r : Bdp f × Option ℕ)
      → WellFormed p
      → p.bdp ≡ some b
      → is_some (shared o f p).bytes ≡ true
      → IsPolled (some (measured o f now p r))
  measured-IsPolled now b p (b', none) w e k =
      (with_kind p _ w refl (rw e refl) (record { read = refl; bytes = sym k; flag = refl }), tt)
  measured-IsPolled now b p (b', some size) w e k =
      (with_kind p _ w refl (rw e refl) (record { read = refl; bytes = sym k; flag = refl }), refl)

  measure_bytes-IsPolled :
      (now rtt : ℕ) (b : Bdp f) (n : Option ℕ) (p : Ponger o f)
      → WellFormed p
      → p.bdp ≡ some b
      → (shared o f p).bytes ≡ n
      → IsPolled (measure_bytes o f now rtt b n p)
  measure_bytes-IsPolled now rtt b none p w e k = absurd (
      let h = w.bytes (rw e refl) in let z : is_some (shared o f p).bytes ≡ false = rw k refl in cc)
  measure_bytes-IsPolled now rtt b (some n) p w e k =
      measured-IsPolled now b p (calculate f n rtt b) w e (rw k refl)

  measure_with-IsPolled :
      (now rtt : ℕ) (b : Option (Bdp f)) (p : Ponger o f)
      → WellFormed p
      → p.bdp ≡ b
      → IsPolled (measure_with o f now rtt b p)
  measure_with-IsPolled now rtt none p w e = (w, tt)
  measure_with-IsPolled now rtt (some b) p w e =
      measure_bytes-IsPolled now rtt b (shared o f p).bytes p w e refl

  measure-IsPolled :
      (now rtt : ℕ) (p : Option (Ponger o f)) → Kept p → IsPolled (measure o f now rtt p)
  unfolding measure
  measure-IsPolled now rtt none k = absurd k
  measure-IsPolled now rtt (some p) k = measure_with-IsPolled now rtt p.bdp p k refl

  timed_out-IsPolled :
      (p : Ponger o f) (r : Bool × World)
      → WellFormed p
      → is_ping_sent (shared o f p) ≡ true
      → IsPolled (some (timed_out o f p r))
  timed_out-IsPolled p (false, w') w s = (with_kind p _ w refl refl SameKind-refl, tt)
  timed_out-IsPolled p (true, w') w s = (
    record { read = λ e. absurd (cc); bytes = w.bytes; over = λ e. refl },
    record { waiting = s; ended = refl; error = unfold ensure_not_timed_out in refl },
  )

  wait_with-IsPolled :
      (k : Option KeepAlive) (p : Ponger o f)
      → WellFormed p
      → is_ping_sent (shared o f p) ≡ true
      → IsPolled (some (wait_with o f k p))
  wait_with-IsPolled none p w s = (w, tt)
  wait_with-IsPolled (some ka) p w s = timed_out-IsPolled p (maybe_timeout o ka p.locked.1) w s

  ponged_at-IsPolled :
      (now : ℕ) (idle : Bool) (start : Option ℕ) (p : Ponger o f)
      → WellFormed p
      → is_some start ≡ true
      → IsPolled (ponged_at o f now idle start p)
  ponged_at-IsPolled now idle none p w s = absurd (cc)
  ponged_at-IsPolled now idle (some start) p w s =
      let l = p.locked in
      let p' = record p { locked = (record l.0 { ping_sent_at = none }, l.1) } in
      measure-IsPolled now (now - start) (heard o f idle p') (
        heard-Kept idle p'
          (with_kind p p' w refl refl (record { read = refl; bytes = refl; flag = refl })))

  on_pong-IsPolled :
      (now : ℕ) (idle : Bool) (p : Ponger o f) (r : Pong × World)
      → WellFormed p
      → is_ping_sent (shared o f p) ≡ true
      → IsPolled (on_pong o f now idle p r)
  on_pong-IsPolled now idle p (acked, w') w s =
      ponged_at-IsPolled now idle (shared o f p).ping_sent_at
        (record p { locked = (shared o f p, w') }) (with_kind p _ w refl refl SameKind-refl) s
  on_pong-IsPolled now idle p (refused, w') w s = (with_kind p _ w refl refl SameKind-refl, tt)
  on_pong-IsPolled now idle p (awaited, w') w s =
      wait_with-IsPolled p.keep_alive (record p { locked = (shared o f p, w') })
        (with_kind p _ w refl refl SameKind-refl) s

  poll_pong-IsPolled :
      (now : ℕ) (idle : Bool) (p : Ponger o f) → WellFormed p → IsPolled (poll_pong o f now idle p)
  unfolding poll_pong
  poll_pong-IsPolled now idle p w = elim (Bool-cases (is_ping_sent (shared o f p))) [
    | inl q ↦ rw q (on_pong-IsPolled now idle p (o.poll_pong p.locked.1) w q)
    | inr q ↦ rw q (w, tt)
  ]

  then_pong-IsPolled :
      (now : ℕ) (idle : Bool) (p : Option (Ponger o f))
      → Kept p
      → IsPolled (then_pong o f now idle p)
  then_pong-IsPolled now idle none k = absurd k
  then_pong-IsPolled now idle (some p) k = poll_pong-IsPolled now idle p k

  poll_at-IsPolled :
      (idle : Bool) (p : Ponger o f) (r : ℕ × World)
      → WellFormed p
      → IsPolled (poll_at o f idle p r)
  poll_at-IsPolled idle p (now, w') w = then_pong-IsPolled now idle _ (
      keep-Kept idle (record p { locked = (shared o f p, w') })
        (with_kind p _ w refl refl SameKind-refl))

  poll-IsPolled : (count : ℕ) (p : Ponger o f) → WellFormed p → IsPolled (poll o f count p)
  unfolding poll
  poll-IsPolled count p w = poll_at-IsPolled (is_idle o f count) p (o.timer_now p.locked.1) w

  -- The calls of the recorders and of the connection, in any order
  pub data Run : Ponger o f → Ponger o f → Type 0 where
    here : {p : Ponger o f} → Run p p
    data_read :
        {a p : Ponger o f}
        → Run a p
        → (len : ℕ) → Run a (record p { locked = record_data o len p.locked })
    other_read :
        {a p : Ponger o f} → Run a p → Run a (record p { locked = record_non_data o p.locked })
    polled :
        {a p p' : Ponger o f} {out : Option Ponged}
        → Run a p
        → (count : ℕ) → poll o f count p ≡ some (p', out)
        → Run a p'

  polled-WellFormed :
      (r : Option (Polled o f)) (p' : Ponger o f) (out : Option Ponged)
      → IsPolled r
      → r ≡ some (p', out)
      → WellFormed p'
  polled-WellFormed none p' out k e = absurd (cc)
  polled-WellFormed (some (p, x)) p' out (w, t) e = let q : p ≡ p' = cc in subst WellFormed q w

  Run-WellFormed : {a p : Ponger o f} → Run a p → WellFormed a → WellFormed p
  unfolding record_non_data
  Run-WellFormed here w = w
  Run-WellFormed (data_read {a} {p} r len) w =
      with_kind p _ (Run-WellFormed r w) refl refl (record_data-SameKind o len p.locked)
  Run-WellFormed (other_read {a} {p} r) w =
      with_kind p _ (Run-WellFormed r w) refl refl (update_last_read_at-SameKind o p.locked)
  Run-WellFormed (polled {a} {p} {p'} {out} r count e) w =
      polled-WellFormed (poll o f count p) p' out (poll-IsPolled count p (Run-WellFormed r w)) e

  opened_at-WellFormed : (c : Config) (r : ℕ × World) → WellFormed (opened_at o f c r)
  opened_at-WellFormed c (now, w) = record {
    read = set_alive c c.keep_alive_interval now;
    bytes = set_bytes c.bdp_initial_window;
    over = λ e. absurd (cc);
  }
    where
      set_alive :
          (c : Config) (i : Option ℕ) (now : ℕ)
          → is_some (keep_alive_of o f c i) ≡ true
          → is_some {A = ℕ} (if_set o f i now) ≡ true
      set_alive c none now e = absurd (cc)
      set_alive c (some i) now e = refl

      set_bytes :
          (i : Option ℕ) → is_some (bdp_of o f i) ≡ true → is_some {A = ℕ} (if_set o f i 0) ≡ true
      set_bytes none e = absurd (cc)
      set_bytes (some i) e = refl

  channel-WellFormed : (c : Config) (w : World) → WellFormed (channel o f c w)
  unfolding channel
  channel-WellFormed c w = opened_at-WellFormed c (o.timer_now w)

  -- Whatever the recorders and the connection call, in any order, on the ends of a channel: none of
  -- the `expect`s of `poll` fails. Where it tells of a time-out, a ping is out that has no pong, the
  -- keep-alive has ended, and every stream gets the error; a new window is told only where the
  -- estimate is enabled.
  pub Run-IsPolled :
      (c : Config) (w : World) {p : Ponger o f}
      → Run (channel o f c w) p
      → (count : ℕ) → IsPolled (poll o f count p)
  Run-IsPolled c w {p} r count = poll-IsPolled count p (Run-WellFormed r (channel-WellFormed c w))
