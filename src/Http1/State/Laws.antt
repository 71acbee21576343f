-- ===== src/Http1/State/Laws.antt =====
-- What the methods of the connection state keep.
use hwire.Base.{Bool, true, false, ◌≡◌, refl}
use hwire.Http1.State.{
  Reading, Ka, idle, busy, disabled, Outside, Writing, State, close, close_read, close_write,
  make_idle, try_keep_alive, both_done, keep_or_close, and_enabled, busy_again,
}

module _ (out : Outside) where
  -- An idle connection is at the start of an exchange.
  abbrev pub IdleIsFresh : State out → Type 0
  IdleIsFresh s = s.keep_alive ≡ idle → (s.reading ≡ Reading.init) × (s.writing ≡ Writing.init)

  -- What every operation keeps: an idle connection is fresh, keep-alive that is disabled stays so,
  -- and a side that is closed stays closed.
  pub record Keeps (s s' : State out) : Type 0 where
    pub fresh : IdleIsFresh s'
    pub disabled_stays : s.keep_alive ≡ disabled → s'.keep_alive ≡ disabled
    pub read_stays : s.reading ≡ Reading.closed → s'.reading ≡ Reading.closed
    pub write_stays : s.writing ≡ Writing.closed → s'.writing ≡ Writing.closed

  pub Keeps-refl : (s : State out) → IdleIsFresh s → Keeps s s
  Keeps-refl s h = record {
    fresh = h;
    disabled_stays = λ e. e;
    read_stays = λ e. e;
    write_stays = λ e. e;
  }

  pub Keeps-trans : {a b c : State out} → Keeps a b → Keeps b c → Keeps a c
  Keeps-trans h k = record {
    fresh = k.fresh;
    disabled_stays = λ e. k.disabled_stays (h.disabled_stays e);
    read_stays = λ e. k.read_stays (h.read_stays e);
    write_stays = λ e. k.write_stays (h.write_stays e);
  }

  pub close-Keeps : (s : State out) → Keeps s (close out s)
  unfolding close
  close-Keeps s = record {
    fresh = λ e. absurd (cc);
    disabled_stays = λ e. refl;
    read_stays = λ e. refl;
    write_stays = λ e. refl;
  }

  pub close_read-Keeps : (s : State out) → Keeps s (close_read out s)
  unfolding close_read
  close_read-Keeps s = record {
    fresh = λ e. absurd (cc);
    disabled_stays = λ e. refl;
    read_stays = λ e. refl;
    write_stays = λ e. e;
  }

  pub close_write-Keeps : (s : State out) → Keeps s (close_write out s)
  unfolding close_write
  close_write-Keeps s = record {
    fresh = λ e. absurd (cc);
    disabled_stays = λ e. refl;
    read_stays = λ e. e;
    write_stays = λ e. refl;
  }

  keep_or_close-Keeps :
      (k : Ka) (s : State out)
      → s.keep_alive ≡ k
      → s.reading ≡ Reading.keep_alive
      → s.writing ≡ Writing.keep_alive
      → Keeps s (keep_or_close out k s)
  unfolding make_idle
  keep_or_close-Keeps idle s h r w = close-Keeps s
  keep_or_close-Keeps disabled s h r w = close-Keeps s
  keep_or_close-Keeps busy s h r w = record {
    fresh = λ e. (refl, refl);
    disabled_stays = λ e. absurd (cc);
    read_stays = λ e. absurd (cc);
    write_stays = λ e. absurd (cc);
  }

  both_done-Keeps :
      (r : Reading) (w : Writing out) (s : State out)
      → s.reading ≡ r
      → s.writing ≡ w
      → IdleIsFresh s
      → Keeps s (both_done out r w s)
  both_done-Keeps Reading.keep_alive Writing.keep_alive s r w h =
      keep_or_close-Keeps s.keep_alive s refl r w
  both_done-Keeps Reading.closed Writing.keep_alive s r w h = close-Keeps s
  both_done-Keeps Reading.keep_alive Writing.closed s r w h = close-Keeps s
  both_done-Keeps Reading.keep_alive Writing.init s r w h = Keeps-refl s h
  both_done-Keeps Reading.keep_alive (Writing.body e) s r w h = Keeps-refl s h
  both_done-Keeps Reading.closed Writing.init s r w h = Keeps-refl s h
  both_done-Keeps Reading.closed Writing.closed s r w h = Keeps-refl s h
  both_done-Keeps Reading.closed (Writing.body e) s r w h = Keeps-refl s h
  both_done-Keeps Reading.init x s r w h = Keeps-refl s h
  both_done-Keeps (Reading.body d) x s r w h = Keeps-refl s h
  both_done-Keeps (Reading.continue d) x s r w h = Keeps-refl s h

  pub try_keep_alive-Keeps : (s : State out) → IdleIsFresh s → Keeps s (try_keep_alive out s)
  unfolding try_keep_alive
  try_keep_alive-Keeps s h = both_done-Keeps s.reading s.writing s refl refl h

  -- A status that is not idle
  abbrev pub NotIdle : Ka → Type 0
  NotIdle k = k ≡ idle → ⊥

  pub busy_again-NotIdle : (k : Ka) → NotIdle (busy_again out k)
  busy_again-NotIdle idle e = cc
  busy_again-NotIdle busy e = cc
  busy_again-NotIdle disabled e = cc

  pub busy_again-disabled : (k : Ka) → k ≡ disabled → busy_again out k ≡ disabled
  busy_again-disabled idle e = absurd (cc)
  busy_again-disabled busy e = absurd (cc)
  busy_again-disabled disabled e = refl

  pub and_enabled-NotIdle : (k : Ka) (b : Bool) → NotIdle k → NotIdle (and_enabled k b)
  unfolding and_enabled
  and_enabled-NotIdle k true h e = h e
  and_enabled-NotIdle k false h e = cc

  pub and_enabled-disabled : (k : Ka) (b : Bool) → k ≡ disabled → and_enabled k b ≡ disabled
  unfolding and_enabled
  and_enabled-disabled k true h = h
  and_enabled-disabled k false h = refl
