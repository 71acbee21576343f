-- ===== src/Body/Watch.antt =====
-- body/watch.rs: a value that one side sets and the other watches. The waker of the watching task is
-- a parameter.
use hwire.Base.{ℕ, Bool, ◌==◌, if◌then◌else◌}

abbrev pub watch_ready : ℕ
watch_ready = 2

abbrev pub watch_pending : ℕ
watch_pending = 1

abbrev pub watch_closed : ℕ
watch_closed = 0

-- `AtomicWaker`
pub record Waker : Type 1 where
  pub W : Type 0
  pub fresh : W
  pub register : W → W
  pub wake : W → W

-- `Poll<Result<(), Error>>` of a watch, and the panic of its `unreachable!`
pub data Watched : Type 0 where
  open_now not_yet shut unexpected : Watched

module _ (k : Waker) where
  open k use {W}

  pub record Watch : Type 0 where
    pub value : ℕ
    pub waker : W

  -- `channel`
  abbrev pub new_watch : Bool → Watch
  new_watch wanter = record {
    value = if wanter then watch_pending else watch_ready;
    waker = k.fresh;
  }

  -- `Sender::send`
  unfoldable pub send : Watch → ℕ → Watch
  send w v = if w.value == v then w else record w { value = v; waker = k.wake w.waker }

  -- `Sender::ready`, and the drop of a sender
  unfoldable pub set_ready : Watch → Watch
  unfolding send
  set_ready w = send w watch_ready

  unfoldable pub drop_sender : Watch → Watch
  unfolding send
  drop_sender w = send w watch_closed

  unfoldable pub watched : ℕ → Watched
  watched v =
      if v == watch_ready
      then open_now
      else if v == watch_pending
      then not_yet
      else if v == watch_closed
      then shut
      else unexpected

  -- `Receiver::poll_ready`
  unfoldable pub poll_watch : Watch → Watched × Watch
  unfolding watched
  poll_watch w = (watched w.value, record w { waker = k.register w.waker })
