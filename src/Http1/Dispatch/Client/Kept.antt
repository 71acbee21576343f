-- ===== src/Http1/Dispatch/Client/Kept.antt =====
-- What each call of the client's dispatch keeps of the account of the promises.
use hwire.Base.{
  subst, refl, ℕ, Bool, true, false, not, ◌⊎◌, inl, inr, Option, none, some, List, [], ◌∷◌, ◌++◌,
}
use hwire.Error.{Error}
use hwire.Body.Incoming.{Next, waits, ended, item}
use hwire.Requests.{
  response, refused, connection_error, canceled_by, dispatch_gone, Oneshots, Queues, WantCrate,
  Callback, Envelope, poll_canceled, Link, close,
}
use hwire.Requests.Ledger.{settle-Holds, answer-Holds, hand-Holds, poll-Holds}
use hwire.Requests.Laws.{QueueLaws, OneshotLaws}
use hwire.Requests.Kept.{
  H, RecvKeeps, poll_recv-Keeps, NowKeeps, try_recv-Keeps, close-Keeps, DropKeeps,
  drop_receiver-Keeps,
}
use hwire.Http1.Dispatch.{Asked, message}
use hwire.Http1.Dispatch.Client.{
  Client, with_promises, drop_old, start_if, next_request, poll_msg, cancel_next, cancel_if,
  received, recv_msg, heard, ready_if, poll_ready, dropped, drop_client,
}

module _ {T Head B M I : Type 0} (into_parts : T → Head × B) (p : Oneshots T (M × I))
    (q : Queues (Envelope T (M × I) p)) (w : WantCrate) (ol : OneshotLaws p) (ql : QueueLaws q)
    (Belongs : ℕ → T → Type 0) where
  abbrev pub C : Type 0
  C = Client T Head B M I into_parts p q w

  abbrev Hs :
      p.Store → List (Envelope T (M × I) p) → Option (Callback T (M × I) p) → List ℕ → Type 0
  Hs = H p q w ol ql Belongs

  abbrev pub Keeps : C → List ℕ → Type 0
  Keeps c taken = Hs c.rx.promises (ql.queued c.rx.queue) c.callback taken

  -- The promise of the request that is under way
  abbrev pub under_way : Option (Callback T (M × I) p) → List ℕ
  under_way (some (some tx)) = ol.id tx ∷ []
  under_way _ = []

  abbrev pub taken_with : Asked Head B → C → List ℕ → List ℕ
  taken_with (message h b) c taken = under_way c.callback ++ taken
  taken_with _ c taken = taken

  abbrev pub AskKeeps : List ℕ → Option (Asked Head B × C) → Type 0
  AskKeeps taken none = ⊥
  AskKeeps taken (some (a, c)) = Keeps c (taken_with a c taken)

  -- The callback that is replaced is told.
  drop_old-Keeps :
      (s : p.Store) (es : List (Envelope T (M × I) p)) (cb : Option (Callback T (M × I) p))
      (taken : List ℕ)
      → Hs s es cb taken
      → Hs (drop_old T Head B M I into_parts p q w s cb) es none taken
  drop_old-Keeps s es none taken h = h
  drop_old-Keeps s es (some none) taken h = absurd (h.kept)
  drop_old-Keeps s es (some (some tx)) taken h =
      answer-Holds p ol Belongs h (refused (dispatch_gone (p.panicking s)) none) refl tt

  start_if-Keeps :
      (c : C) (v : T) (cb : Callback T (M × I) p) (taken : List ℕ)
      → Hs c.rx.promises (some (v, cb) ∷ ql.queued c.rx.queue) c.callback taken
      → AskKeeps taken (
          start_if T Head B M I into_parts p q w c v cb
            (poll_canceled T (M × I) p c.rx.promises cb))
  start_if-Keeps c v none taken h = h.full.0
  start_if-Keeps c v (some tx) taken h =
      go (p.poll_closed c.rx.promises tx) (poll-Holds p ol Belongs tx h)
    where
      go :
          (x : Bool × p.Store)
          → Hs x.1 (some (v, some tx) ∷ ql.queued c.rx.queue) c.callback taken
          → AskKeeps taken (start_if T Head B M I into_parts p q w c v (some tx) (some x))
      go (true, s) k = settle-Holds p ol Belongs k (dispatch_gone (p.panicking s)) none tt
      go (false, s) k =
          let (hd, b) = into_parts v in
          hand-Holds p ol Belongs (drop_old-Keeps s _ c.callback taken k)

  next_request-Keeps :
      (c : C) (taken : List ℕ) (x : Option (Next (T × Callback T (M × I) p) × Link T (M × I) p q w))
      → RecvKeeps p q w ol ql Belongs c.callback taken x
      → AskKeeps taken (next_request T Head B M I into_parts p q w c x)
  next_request-Keeps c taken none h = h
  next_request-Keeps c taken (some (waits, l)) h = h
  next_request-Keeps c taken (some (ended, l)) h = h
  next_request-Keeps c taken (some (item (v, cb), l)) h =
      start_if-Keeps (record c { rx = l }) v cb taken h

  pub poll_msg-Keeps :
      (c : C) (taken : List ℕ)
      → Keeps c taken
      → AskKeeps taken (poll_msg T Head B M I into_parts p q w c)
  unfolding poll_msg
  poll_msg-Keeps c taken h =
      next_request-Keeps c taken _ (poll_recv-Keeps p q w ol ql Belongs c.rx c.callback taken h)

  abbrev pub CallKeeps : {A : Type 0} → List ℕ → Option (A × C) → Type 0
  CallKeeps taken none = ⊥
  CallKeeps taken (some (a, c)) = Keeps c taken

  answer-Keeps :
      (c : C) (cb : Callback T (M × I) p) (taken : List ℕ)
      → Hs c.rx.promises (ql.queued c.rx.queue) (some cb) taken
      → (m : Error ⊎ (M × I))
      → CallKeeps taken (received T Head B M I into_parts p q w c (some cb) m)
  answer-Keeps c none taken h m = absurd (h.kept)
  answer-Keeps c (some tx) taken h (inr r) = answer-Holds p ol Belongs h (response r) refl tt
  answer-Keeps c (some tx) taken h (inl e) =
      answer-Holds p ol Belongs h (refused (connection_error e) none) refl tt

  cancel_next-Keeps :
      (c : C) (e : Error) (taken : List ℕ) (x : Envelope T (M × I) p × Link T (M × I) p q w)
      → NowKeeps p q w ol ql Belongs c.callback taken x
      → CallKeeps taken (cancel_next T Head B M I into_parts p q w c e x)
  cancel_next-Keeps c e taken (none, l) h = h
  cancel_next-Keeps c e taken (some (v, none), l) h = h.full.0
  cancel_next-Keeps c e taken (some (v, some tx), l) h =
      settle-Holds p ol Belongs h (canceled_by e) (some v) h.full.0

  pub recv_msg-Keeps :
      (c : C) (m : Error ⊎ (M × I)) (taken : List ℕ)
      → Keeps c taken
      → CallKeeps taken (recv_msg T Head B M I into_parts p q w c m)
  unfolding recv_msg
  recv_msg-Keeps c m taken h = go c.callback m h
    where
      cancelling :
          (b : Bool) (e : Error) → CallKeeps taken (cancel_if T Head B M I into_parts p q w b c e)
      cancelling true e = cancel_next-Keeps c e taken _ (
          try_recv-Keeps p q w ol ql Belongs (close T (M × I) p q w c.rx) c.callback taken
            (close-Keeps p q w ol ql Belongs c.rx c.callback taken h))
      cancelling false e = h

      go :
          (cb : Option (Callback T (M × I) p)) (m : Error ⊎ (M × I))
          → Hs c.rx.promises (ql.queued c.rx.queue) cb taken
          → CallKeeps taken (received T Head B M I into_parts p q w c cb m)
      go (some cb) m k = answer-Keeps c cb taken k m
      go none (inr r) k = h
      go none (inl e) k = cancelling (not c.rx_closed) e

  pub poll_ready-Keeps :
      (c : C) (taken : List ℕ)
      → Keeps c taken
      → CallKeeps taken (poll_ready T Head B M I into_parts p q w c)
  unfolding poll_ready
  poll_ready-Keeps c taken h = go c.callback h
    where
      polled :
          (x : Bool × p.Store)
          → Hs x.1 (ql.queued c.rx.queue) c.callback taken
          → CallKeeps taken (heard T Head B M I into_parts p q w c (some x))
      polled (true, s) k = k
      polled (false, s) k = k

      go :
          (cb : Option (Callback T (M × I) p))
          → Hs c.rx.promises (ql.queued c.rx.queue) cb taken
          → CallKeeps taken (ready_if T Head B M I into_parts p q w c cb)
      go none k = h
      go (some none) k = absurd (k.kept)
      go (some (some tx)) k = polled (p.poll_closed c.rx.promises tx) (poll-Holds p ol Belongs tx h)

  -- When a client is dropped, nothing waits any longer.
  abbrev pub AllTold : List ℕ → Option C → Type 0
  AllTold taken none = ⊥
  AllTold taken (some c) = Hs c.rx.promises [] none taken

  pub drop_client-AllTold :
      (c : C) (taken : List ℕ)
      → Keeps c taken
      → AllTold taken (drop_client T Head B M I into_parts p q w c)
  unfolding drop_client
  drop_client-AllTold c taken h = go _ (
      drop_receiver-Keeps p q w ol ql Belongs _ none taken
        (drop_old-Keeps c.rx.promises _ c.callback taken h))
    where
      go :
          (x : Option (Link T (M × I) p q w))
          → DropKeeps p q w ol ql Belongs none taken x
          → AllTold taken (
              dropped T Head B M I into_parts p q w
                (with_promises T Head B M I into_parts p q w c
                  (drop_old T Head B M I into_parts p q w c.rx.promises c.callback))
                x)
      go none k = k
      go (some l) (k, z) = subst (λ es. Hs l.promises es none taken) z k
