-- ===== src/Http1/Dispatch/Client/Failing.antt =====
-- Where `Client::recv_msg` sends an error of the connection.
use hwire.Base.{
  ap, ℕ, ◌≡◌, refl, sym, subst, ◌∙◌, Bool, true, false, not, Option, none, some, List, ◌∷◌, inl,
}
use hwire.Error.{Error}
use hwire.Requests.{
  Oneshots, Queues, WantCrate, Callback, Envelope, refused, connection_error, canceled_by, close,
  try_recv, taken_now,
}
use hwire.Requests.Ledger.{AreFull, IsHeld}
use hwire.Requests.Laws.{QueueLaws, OneshotLaws, TakesNow}
use hwire.Http1.Dispatch.Client.{Client, recv_msg, received, cancel_if, cancel_next}
use hwire.Http1.Dispatch.Client.Kept.{Keeps}
use hwire.Http1.Dispatch.Client.Answers.{Run, Run-Keeps}

module _ {T Head B M I : Type 0} (into_parts : T → Head × B) (p : Oneshots T (M × I))
    (q : Queues (Envelope T (M × I) p)) (w : WantCrate) (ol : OneshotLaws p) (ql : QueueLaws q)
    (Belongs : ℕ → T → Type 0) where
  abbrev pub S : Type 0
  S = Client T Head B M I into_parts p q w

  -- The queue of a client after it is closed and tried for a request
  abbrev pub tried : S → Option (Envelope T (M × I) p) × q.Queue
  tried c = q.recv_now (q.close c.rx.queue)

  -- From `c` to `c'`, the error goes to the callback of the request under way, or else to that of the
  -- request that the closed queue gives, and the request with it. To the caller it goes only where
  -- that queue gives none, or where the receiver was closed before.
  pub data Tells (c c' : S) (e : Error) : Option Error → Type 0 where
    to_callback :
        (tx : p.Tx)
        → c.callback ≡ some (some tx)
        → c'.callback ≡ none
        → ol.told c'.rx.promises
          ≡ (ol.id tx, refused (connection_error e) none) ∷ ol.told c.rx.promises
        → Tells c c' e none
    to_queued :
        (v : T) (tx : p.Tx)
        → c.callback ≡ none
        → c.rx_closed ≡ false
        → (tried c).0 ≡ some (some (v, some tx))
        → c'.rx.queue ≡ (tried c).1
        → ql.queued c.rx.queue ≡ some (v, some tx) ∷ ql.queued c'.rx.queue
        → ol.told c'.rx.promises
          ≡ (ol.id tx, refused (canceled_by e) (some v)) ∷ ol.told c.rx.promises
        → Tells c c' e none
    none_queued :
        c.callback ≡ none
        → c.rx_closed ≡ false
        → (tried c).0 ≡ none
        → c'.rx.queue ≡ (tried c).1
        → ql.queued c'.rx.queue ≡ ql.queued c.rx.queue
        → ol.told c'.rx.promises ≡ ol.told c.rx.promises
        → Tells c c' e (some e)
    was_closed : c.callback ≡ none → c.rx_closed ≡ true → c' ≡ c → Tells c c' e (some e)

  abbrev pub TellsOnce : S → Error → Option (Option Error × S) → Type 0
  TellsOnce c e none = ⊥
  TellsOnce c e (some (r, c')) = Tells c c' e r

  queued-Tells :
      (c : S) (e : Error) (taken : List ℕ)
      → Keeps into_parts p q w ol ql Belongs c taken
      → c.callback ≡ none
      → c.rx_closed ≡ false
      → (x : Option (Envelope T (M × I) p) × q.Queue) → tried c ≡ x
      → TakesNow ql.queued (close T (M × I) p q w c.rx).queue x
      → TellsOnce c e (
          cancel_next T Head B M I into_parts p q w c e
            (taken_now T (M × I) p q w (close T (M × I) p q w c.rx) x))
  unfolding close
  queued-Tells c e taken h z o (none, k) t y =
      none_queued z o (ap (λ x. x.0) t) (sym (ap (λ x. x.1) t)) (y ∙ ql.closes c.rx.queue) refl
  queued-Tells c e taken h z o (some none, k) t y =
      absurd ((subst (AreFull p ol Belongs) (sym (ql.closes c.rx.queue) ∙ y) h.full).0)
  queued-Tells c e taken h z o (some (some (v, none)), k) t y =
      absurd ((subst (AreFull p ol Belongs) (sym (ql.closes c.rx.queue) ∙ y) h.full).0)
  queued-Tells c e taken h z o (some (some (v, some tx)), k) t y =
      to_queued v tx z o (ap (λ x. x.0) t) (sym (ap (λ x. x.1) t)) (sym (ql.closes c.rx.queue) ∙ y)
        (ol.sends c.rx.promises tx (refused (canceled_by e) (some v))).0

  -- Whatever the calls that led to a client: an error of the connection is told once. It goes to the
  -- callback of the request under way; where there is none, the queue is closed and tried, and the
  -- error goes to the callback of the request that it gives, which was not begun and is given back.
  -- Only where the queue gives none, or the receiver was closed before, it goes back to the caller.
  pub recv_msg-TellsOnce :
      (c : S) (taken : List ℕ) (e : Error)
      → Run into_parts p q w ol ql Belongs c taken
      → TellsOnce c e (recv_msg T Head B M I into_parts p q w c (inl e))
  unfolding recv_msg try_recv
  recv_msg-TellsOnce c taken e r =
      let h = Run-Keeps into_parts p q w ol ql Belongs r in go c.callback refl h
    where
      cancelling :
          Keeps into_parts p q w ol ql Belongs c taken
          → c.callback ≡ none
          → (b : Bool) → c.rx_closed ≡ b
          → TellsOnce c e (cancel_if T Head B M I into_parts p q w (not b) c e)
      cancelling h z false o = queued-Tells c e taken h z o _ refl (ql.takes_now _)
      cancelling h z true o = was_closed z o refl

      go :
          (cb : Option (Callback T (M × I) p))
          → c.callback ≡ cb
          → Keeps into_parts p q w ol ql Belongs c taken
          → TellsOnce c e (received T Head B M I into_parts p q w c cb (inl e))
      go none z h = cancelling h z c.rx_closed refl
      go (some none) z h = absurd (subst (IsHeld p ol Belongs) z h.kept)
      go (some (some tx)) z h =
          to_callback tx z refl (ol.sends c.rx.promises tx (refused (connection_error e) none)).0
