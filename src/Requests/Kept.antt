-- ===== src/Requests/Kept.antt =====
-- What each call on the channel of requests keeps of the account of its promises.
use hwire.Base.{◌≡◌, subst, ℕ, Bool, true, false, not, ◌||◌, Option, none, some, List, [], ◌∷◌}
use hwire.Body.Incoming.{Next, waits, ended, item}
use hwire.Requests.{
  Answer, refused, connection_closed, dispatch_gone, Oneshots, Queues, WantCrate, Callback,
  Envelope, drop_rest, Link, Sent, sent_if, send_with, send_unbounded, send_if, given, try_send,
  recv_polled, poll_recv, close, taken_now, try_recv, drained, drop_receiver,
}
use hwire.Requests.Ledger.{Holds, issue-Holds, settle-Holds, queue-Holds}
use hwire.Requests.Laws.{QueueLaws, OneshotLaws, Sends, Takes, TakesNow}

module _ {T U : Type 0} (p : Oneshots T U) (q : Queues (Envelope T U p)) (w : WantCrate)
    (ol : OneshotLaws p) (ql : QueueLaws q) (Belongs : ℕ → T → Type 0) where
  abbrev pub L : Type 0
  L = Link T U p q w

  abbrev pub H : p.Store → List (Envelope T U p) → Option (Callback T U p) → List ℕ → Type 0
  H s es cb taken = Holds p ol Belongs s es cb taken

  abbrev pub Kept : L → Option (Callback T U p) → List ℕ → Type 0
  Kept l cb taken = H l.promises (ql.queued l.queue) cb taken

  -- A call of a sender that does not panic
  abbrev pub SendKeeps : Option (Callback T U p) → List ℕ → Option (Sent T U p q w × L) → Type 0
  SendKeeps cb taken none = ⊥
  SendKeeps cb taken (some (x, l)) = Kept l cb taken

  sent_if-Keeps :
      (l : L) (rx : p.Rx) (v : T) (tx : p.Tx) (cb : Option (Callback T U p)) (taken : List ℕ)
      (k : q.Queue) (x : Bool × q.Queue)
      → H l.promises (some (v, some tx) ∷ ql.queued k) cb taken
      → Sends ql.queued k (some (v, some tx)) x
      → SendKeeps cb taken (sent_if T U p q w l rx (some (v, some tx)) x)
  sent_if-Keeps l rx v tx cb taken k (true, k') h e = rw e (queue-Holds p ol Belongs h)
  sent_if-Keeps l rx v tx cb taken k (false, k') h e =
      rw e (settle-Holds p ol Belongs h (dispatch_gone (p.panicking l.promises)) none tt)

  pub send_unbounded-Keeps :
      (l : L) (v : T) (cb : Option (Callback T U p)) (taken : List ℕ)
      → Kept l cb taken
      → Belongs (ol.id (p.channel l.promises).0.0) v
      → SendKeeps cb taken (send_unbounded T U p q w l v)
  unfolding send_unbounded
  send_unbounded-Keeps l v cb taken h b =
      let ((tx, rx), s) = p.channel l.promises in
      sent_if-Keeps (record l { promises = s }) rx v tx cb taken l.queue _
        (issue-Holds p ol Belongs h b) (ql.sends l.queue (some (v, some tx)))

  pub try_send-Keeps :
      (l : L) (v : T) (cb : Option (Callback T U p)) (taken : List ℕ)
      → Kept l cb taken
      → Belongs (ol.id (p.channel l.promises).0.0) v
      → SendKeeps cb taken (try_send T U p q w l v)
  unfolding try_send
  try_send-Keeps l v cb taken h b = go (w.give l.want)
    where
      sending :
          (g : Bool) (x : w.Want)
          → SendKeeps cb taken (send_if T U p q w g (record l { want = x }) v)
      sending true x =
          send_unbounded-Keeps (record l { want = x; buffered_once = true }) v cb taken h b
      sending false x = h

      go : (x : Bool × w.Want) → SendKeeps cb taken (given T U p q w l v x)
      go (g, x) = sending (g || not l.buffered_once) x

  -- A receiver takes an envelope, which is full, from the front.
  abbrev pub RecvKeeps :
      Option (Callback T U p) → List ℕ → Option (Next (T × Callback T U p) × L) → Type 0
  RecvKeeps cb taken none = ⊥
  RecvKeeps cb taken (some (item x, l)) = H l.promises (some x ∷ ql.queued l.queue) cb taken
  RecvKeeps cb taken (some (_, l)) = Kept l cb taken

  recv_polled-Keeps :
      (l : L) (cb : Option (Callback T U p)) (taken : List ℕ) (x : Next (Envelope T U p) × q.Queue)
      → Kept l cb taken
      → Takes ql.queued l.queue x
      → RecvKeeps cb taken (recv_polled T U p q w l x)
  recv_polled-Keeps l cb taken (waits, k) h e = rw e h
  recv_polled-Keeps l cb taken (ended, k) h e = rw e h
  recv_polled-Keeps l cb taken (item none, k) h e =
      (subst (λ es. H l.promises es cb taken) e h).full.0
  recv_polled-Keeps l cb taken (item (some x), k) h e = subst (λ es. H l.promises es cb taken) e h

  pub poll_recv-Keeps :
      (l : L) (cb : Option (Callback T U p)) (taken : List ℕ)
      → Kept l cb taken
      → RecvKeeps cb taken (poll_recv T U p q w l)
  unfolding poll_recv
  poll_recv-Keeps l cb taken h = recv_polled-Keeps l cb taken _ h (ql.takes l.queue)

  abbrev pub NowKeeps : Option (Callback T U p) → List ℕ → Envelope T U p × L → Type 0
  NowKeeps cb taken (none, l) = Kept l cb taken
  NowKeeps cb taken (some x, l) = H l.promises (some x ∷ ql.queued l.queue) cb taken

  taken_now-Keeps :
      (l : L) (cb : Option (Callback T U p)) (taken : List ℕ)
      (x : Option (Envelope T U p) × q.Queue)
      → Kept l cb taken
      → TakesNow ql.queued l.queue x
      → NowKeeps cb taken (taken_now T U p q w l x)
  taken_now-Keeps l cb taken (none, k) h e = rw e h
  taken_now-Keeps l cb taken (some none, k) h e =
      absurd ((subst (λ es. H l.promises es cb taken) e h).full.0)
  taken_now-Keeps l cb taken (some (some x), k) h e = subst (λ es. H l.promises es cb taken) e h

  pub try_recv-Keeps :
      (l : L) (cb : Option (Callback T U p)) (taken : List ℕ)
      → Kept l cb taken
      → NowKeeps cb taken (try_recv T U p q w l)
  unfolding try_recv
  try_recv-Keeps l cb taken h = taken_now-Keeps l cb taken _ h (ql.takes_now l.queue)

  pub close-Keeps :
      (l : L) (cb : Option (Callback T U p)) (taken : List ℕ)
      → Kept l cb taken
      → Kept (close T U p q w l) cb taken
  unfolding close
  close-Keeps l cb taken h = rw (ql.closes l.queue) h

  -- Once a receiver is dropped, no envelope waits.
  abbrev pub DropKeeps : Option (Callback T U p) → List ℕ → Option L → Type 0
  DropKeeps cb taken none = ⊥
  DropKeeps cb taken (some l) = Kept l cb taken × (ql.queued l.queue ≡ [])

  abbrev RestKeeps : Option (Callback T U p) → List ℕ → Option p.Store → Type 0
  RestKeeps cb taken none = ⊥
  RestKeeps cb taken (some s) = H s [] cb taken

  drop_rest-Keeps :
      (es : List (Envelope T U p)) (s : p.Store) (cb : Option (Callback T U p)) (taken : List ℕ)
      → H s es cb taken
      → RestKeeps cb taken (drop_rest T U p (some s) es)
  drop_rest-Keeps [] s cb taken h = h
  drop_rest-Keeps (none ∷ es) s cb taken h = absurd (h.full.0)
  drop_rest-Keeps (some (v, none) ∷ es) s cb taken h = absurd (h.full.0)
  drop_rest-Keeps (some (v, some tx) ∷ es) s cb taken h =
      drop_rest-Keeps es (p.send s tx (refused connection_closed (some v))) cb taken
        (settle-Holds p ol Belongs h connection_closed (some v) h.full.0)

  drained-Keeps :
      (l : L) (cb : Option (Callback T U p)) (taken : List ℕ) (x : List (Envelope T U p) × q.Queue)
      → Kept l cb taken
      → (x.0 ≡ ql.queued l.queue) × (ql.queued x.1 ≡ [])
      → DropKeeps cb taken (drained T U p q w l x)
  drained-Keeps l cb taken (es, k) h (e, z) = go _ (drop_rest-Keeps es l.promises cb taken (rw e h))
    where
      go :
          (r : Option p.Store)
          → RestKeeps cb taken r
          → DropKeeps cb taken (hwire.Requests.with_promises T U p q w (record l { queue = k }) r)
      go none g = g
      go (some s) g = (rw z g, z)

  pub drop_receiver-Keeps :
      (l : L) (cb : Option (Callback T U p)) (taken : List ℕ)
      → Kept l cb taken
      → DropKeeps cb taken (drop_receiver T U p q w l)
  unfolding drop_receiver
  drop_receiver-Keeps l cb taken h = drained-Keeps _ cb taken _ h (ql.drains l.queue)
