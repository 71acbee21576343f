-- ===== src/Requests/Laws.antt =====
-- What the channel of requests relies on of tokio.
use hwire.Base.{ℕ, suc, ◌≡◌, Bool, true, false, Option, none, some, List, [], ◌∷◌, ◌++◌}
use hwire.Body.Incoming.{Next, item}
use hwire.Requests.{Answer, Oneshots, Queues}

-- A queue takes an item behind those that it holds, or not at all.
abbrev pub Sends : {Q E : Type 0} → (Q → List E) → Q → E → Bool × Q → Type 0
Sends queued k e (true, k') = queued k' ≡ queued k ++ e ∷ []
Sends queued k e (false, k') = queued k' ≡ queued k

-- A queue gives its items from the front.
abbrev pub Takes : {Q E : Type 0} → (Q → List E) → Q → Next E × Q → Type 0
Takes queued k (item e, k') = queued k ≡ e ∷ queued k'
Takes queued k (_, k') = queued k' ≡ queued k

abbrev pub TakesNow : {Q E : Type 0} → (Q → List E) → Q → Option E × Q → Type 0
TakesNow queued k (some e, k') = queued k ≡ e ∷ queued k'
TakesNow queued k (none, k') = queued k' ≡ queued k

pub record QueueLaws {E : Type 0} (q : Queues E) : Type 0 where
  pub queued : q.Queue → List E
  pub starts : queued q.no_items ≡ []
  pub sends : (k : q.Queue) (e : E) → Sends queued k e (q.send k e)
  pub takes : (k : q.Queue) → Takes queued k (q.poll_recv k)
  pub takes_now : (k : q.Queue) → TakesNow queued k (q.recv_now k)
  pub closes : (k : q.Queue) → queued (q.close k) ≡ queued k
  pub drains : (k : q.Queue) → ((q.drain k).0 ≡ queued k) × (queued (q.drain k).1 ≡ [])

-- A sender of a `oneshot` is used once, so `told` has an entry for each that was.
pub record OneshotLaws {T U : Type 0} (p : Oneshots T U) : Type 0 where
  pub id : p.Tx → ℕ
  pub issued : p.Store → ℕ
  pub told : p.Store → List (ℕ × Answer T U)
  pub channels :
      (s : p.Store)
      → (id (p.channel s).0.0 ≡ issued s)
        × ((issued (p.channel s).1 ≡ suc (issued s)) × (told (p.channel s).1 ≡ told s))
  pub sends :
      (s : p.Store) (tx : p.Tx) (a : Answer T U)
      → (told (p.send s tx a) ≡ (id tx, a) ∷ told s) × (issued (p.send s tx a) ≡ issued s)
  pub polls :
      (s : p.Store) (tx : p.Tx)
      → (told (p.poll_closed s tx).1 ≡ told s) × (issued (p.poll_closed s tx).1 ≡ issued s)
