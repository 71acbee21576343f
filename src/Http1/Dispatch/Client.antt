-- ===== src/Http1/Dispatch/Client.antt =====
-- `Client` of proto/http1/dispatch.rs: the dispatch that takes requests from their channel and gives
-- the responses to their callbacks.
pub mod Kept
pub mod Answers
pub mod Failing
use hwire.Base.{Bool, true, false, not, ◌⊎◌, inl, inr, Option, none, some}
use hwire.Error.{Error, new_unexpected_message}
use hwire.Body.Incoming.{Next, waits, ended, item}
use hwire.Requests.{
  Answer, response, refused, connection_error, canceled_by, Oneshots, Queues, WantCrate, Callback,
  Envelope, poll_canceled, send_callback, drop_callback, Link, poll_recv, close, try_recv,
  drop_receiver,
}
use hwire.Http1.Dispatch.{Asked, not_asked, no_more, message, Heard, hears, deaf}

-- `H` is the head of a request, `B` its body, `M` the head of a response and `I` its body; a
-- request comes apart by `into_parts`.
module _ (T H B M I : Type 0) (into_parts : T → H × B) (p : Oneshots T (M × I))
    (q : Queues (Envelope T (M × I) p)) (w : WantCrate) where
  pub record Client : Type 0 where
    pub callback : Option (Callback T (M × I) p)
    pub rx : Link T (M × I) p q w
    pub rx_closed : Bool

  abbrev pub with_promises : Client → p.Store → Client
  with_promises c s = record c { rx = record c.rx { promises = s } }

  -- What the assignment of a callback drops
  abbrev pub drop_old : p.Store → Option (Callback T (M × I) p) → p.Store
  drop_old s none = s
  drop_old s (some cb) = drop_callback T (M × I) p s cb

  -- `poll_msg`; without a value, an `expect` fails.
  abbrev pub start : Client → Callback T (M × I) p → H × B → Asked H B × Client
  start c cb (h, b) = (
    message h b,
    record (with_promises c (drop_old c.rx.promises c.callback)) { callback = some cb },
  )

  abbrev pub start_if :
      Client → T → Callback T (M × I) p → Option (Bool × p.Store) → Option (Asked H B × Client)
  start_if c v cb none = none
  start_if c v cb (some (true, s)) =
      some (no_more, with_promises c (drop_callback T (M × I) p s cb))
  start_if c v cb (some (false, s)) = some (start (with_promises c s) cb (into_parts v))

  abbrev pub next_request :
      Client
      → Option (Next (T × Callback T (M × I) p) × Link T (M × I) p q w)
      → Option (Asked H B × Client)
  next_request c none = none
  next_request c (some (waits, l)) = some (not_asked, record c { rx = l })
  next_request c (some (ended, l)) = some (no_more, record c { rx = l; rx_closed = true })
  next_request c (some (item (v, cb), l)) =
      start_if (record c { rx = l }) v cb (poll_canceled T (M × I) p l.promises cb)

  unfoldable pub poll_msg : Client → Option (Asked H B × Client)
  unfolding poll_recv
  poll_msg c = next_request c (poll_recv T (M × I) p q w c.rx)

  -- `recv_msg`, with the error that it returns
  abbrev pub answered : Client → Option p.Store → Option (Option Error × Client)
  answered c none = none
  answered c (some s) = some (none, with_promises c s)

  abbrev pub answer :
      Client → Callback T (M × I) p → Answer T (M × I) → Option (Option Error × Client)
  answer c cb a =
      answered (record c { callback = none }) (send_callback T (M × I) p c.rx.promises cb a)

  abbrev pub cancel_next :
      Client → Error → Envelope T (M × I) p × Link T (M × I) p q w → Option (Option Error × Client)
  cancel_next c e (none, l) = some (some e, record c { rx = l })
  cancel_next c e (some (v, cb), l) =
      answered (record c { rx = l })
        (send_callback T (M × I) p l.promises cb (refused (canceled_by e) (some v)))

  abbrev pub cancel_if : Bool → Client → Error → Option (Option Error × Client)
  cancel_if true c e = cancel_next c e (try_recv T (M × I) p q w (close T (M × I) p q w c.rx))
  cancel_if false c e = some (some e, c)

  abbrev pub received :
      Client → Option (Callback T (M × I) p) → Error ⊎ (M × I) → Option (Option Error × Client)
  received c (some cb) (inr r) = answer c cb (response r)
  received c none (inr r) = some (some new_unexpected_message, c)
  received c (some cb) (inl e) = answer c cb (refused (connection_error e) none)
  received c none (inl e) = cancel_if (not c.rx_closed) c e

  unfoldable pub recv_msg : Client → Error ⊎ (M × I) → Option (Option Error × Client)
  unfolding close try_recv
  recv_msg c m = received c c.callback m

  -- `poll_ready`
  abbrev pub heard : Client → Option (Bool × p.Store) → Option (Heard × Client)
  heard c none = none
  heard c (some (true, s)) = some (deaf, with_promises c s)
  heard c (some (false, s)) = some (hears, with_promises c s)

  abbrev pub ready_if : Client → Option (Callback T (M × I) p) → Option (Heard × Client)
  ready_if c none = some (deaf, c)
  ready_if c (some cb) = heard c (poll_canceled T (M × I) p c.rx.promises cb)

  unfoldable pub poll_ready : Client → Option (Heard × Client)
  poll_ready c = ready_if c c.callback

  unfoldable pub should_poll : Client → Bool
  should_poll c = elim c.callback [ none ↦ true | some cb ↦ false ]

  -- The drop of a client: its callback, and then its receiver
  abbrev pub dropped : Client → Option (Link T (M × I) p q w) → Option Client
  dropped c none = none
  dropped c (some l) = some (record c { rx = l; callback = none })

  unfoldable pub drop_client : Client → Option Client
  unfolding drop_receiver
  drop_client c =
      let c' = with_promises c (drop_old c.rx.promises c.callback) in
      dropped c' (drop_receiver T (M × I) p q w c'.rx)
