-- ===== src/Requests.antt =====
-- dispatch.rs: the channel of requests between a sender and a connection, with the callbacks that
-- carry the answers.
pub mod Laws
pub mod Ledger
pub mod Kept
use hwire.Base.{Bool, true, false, not, ◌||◌, Option, none, some, List, [], ◌∷◌}
use hwire.Error.{Error}
use hwire.Body.Incoming.{Next, waits, ended, item}

-- The error that comes with a request: one of the connection, `new_canceled` with an error of the
-- connection or with "connection closed" as its cause, and `dispatch_gone`, whose text depends on
-- whether the thread panics
pub data Reason : Type 0 where
  connection_error canceled_by : Error → Reason
  connection_closed : Reason
  dispatch_gone : (panicking : Bool) → Reason

-- `Result<U, TrySendError<T>>`
pub data Answer (T U : Type 0) : Type 0 where
  response : U → Answer T U
  refused : Reason → Option T → Answer T U

-- `oneshot` of tokio, and `std::thread::panicking`
pub record Oneshots (T U : Type 0) : Type 1 where
  pub Store : Type 0
  pub Tx : Type 0
  pub Rx : Type 0
  pub channel : Store → (Tx × Rx) × Store
  pub send : Store → Tx → Answer T U → Store
  pub is_closed : Store → Tx → Bool
  pub poll_closed : Store → Tx → Bool × Store
  pub panicking : Store → Bool

-- `mpsc::unbounded_channel` of tokio, both ends together
pub record Queues (E : Type 0) : Type 1 where
  pub Queue : Type 0
  pub no_items : Queue
  pub send : Queue → E → Bool × Queue
  pub poll_recv : Queue → Next E × Queue
  -- `recv().now_or_never()`
  pub recv_now : Queue → Option E × Queue
  pub close : Queue → Queue
  -- what the drop of the receiver drops
  pub drain : Queue → List E × Queue

-- `poll_want`
pub data Wanted : Type 0 where
  not_wanted wanted gone : Wanted

-- The crate `want`, both ends together
pub record WantCrate : Type 1 where
  pub Want : Type 0
  pub new_want : Want
  pub give : Want → Bool × Want
  pub is_wanting : Want → Bool
  pub is_canceled : Want → Bool
  pub poll_want : Want → Wanted × Want
  pub want : Want → Want
  pub cancel : Want → Want

module _ (T U : Type 0) (p : Oneshots T U) where
  -- `Callback` and `Envelope`, empty where they were taken
  abbrev pub Callback : Type 0
  Callback = Option p.Tx

  abbrev pub Envelope : Type 0
  Envelope = Option (T × Callback)

  -- `Callback::is_canceled`; without a value, an `expect` fails.
  unfoldable pub is_canceled : p.Store → Callback → Option Bool
  is_canceled s none = none
  is_canceled s (some tx) = some (p.is_closed s tx)

  abbrev pub poll_canceled : p.Store → Callback → Option (Bool × p.Store)
  poll_canceled s none = none
  poll_canceled s (some tx) = some (p.poll_closed s tx)

  abbrev pub send_callback : p.Store → Callback → Answer T U → Option p.Store
  send_callback s none a = none
  send_callback s (some tx) a = some (p.send s tx a)

  -- `Callback::drop`, with `dispatch_gone`
  abbrev pub drop_callback : p.Store → Callback → p.Store
  drop_callback s none = s
  drop_callback s (some tx) = p.send s tx (refused (dispatch_gone (p.panicking s)) none)

  -- `Envelope::drop`
  abbrev pub drop_envelope : p.Store → Envelope → Option p.Store
  drop_envelope s none = some s
  drop_envelope s (some (v, cb)) = send_callback s cb (refused connection_closed (some v))

  abbrev pub drop_rest : Option p.Store → List Envelope → Option p.Store
  drop_rest s [] = s
  drop_rest none (e ∷ es) = none
  drop_rest (some s) (e ∷ es) = drop_rest (drop_envelope s e) es

  module _ (q : Queues Envelope) (w : WantCrate) where
    -- `Sender` and `Receiver`, and what they share
    pub record Link : Type 0 where
      pub buffered_once : Bool
      pub want : w.Want
      pub queue : q.Queue
      pub promises : p.Store

    -- `channel`, over the promises that there are
    unfoldable pub channel : p.Store → Link
    channel s = record {
      buffered_once = false;
      want = w.new_want;
      queue = q.no_items;
      promises = s;
    }

    -- `Sender::is_ready` and `poll_ready`
    unfoldable pub is_ready : Link → Bool
    is_ready l = w.is_wanting l.want

    abbrev pub polled_want : Link → Wanted × w.Want → Wanted × Link
    polled_want l (x, v) = (x, record l { want = v })

    unfoldable pub poll_ready : Link → Wanted × Link
    poll_ready l = polled_want l (w.poll_want l.want)

    -- `UnboundedSender::is_closed`
    unfoldable pub is_closed : Link → Bool
    is_closed l = w.is_canceled l.want

    -- A request that was sent, with the promise of its answer, or that is given back
    pub data Sent : Type 0 where
      promised : p.Rx → Sent
      returned : T → Sent

    abbrev pub envelope_back : Link → Envelope → Option (Sent × Link)
    envelope_back l none = none
    envelope_back l (some (v, cb)) =
        some (returned v, record l { promises = drop_callback l.promises cb })

    abbrev pub sent_if : Link → p.Rx → Envelope → Bool × q.Queue → Option (Sent × Link)
    sent_if l rx e (true, k) = some (promised rx, record l { queue = k })
    sent_if l rx e (false, k) = envelope_back (record l { queue = k }) e

    abbrev pub send_with : Link → T → (p.Tx × p.Rx) × p.Store → Option (Sent × Link)
    send_with l v ((tx, rx), s) =
        sent_if (record l { promises = s }) rx (some (v, some tx))
          (q.send l.queue (some (v, some tx)))

    -- `UnboundedSender::try_send`
    unfoldable pub send_unbounded : Link → T → Option (Sent × Link)
    send_unbounded l v = send_with l v (p.channel l.promises)

    -- `Sender::try_send`: one request may go ahead of the receiver's asking.
    abbrev pub send_if : Bool → Link → T → Option (Sent × Link)
    send_if true l v = send_unbounded (record l { buffered_once = true }) v
    send_if false l v = some (returned v, l)

    abbrev pub given : Link → T → Bool × w.Want → Option (Sent × Link)
    given l v (g, x) = send_if (g || not l.buffered_once) (record l { want = x }) v

    unfoldable pub try_send : Link → T → Option (Sent × Link)
    unfolding send_unbounded
    try_send l v = given l v (w.give l.want)

    -- `Receiver::poll_recv`
    abbrev pub opened : Link → Envelope → Option (Next (T × Callback) × Link)
    opened l none = none
    opened l (some x) = some (item x, l)

    abbrev pub recv_polled : Link → Next Envelope × q.Queue → Option (Next (T × Callback) × Link)
    recv_polled l (waits, k) = some (waits, record l { queue = k; want = w.want l.want })
    recv_polled l (ended, k) = some (ended, record l { queue = k })
    recv_polled l (item e, k) = opened (record l { queue = k }) e

    unfoldable pub poll_recv : Link → Option (Next (T × Callback) × Link)
    poll_recv l = recv_polled l (q.poll_recv l.queue)

    -- `Receiver::close`
    unfoldable pub close : Link → Link
    close l = record l { want = w.cancel l.want; queue = q.close l.queue }

    -- `Receiver::try_recv`
    abbrev pub taken_now : Link → Option Envelope × q.Queue → Envelope × Link
    taken_now l (none, k) = (none, record l { queue = k })
    taken_now l (some e, k) = (e, record l { queue = k })

    unfoldable pub try_recv : Link → Envelope × Link
    try_recv l = taken_now l (q.recv_now l.queue)

    -- `Receiver::drop`, and then that of its queue
    abbrev pub with_promises : Link → Option p.Store → Option Link
    with_promises l none = none
    with_promises l (some s) = some (record l { promises = s })

    abbrev pub drained : Link → List Envelope × q.Queue → Option Link
    drained l (es, k) = with_promises (record l { queue = k }) (drop_rest (some l.promises) es)

    unfoldable pub drop_receiver : Link → Option Link
    drop_receiver l = drained (record l { want = w.cancel l.want }) (q.drain l.queue)
