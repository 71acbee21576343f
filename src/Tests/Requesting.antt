-- ===== src/Tests/Requesting.antt =====
-- The client's dispatch with requests that are numbers.
use hwire.Base.{
  ℕ, suc, ◌+◌, ◌≡◌, refl, Bool, true, false, Option, none, some, List, [], ◌∷◌, ◌++◌, inl,
}
use hwire.Error.{new_error, ErrorKind}
use hwire.Body.Incoming.{Next, waits, ended, item}
use hwire.Requests.{
  connection_error, Answer, response, refused, Oneshots, Queues, WantCrate, not_wanted, wanted,
  Wanted, Envelope, canceled_by,
}
use hwire.Requests
use hwire.Requests.Laws.{QueueLaws, OneshotLaws, Sends, Takes, TakesNow}
use hwire.Http1.Dispatch.Client.{Client, poll_msg, recv_msg}
use hwire.Http1.Dispatch.Client.Answers.{
  new_client, Run, starts, sends, asks, receives, new_client, Answered, Run-Answered,
}
use hwire.Http1.Dispatch.Client.Failing.{TellsOnce, recv_msg-TellsOnce}

-- Promises by their numbers, with what they were told
abbrev oneshots : (T U : Type 0) → Oneshots T U
oneshots T U = record {
  Store = ℕ × List (ℕ × Answer T U);
  Tx = ℕ;
  Rx = ℕ;
  channel = λ s. ((s.0, s.0), (suc s.0, s.1));
  send = λ s tx a. (s.0, (tx, a) ∷ s.1);
  is_closed = λ s tx. false;
  poll_closed = λ s tx. (false, s);
  panicking = λ s. false;
}

abbrev oneshots-laws : (T U : Type 0) → OneshotLaws (oneshots T U)
oneshots-laws T U = record {
  id = λ tx. tx;
  issued = λ s. s.0;
  told = λ s. s.1;
  channels = λ s. (refl, (refl, refl));
  sends = λ s tx a. (refl, refl);
  polls = λ s tx. (refl, refl);
}

-- A queue, and whether it is closed
abbrev put : {E : Type 0} → List E × Bool → E → Bool × (List E × Bool)
put (es, true) e = (false, (es, true))
put (es, false) e = (true, (es ++ e ∷ [], false))

abbrev get : {E : Type 0} → List E × Bool → Next E × (List E × Bool)
get ([], true) = (ended, ([], true))
get ([], false) = (waits, ([], false))
get (e ∷ es, b) = (item e, (es, b))

abbrev get_now : {E : Type 0} → List E × Bool → Option E × (List E × Bool)
get_now ([], b) = (none, ([], b))
get_now (e ∷ es, b) = (some e, (es, b))

abbrev queues : (E : Type 0) → Queues E
queues E = record {
  Queue = List E × Bool;
  no_items = ([], false);
  send = put;
  poll_recv = get;
  recv_now = get_now;
  close = λ k. (k.0, true);
  drain = λ k. (k.0, ([], true));
}

put-Sends : {E : Type 0} (k : List E × Bool) (e : E) → Sends (λ x. x.0) k e (put k e)
put-Sends (es, true) e = refl
put-Sends (es, false) e = refl

get-Takes : {E : Type 0} (k : List E × Bool) → Takes (λ x. x.0) k (get k)
get-Takes ([], true) = refl
get-Takes ([], false) = refl
get-Takes (e ∷ es, b) = refl

get_now-Takes : {E : Type 0} (k : List E × Bool) → TakesNow (λ x. x.0) k (get_now k)
get_now-Takes ([], b) = refl
get_now-Takes (e ∷ es, b) = refl

abbrev queues-laws : (E : Type 0) → QueueLaws (queues E)
queues-laws E = record {
  queued = λ k. k.0;
  starts = refl;
  sends = put-Sends;
  takes = get-Takes;
  takes_now = get_now-Takes;
  closes = λ k. refl;
  drains = λ k. (refl, refl);
}

abbrev if_wanted : Bool → Wanted
if_wanted true = wanted
if_wanted false = not_wanted

-- Whether the receiver asked, and whether it is gone
abbrev wants : WantCrate
wants = record {
  Want = Bool;
  new_want = false;
  give = λ x. (x, false);
  is_wanting = λ x. x;
  is_canceled = λ x. false;
  poll_want = λ x. (if_wanted x, x);
  want = λ x. true;
  cancel = λ x. false;
}

-- Requests are numbers, whose heads are the numbers and whose bodies are empty.
abbrev split : ℕ → ℕ × Unit {0}
split n = (n, tt)

abbrev Belongs : ℕ → ℕ → Type 0
Belongs m v = v ≡ 7 + m

abbrev Small : Type 0
Small = Client ℕ ℕ (Unit {0}) ℕ (Unit {0}) split (oneshots ℕ (ℕ × Unit)) (queues _) wants

abbrev RunSmall : Small → List ℕ → Type 0
RunSmall =
    Run split (oneshots ℕ (ℕ × Unit)) (queues _) wants (oneshots-laws _ _) (queues-laws _) Belongs

-- Two requests are sent, the first is taken, and the connection fails: its callback has the error.
abbrev two_sent : Small
two_sent = record {
  callback = none;
  rx = record {
    buffered_once = true;
    want = false;
    queue = (some (8, some 1) ∷ [], false);
    promises = (2, (0, refused (connection_error (new_error ErrorKind.io)) none) ∷ []);
  };
  rx_closed = false;
}

two_sent-Run : RunSmall two_sent (0 ∷ [])
unfolding new_client Requests.channel Requests.try_send Requests.send_unbounded poll_msg
    Requests.poll_recv recv_msg
two_sent-Run =
    receives (inl (new_error ErrorKind.io))
      (sends 8 (asks (asks (sends 7 (starts (0, []) refl refl) refl refl) refl) refl) refl refl)
      refl

Run-Answered_example :
    Answered split
      (oneshots ℕ (ℕ × Unit))
      (queues _)
      wants
      (oneshots-laws _ _)
      (queues-laws _)
      Belongs
      two_sent
      (0 ∷ [])
Run-Answered_example =
    Run-Answered split (oneshots ℕ (ℕ × Unit)) (queues _) wants (oneshots-laws _ _) (queues-laws _)
      Belongs two_sent-Run

-- Nothing is under way, and one request waits, which is given back.
recv_msg-TellsOnce_example :
    TellsOnce split
      (oneshots ℕ (ℕ × Unit))
      (queues _)
      wants
      (oneshots-laws _ _)
      (queues-laws _)
      Belongs
      two_sent
      (new_error ErrorKind.io)
      (recv_msg _ _ _ _ _ split
        (oneshots ℕ (ℕ × Unit))
        (queues _)
        wants
        two_sent
        (inl (new_error ErrorKind.io)))
recv_msg-TellsOnce_example =
    recv_msg-TellsOnce split (oneshots ℕ (ℕ × Unit)) (queues _) wants (oneshots-laws _ _)
      (queues-laws _) Belongs two_sent (0 ∷ []) (new_error ErrorKind.io) two_sent-Run
