-- ===== src/Http1/Dispatch/Client/Answers.antt =====
-- The calls of the sender of requests and of the connection in any order, and the answers.
use hwire.Base.{false, ℕ, ◌+◌, ◌≤◌, ◌≡◌, ◌≢◌, subst, Option, none, some, List, [], ◌⊎◌, arith}
use hwire.Error.{Error}
use hwire.Requests.{
  Oneshots, Queues, WantCrate, Envelope, Link, Sent, channel, try_send, send_unbounded,
}
use hwire.Requests.Ledger.{Holds, tally, any, gives_back, responds, count, given_out, AreOwn}
use hwire.Requests.Laws.{QueueLaws, OneshotLaws}
use hwire.Requests.Kept.{SendKeeps, try_send-Keeps, send_unbounded-Keeps}
use hwire.Http1.Dispatch.{Asked, Heard}
use hwire.Http1.Dispatch.Client.{Client, poll_msg, recv_msg, poll_ready, drop_client}
use hwire.Http1.Dispatch.Client.Kept.{
  Keeps, taken_with, AskKeeps, CallKeeps, poll_msg-Keeps, recv_msg-Keeps, poll_ready-Keeps, AllTold,
  drop_client-AllTold,
}

module _ {T Head B M I : Type 0} (into_parts : T → Head × B) (p : Oneshots T (M × I))
    (q : Queues (Envelope T (M × I) p)) (w : WantCrate) (ol : OneshotLaws p) (ql : QueueLaws q)
    (Belongs : ℕ → T → Type 0) where
  abbrev pub S : Type 0
  S = Client T Head B M I into_parts p q w

  -- `Client::new`, over the promises that there are
  unfoldable pub new_client : p.Store → S
  unfolding channel
  new_client s = record { callback = none; rx = channel T (M × I) p q w s; rx_closed = false }

  abbrev pub with_rx : S → Link T (M × I) p q w → S
  with_rx c l = record c { rx = l }

  -- The calls of both sides, with the promises whose requests the connection took; each promise
  -- belongs to the request that it is made for.
  pub data Run : S → List ℕ → Type 0 where
    starts : (s : p.Store) → ol.told s ≡ [] → ol.issued s ≡ 0 → Run (new_client s) []
    sends :
        {c : S} {taken : List ℕ} {x : Sent T (M × I) p q w} {l : Link T (M × I) p q w} (v : T)
        → Run c taken
        → Belongs (ol.id (p.channel c.rx.promises).0.0) v
        → try_send T (M × I) p q w c.rx v ≡ some (x, l)
        → Run (with_rx c l) taken
    sends_unbounded :
        {c : S} {taken : List ℕ} {x : Sent T (M × I) p q w} {l : Link T (M × I) p q w} (v : T)
        → Run c taken
        → Belongs (ol.id (p.channel c.rx.promises).0.0) v
        → send_unbounded T (M × I) p q w c.rx v ≡ some (x, l)
        → Run (with_rx c l) taken
    asks :
        {c c' : S} {taken : List ℕ} {a : Asked Head B}
        → Run c taken
        → poll_msg T Head B M I into_parts p q w c ≡ some (a, c')
        → Run c' (taken_with into_parts p q w ol ql Belongs a c' taken)
    hears :
        {c c' : S} {taken : List ℕ} {a : Heard}
        → Run c taken
        → poll_ready T Head B M I into_parts p q w c ≡ some (a, c')
        → Run c' taken
    receives :
        {c c' : S} {taken : List ℕ} {e : Option Error} (m : Error ⊎ (M × I))
        → Run c taken
        → recv_msg T Head B M I into_parts p q w c m ≡ some (e, c')
        → Run c' taken

  abbrev Ks : S → List ℕ → Type 0
  Ks = Keeps into_parts p q w ol ql Belongs

  new_client-Keeps : (s : p.Store) → ol.told s ≡ [] → ol.issued s ≡ 0 → Ks (new_client s) []
  unfolding new_client
  new_client-Keeps s t i = rw (ql.starts) (record {
    once = λ n. rw (t, i) (ground arith);
    back = λ n. rw (t, i) (ground arith);
    responses = λ n. rw t (ground arith);
    own = rw t tt;
    full = tt;
    kept = tt;
  })

  pub Run-Keeps : {c : S} {taken : List ℕ} → Run c taken → Ks c taken
  Run-Keeps (starts s t i) = new_client-Keeps s t i
  Run-Keeps (sends {c} {taken} v r b e) =
      subst (SendKeeps p q w ol ql Belongs c.callback taken) e
        (try_send-Keeps p q w ol ql Belongs c.rx v c.callback taken (Run-Keeps r) b)
  Run-Keeps (sends_unbounded {c} {taken} v r b e) =
      subst (SendKeeps p q w ol ql Belongs c.callback taken) e
        (send_unbounded-Keeps p q w ol ql Belongs c.rx v c.callback taken (Run-Keeps r) b)
  Run-Keeps (asks {c} {c'} {taken} r e) =
      subst (AskKeeps into_parts p q w ol ql Belongs taken) e
        (poll_msg-Keeps into_parts p q w ol ql Belongs c taken (Run-Keeps r))
  Run-Keeps (hears {c} {c'} {taken} r e) =
      subst (CallKeeps into_parts p q w ol ql Belongs taken) e
        (poll_ready-Keeps into_parts p q w ol ql Belongs c taken (Run-Keeps r))
  Run-Keeps (receives {c} {c'} {taken} m r e) =
      subst (CallKeeps into_parts p q w ol ql Belongs taken) e
        (recv_msg-Keeps into_parts p q w ol ql Belongs c m taken (Run-Keeps r))

  -- Of the answers in `s`, promises with number `n`: at most one each, a response only where the
  -- connection took the request, the request given back only where it did not
  pub record Fair (s : p.Store) (taken : List ℕ) : Type 0 where
    pub once : (n : ℕ) → tally any n (ol.told s) ≤ given_out n (ol.issued s)
    pub untaken :
        (n : ℕ) → tally gives_back n (ol.told s) + count n taken ≤ given_out n (ol.issued s)
    pub responses : (n : ℕ) → tally responds n (ol.told s) ≤ count n taken
    pub own : AreOwn p ol Belongs (ol.told s)

  Holds-Fair :
      {s : p.Store} {es : List _} {cb : Option _} {taken : List ℕ}
      → Holds p ol Belongs s es cb taken
      → Fair s taken
  Holds-Fair h = record {
    once = λ n. omega (arith, h.once n);
    untaken = λ n. omega (arith, h.back n);
    responses = λ n. omega (arith, h.responses n);
    own = h.own;
  }

  -- Whether a drop comes to an end, with one answer for every promise
  abbrev pub EndsTold : List ℕ → Option S → Type 0
  EndsTold taken none = ⊥
  EndsTold taken (some c) =
      Fair c.rx.promises taken
      × ((n : ℕ) → tally any n (ol.told c.rx.promises) ≡ given_out n (ol.issued c.rx.promises))

  pub record Answered (c : S) (taken : List ℕ) : Type 0 where
    pub fair : Fair c.rx.promises taken
    pub asking : poll_msg T Head B M I into_parts p q w c ≢ none
    pub hearing : poll_ready T Head B M I into_parts p q w c ≢ none
    pub receiving : (m : Error ⊎ (M × I)) → recv_msg T Head B M I into_parts p q w c m ≢ none
    pub ending : EndsTold taken (drop_client T Head B M I into_parts p q w c)

  -- Whatever the sender of requests and the connection call, in any order: no `expect` of the
  -- client's dispatch fails; each promise has at most one answer; it is a response only where the
  -- connection took the request, and gives the request back only where it did not, and then
  -- the request is its own; and a drop of the dispatch leaves each promise with just one answer.
  pub Run-Answered : {c : S} {taken : List ℕ} → Run c taken → Answered c taken
  Run-Answered {c} {taken} r =
      let h = Run-Keeps r in
      record {
        fair = Holds-Fair h;
        asking = λ e.
            subst (AskKeeps into_parts p q w ol ql Belongs taken) e
              (poll_msg-Keeps into_parts p q w ol ql Belongs c taken h);
        hearing = λ e.
            subst (CallKeeps into_parts p q w ol ql Belongs taken) e
              (poll_ready-Keeps into_parts p q w ol ql Belongs c taken h);
        receiving = λ m e.
            subst (CallKeeps into_parts p q w ol ql Belongs taken) e
              (recv_msg-Keeps into_parts p q w ol ql Belongs c m taken h);
        ending = told_by _ (drop_client-AllTold into_parts p q w ol ql Belongs c taken h);
      }
    where
      told_by : (x : Option S) → AllTold into_parts p q w ol ql Belongs taken x → EndsTold taken x
      told_by none k = k
      told_by (some c') k = (Holds-Fair k, λ n. omega (arith, k.once n))
