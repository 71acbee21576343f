-- ===== src/Requests/Ledger.antt =====
-- An account of each promise of an answer to a request.
use hwire.Base.{
  ℕ, suc, ◌+◌, ◌≤◌, ◌≡◌, inl, inr, Bool-cases, Option, none, some, List, [], ◌∷◌, ◌++◌, ◌==◌, ltb,
  if◌then◌else◌, arith,
}
use hwire.Requests.Laws.{OneshotLaws}
use hwire.Requests.{Reason, Answer, response, refused, Oneshots, Callback, Envelope}

abbrev pub if_same : ℕ → ℕ → ℕ → ℕ
if_same m n k = if m == n then k else 0

abbrev pub count : ℕ → List ℕ → ℕ
count n [] = 0
count n (m ∷ ms) = if_same m n 1 + count n ms

-- Whether promise `n` is among the first `k`
abbrev pub given_out : ℕ → ℕ → ℕ
given_out n k = if ltb n k then 1 else 0

given_out-suc : (n k : ℕ) → given_out n (suc k) ≡ if_same k n 1 + given_out n k
given_out-suc n k = ground arith

module _ {T U : Type 0} where
  -- The weights of an answer: any, one that gives the request back, and a response
  abbrev pub any : Answer T U → ℕ
  any a = 1

  abbrev pub gives_back : Answer T U → ℕ
  gives_back (refused r (some v)) = 1
  gives_back _ = 0

  abbrev pub responds : Answer T U → ℕ
  responds (response u) = 1
  responds _ = 0

  -- What the answers to promise `n` weigh
  abbrev pub tally : (Answer T U → ℕ) → ℕ → List (ℕ × Answer T U) → ℕ
  tally f n [] = 0
  tally f n ((m, a) ∷ l) = if_same m n (f a) + tally f n l

  responds-bound : (m n : ℕ) (a : Answer T U) → if_same m n (responds a) ≤ if_same m n 1
  responds-bound m n (response u) = omega arith
  responds-bound m n (refused r x) = elim (Bool-cases (m == n)) [
    | inl e ↦ rw e (omega arith)
    | inr e ↦ rw e (omega arith)
  ]

  module _ (p : Oneshots T U) (laws : OneshotLaws p) (Belongs : ℕ → T → Type 0) where
    -- A request that an answer gives back is the one that the promise is of.
    abbrev pub IsOwn : ℕ → Answer T U → Type 0
    IsOwn m (refused r (some v)) = Belongs m v
    IsOwn m _ = Unit

    abbrev pub AreOwn : List (ℕ × Answer T U) → Type 0
    AreOwn [] = Unit
    AreOwn ((m, a) ∷ l) = IsOwn m a × AreOwn l

    abbrev pub held : ℕ → Callback T U p → ℕ
    held n none = 0
    held n (some tx) = if_same (laws.id tx) n 1

    abbrev pub called : ℕ → Option (Callback T U p) → ℕ
    called n none = 0
    called n (some cb) = held n cb

    abbrev pub at : ℕ → Envelope T U p → ℕ
    at n none = 0
    at n (some (v, cb)) = held n cb

    abbrev pub waiting : ℕ → List (Envelope T U p) → ℕ
    waiting n [] = 0
    waiting n (e ∷ es) = at n e + waiting n es

    -- An envelope is full, and its callback is of its request.
    abbrev pub IsFull : Envelope T U p → Type 0
    IsFull (some (v, some tx)) = Belongs (laws.id tx) v
    IsFull _ = ⊥

    abbrev pub AreFull : List (Envelope T U p) → Type 0
    AreFull [] = Unit
    AreFull (e ∷ es) = IsFull e × AreFull es

    abbrev pub IsHeld : Option (Callback T U p) → Type 0
    IsHeld (some none) = ⊥
    IsHeld _ = Unit

    -- Of the envelopes that wait, the callback of the request that is under way, and the promises
    -- whose requests went to the connection
    pub record Holds (s : p.Store) (es : List (Envelope T U p)) (cb : Option (Callback T U p))
        (taken : List ℕ) : Type 0 where
      pub once :
          (n : ℕ)
          → tally any n (laws.told s) + (waiting n es + called n cb) ≡ given_out n (laws.issued s)
      pub back :
          (n : ℕ)
          → tally gives_back n (laws.told s) + (count n taken + waiting n es)
            ≤ given_out n (laws.issued s)
      pub responses : (n : ℕ) → tally responds n (laws.told s) + called n cb ≤ count n taken
      pub own : AreOwn (laws.told s)
      pub full : AreFull es
      pub kept : IsHeld cb

    -- A promise is made with an envelope for it.
    pub issue-Holds :
        {s : p.Store} {es : List (Envelope T U p)} {cb : Option (Callback T U p)} {taken : List ℕ}
        {v : T}
        → Holds s es cb taken
        → Belongs (laws.id (p.channel s).0.0) v
        → Holds (p.channel s).1 (some (v, some (p.channel s).0.0) ∷ es) cb taken
    issue-Holds {s} {es} {cb} {taken} h b =
        let (i, (n, t)) = laws.channels s in
        record {
          once = λ m. rw (n, t, i) (omega (arith, h.once m, given_out-suc m (laws.issued s)));
          back = λ m. rw (n, t, i) (omega (arith, h.back m, given_out-suc m (laws.issued s)));
          responses = λ m. rw t (h.responses m);
          own = rw t h.own;
          full = (b, h.full);
          kept = h.kept;
        }

    -- An envelope is dropped with an answer that is no response.
    pub settle-Holds :
        {s : p.Store} {es : List (Envelope T U p)} {cb : Option (Callback T U p)} {taken : List ℕ}
        {v : T} {tx : p.Tx}
        → Holds s (some (v, some tx) ∷ es) cb taken
        → (r : Reason) (x : Option T) → IsOwn (laws.id tx) (refused r x)
        → Holds (p.send s tx (refused r x)) es cb taken
    settle-Holds {s} {es} {cb} {taken} {v} {tx} h r x b =
        let (t, n) = laws.sends s tx (refused r x) in
        record {
          once = λ m. rw (n, t) (omega (arith, h.once m));
          back = λ m. rw (n, t) (omega (arith, h.back m, backs m x));
          responses = λ m. rw t (omega (arith, h.responses m, none_of m));
          own = rw t (b, h.own);
          full = h.full.1;
          kept = h.kept;
        }
      where
        none_of : (m : ℕ) → if_same (laws.id tx) m 0 ≡ 0
        none_of m = ground arith

        backs :
            (m : ℕ) (x : Option T)
            → if_same (laws.id tx) m (gives_back (refused r x)) ≤ if_same (laws.id tx) m 1
        backs m none = ground arith
        backs m (some y) = omega arith

    -- The callback of the request that is under way is told.
    pub answer-Holds :
        {s : p.Store} {es : List (Envelope T U p)} {taken : List ℕ} {tx : p.Tx}
        → Holds s es (some (some tx)) taken
        → (a : Answer T U) → gives_back a ≡ 0
        → IsOwn (laws.id tx) a
        → Holds (p.send s tx a) es none taken
    answer-Holds {s} {es} {taken} {tx} h a z b =
        let (t, n) = laws.sends s tx a in
        record {
          once = λ m. rw (n, t) (omega (arith, h.once m));
          back = λ m. rw (n, t, z) (omega (arith, h.back m, none_of m));
          responses = λ m. rw t (omega (arith, h.responses m, responds-bound (laws.id tx) m a));
          own = rw t (b, h.own);
          full = h.full;
          kept = tt;
        }
      where
        none_of : (m : ℕ) → if_same (laws.id tx) m 0 ≡ 0
        none_of m = ground arith

    -- A request goes to the connection.
    pub hand-Holds :
        {s : p.Store} {es : List (Envelope T U p)} {taken : List ℕ} {v : T} {tx : p.Tx}
        → Holds s (some (v, some tx) ∷ es) none taken
        → Holds s es (some (some tx)) (laws.id tx ∷ taken)
    hand-Holds {s} {es} {taken} {v} {tx} h = record {
      once = λ m. omega (arith, h.once m);
      back = λ m. omega (arith, h.back m);
      responses = λ m. omega (arith, h.responses m);
      own = h.own;
      full = h.full.1;
      kept = tt;
    }

    -- Neither a look at a promise nor the place of an envelope matters.
    pub poll-Holds :
        {s : p.Store} {es : List (Envelope T U p)} {cb : Option (Callback T U p)} {taken : List ℕ}
        (tx : p.Tx)
        → Holds s es cb taken
        → Holds (p.poll_closed s tx).1 es cb taken
    poll-Holds {s} tx h =
        let (t, n) = laws.polls s tx in
        record {
          once = λ m. rw (n, t) (h.once m);
          back = λ m. rw (n, t) (h.back m);
          responses = λ m. rw t (h.responses m);
          own = rw t h.own;
          full = h.full;
          kept = h.kept;
        }

    waiting-append :
        (n : ℕ) (es : List (Envelope T U p)) (e : Envelope T U p)
        → waiting n (es ++ e ∷ []) ≡ at n e + waiting n es
    waiting-append n [] e = omega arith
    waiting-append n (x ∷ es) e = omega (arith, waiting-append n es e)

    append-AreFull :
        (es : List (Envelope T U p)) (e : Envelope T U p)
        → IsFull e
        → AreFull es
        → AreFull (es ++ e ∷ [])
    append-AreFull [] e h k = (h, tt)
    append-AreFull (x ∷ es) e h (a, b) = (a, append-AreFull es e h b)

    pub queue-Holds :
        {s : p.Store} {es : List (Envelope T U p)} {cb : Option (Callback T U p)} {taken : List ℕ}
        {e : Envelope T U p}
        → Holds s (e ∷ es) cb taken
        → Holds s (es ++ e ∷ []) cb taken
    queue-Holds {s} {es} {cb} {taken} {e} h = record {
      once = λ m. omega (arith, h.once m, waiting-append m es e);
      back = λ m. omega (arith, h.back m, waiting-append m es e);
      responses = h.responses;
      own = h.own;
      full = append-AreFull es e h.full.0 h.full.1;
      kept = h.kept;
    }
