-- ===== src/Http1/Dispatch/Loop.antt =====
-- `Dispatcher::poll_flush` and `poll_loop` of proto/http1/dispatch.rs, and what they do to the
-- connection.
use hwire.Base.{
  ℕ, zero, suc, ◌≡◌, refl, Bool, true, false, not, ◌&&◌, ◌||◌, Option, none, some, if◌then◌else◌,
}
use hwire.Http1.Buffered.{Transport}
use hwire.Http1.Buffered.Flush.{Sink}
use hwire.Http1.State.{Outside}
use hwire.Http1.Transaction.{Transaction}
use hwire.Http1.Conn.{Conn, wants_read_again}
use hwire.Http1.Conn.Steps.{Step, Steps, done}
use hwire.Http1.Dispatch.{Service, can_write_again, conn_flush}
use hwire.Http1.Dispatch.Write.{
  Done, done_ready, done_pending, done_error, S, with_conn, Round, returns, goes_on, panics,
  starved, on_flush, poll_write,
}
use hwire.Http1.Dispatch.WriteSteps.{Moves, flush-Moves, before, Polls, poll_write-Polls}
use hwire.Http1.Dispatch.Read.{poll_read}
use hwire.Http1.Dispatch.ReadSteps.{poll_read-Polls}

module _ (out : Outside) (t : Transport) (role : Transaction out) (sv : Service out role)
    (sink : Sink t) where
  abbrev pub St : Type 0
  St = S out t role sv sink

  abbrev pub Polled : Type 0
  Polled = Option (Option (St × Done))

  -- A flush that is done is ready.
  abbrev pub flush_done : Round out t role sv sink → Polled
  flush_done (returns s d) = some (some (s, d))
  flush_done (goes_on s) = some (some (s, done_ready))
  flush_done panics = some none
  flush_done starved = none

  -- `Dispatcher::poll_flush`
  unfoldable pub poll_flush : ℕ → St → Polled
  unfolding conn_flush
  poll_flush fuel s =
      flush_done (on_flush out t role sv sink s (conn_flush out t role sv sink fuel s.conn))

  -- `self.poll_read(cx)?` and the like: an error is returned, and else whether it was ready is known.
  abbrev pub and_then : Polled → (St → Bool → Polled) → Polled
  and_then none k = none
  and_then (some none) k = some none
  and_then (some (some (s, done_error e))) k = some (some (s, done_error e))
  and_then (some (some (s, done_ready))) k = k s true
  and_then (some (some (s, done_pending))) k = k s false

  -- The second write of a round, where only the writing side goes on
  abbrev pub write_again : (St → Polled) → St → Bool → Polled
  write_again next s true = next s
  write_again next s false = some (some (s, done_ready))

  abbrev pub go_on : (St → Polled) → (St → Polled) → Bool → Bool → St → Polled
  go_on next write writes reads s =
      if not (writes || reads)
      then some (some (s, done_ready))
      else if not reads && writes
      then and_then (write s) (write_again next)
      else next s

  abbrev pub read_wanted : (St → Polled) → (St → Polled) → Bool → St → Conn out t × Bool → Polled
  read_wanted next write writes s (c, reads) =
      go_on next write writes reads (with_conn out t role sv sink s c)

  abbrev pub after_flush : (St → Polled) → (St → Polled) → Bool → St → Bool → Polled
  after_flush next write write_ready s flush_ready =
      read_wanted next write (can_write_again out t role sv s && (write_ready || flush_ready)) s
        (wants_read_again out t s.conn)

  abbrev pub loop_round :
      (St → Polled) → (St → Polled) → (St → Polled) → (St → Polled) → St → Polled
  loop_round read write flush next s = and_then (read s) (λ s1 read_ready.
      and_then (write s1)
        (λ s2 write_ready. and_then (flush s2) (after_flush next write write_ready)))

  unfoldable pub loop_of : ℕ → (St → Polled) → (St → Polled) → (St → Polled) → St → Polled
  loop_of zero read write flush s = some (some (s, done_pending))
  loop_of (suc n) read write flush s = loop_round read write flush (loop_of n read write flush) s

  -- `Dispatcher::poll_loop`, with fuel for the loops that it runs
  unfoldable pub poll_loop : ℕ → ℕ → St → Polled
  unfolding loop_of poll_read poll_write poll_flush can_write_again wants_read_again
  poll_loop rounds fuel s =
      loop_of 16 (poll_read out t role sv sink rounds fuel)
        (poll_write out t role sv sink rounds fuel) (poll_flush fuel) s

  abbrev pub Goes : Conn out t → Polled → Type 0
  Goes c x = Polls out t role sv sink c x

  -- A call whose connection goes by steps
  abbrev pub IsCall : (St → Polled) → Type 0
  IsCall f = (s : St) → Goes s.conn (f s)

  and_then-Goes :
      (c : Conn out t) (x : Polled) (k : St → Bool → Polled)
      → Goes c x
      → ((s : St) (b : Bool) → Goes s.conn (k s b))
      → Goes c (and_then x k)
  and_then-Goes c none k g h = tt
  and_then-Goes c (some none) k g h = tt
  and_then-Goes c (some (some (s, done_error e))) k g h = g
  and_then-Goes c (some (some (s, done_ready))) k g h =
      before out t role sv sink (k s true) g (h s true)
  and_then-Goes c (some (some (s, done_pending))) k g h =
      before out t role sv sink (k s false) g (h s false)

  flush_done-Goes :
      (c : Conn out t) (x : Round out t role sv sink)
      → Moves out t role sv sink c x
      → Goes c (flush_done x)
  flush_done-Goes c (returns s d) m = m
  flush_done-Goes c (goes_on s) m = m
  flush_done-Goes c panics m = tt
  flush_done-Goes c starved m = tt

  poll_flush-IsCall : (fuel : ℕ) → IsCall (poll_flush fuel)
  unfolding poll_flush
  poll_flush-IsCall fuel s = flush_done-Goes s.conn _ (flush-Moves out t role sv sink fuel s)

  write_again-Goes :
      (next : St → Polled) → IsCall next → (s : St) (b : Bool) → Goes s.conn (write_again next s b)
  write_again-Goes next n s true = n s
  write_again-Goes next n s false = done

  go_on-Goes :
      (next write : St → Polled)
      → IsCall next
      → IsCall write
      → (writes reads : Bool) (s : St) → Goes s.conn (go_on next write writes reads s)
  go_on-Goes next write n w true true s = n s
  go_on-Goes next write n w false true s = n s
  go_on-Goes next write n w true false s =
      and_then-Goes s.conn (write s) (write_again next) (w s) (write_again-Goes next n)
  go_on-Goes next write n w false false s = done

  read_wanted-Goes :
      (next write : St → Polled)
      → IsCall next
      → IsCall write
      → (writes : Bool) (s : St) (x : Conn out t × Bool) → wants_read_again out t s.conn ≡ x
      → Goes s.conn (read_wanted next write writes s x)
  read_wanted-Goes next write n w writes s (c, reads) e =
      before out t role sv sink (go_on next write writes reads (with_conn out t role sv sink s c))
        (Steps.then (Step.read_again e) done)
        (go_on-Goes next write n w writes reads (with_conn out t role sv sink s c))

  loop_round-Goes :
      (read write flush next : St → Polled)
      → IsCall read
      → IsCall write
      → IsCall flush
      → IsCall next
      → IsCall (loop_round read write flush next)
  loop_round-Goes read write flush next r w f n s = and_then-Goes s.conn (read s) _ (r s) (λ s1 b1.
      and_then-Goes s1.conn (write s1) _ (w s1) (λ s2 b2.
        and_then-Goes s2.conn (flush s2) (after_flush next write b2) (f s2)
          (λ s3 b3. read_wanted-Goes next write n w _ s3 _ refl)))

  loop_of-IsCall :
      (n : ℕ) (read write flush : St → Polled)
      → IsCall read
      → IsCall write
      → IsCall flush
      → IsCall (loop_of n read write flush)
  unfolding loop_of
  loop_of-IsCall zero read write flush r w f s = done
  loop_of-IsCall (suc n) read write flush r w f s =
      loop_round-Goes read write flush (loop_of n read write flush) r w f
        (loop_of-IsCall n read write flush r w f) s

  -- Whatever the dispatch, the bodies and the socket answer, `poll_loop` goes by the steps of a
  -- connection.
  pub poll_loop-IsCall : (rounds fuel : ℕ) → IsCall (poll_loop rounds fuel)
  unfolding poll_loop
  poll_loop-IsCall rounds fuel s =
      loop_of-IsCall 16 (poll_read out t role sv sink rounds fuel)
        (poll_write out t role sv sink rounds fuel) (poll_flush fuel)
        (poll_read-Polls out t role sv sink rounds fuel)
        (poll_write-Polls out t role sv sink rounds fuel) (poll_flush-IsCall fuel) s
