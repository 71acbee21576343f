-- ===== src/Http1/Dispatch/Asserts.antt =====
-- The writing side of `Dispatcher`, with the role of a client, calls each operation of the connection
-- only where its assertions hold.
use hwire.Base.{
  ℕ, ◌<◌, ◌≡◌, ◌≢◌, refl, subst, Bool, true, false, not, Option, none, some, Bytes, [], ◌∷◌,
  u64_mod, length,
}
use hwire.Io.{Out, ready, failed, pending, panicked}
use hwire.Error.{Error}
use hwire.Http1.Encode.Total.{StartsNamed}
use hwire.Http1.Buffered.{Transport}
use hwire.Http1.Buffered.Flush.{Sink}
use hwire.Http1.State.{Outside}
use hwire.Http1.Transaction.{Transaction}
use hwire.Http1.Conn.{Conn, can_write_body, can_buffer_body}
use hwire.Http1.Conn.Write.{write_body, write_body_and_end, write_trailers, finish_body}
use hwire.Http1.Dispatch.{
  Service, Asked, not_asked, no_more, service_failed, message, later, over, unknown_frame,
  body_failed, data_piece, trailers_piece, conn_flush,
}
use hwire.Http1.Dispatch
use hwire.Http1.Dispatch.Write.{
  S, Round, panics, on_conn, on_end, end_body, start_body, asked, on_flush, cleared, room, chunk_if,
  framed, body_if, may_ask, round_if, write_round,
}
use hwire.Http1.Headers.MapLaws.{MapLaws}
use hwire.Http1.Role.{RoleCrate}
use hwire.Http1.Role.Client.{Request, client}
use hwire.Http1.Role.Written.{IsSpoken}
use hwire.Http1.Conn.Asserted.{
  IsSome, write_body-IsSome, last_piece-IsSome, write_trailers-IsSome, write_head-IsSome,
}

module _ (out : Outside) (r : RoleCrate out) (laws : MapLaws out.http) (t : Transport)
    (sv : Service out (client out r)) (sink : Sink t) where
  open out use {http}
  open sv use {Body, D}

  abbrev role : Transaction out
  role = client out r

  -- What the dispatch, the bodies and header maps do: a request that the dispatch gives is in
  -- HTTP/1.0, HTTP/1.1 or HTTP/2, a piece of a body has the length of a word, and the first item of a
  -- header map has a name.
  pub record Serves : Type 0 where
    pub spoken :
        (d d' : D) (h : Request out r) (b : Body)
        → sv.poll_msg d ≡ (message h b, d')
        → IsSpoken h.version
    pub words :
        (b b' : Body) (chunk : Bytes)
        → sv.poll_frame b ≡ (data_piece chunk, b')
        → length chunk < u64_mod
    pub named : (m : http.HeaderMap) → StartsNamed http (http.into_items m)

  module _ (fine : Serves) where
    abbrev R : Type 0
    R = Round out t role sv sink

    abbrev Ok : R → Type 0
    Ok panics = ⊥
    Ok _ = Unit

    on_conn-Ok :
        (s : S out t role sv sink) (c : Option (Conn out t))
        → IsSome out r laws t c
        → Ok (on_conn out t role sv sink s c)
    on_conn-Ok s none h = h
    on_conn-Ok s (some c) h = tt

    end_body-Ok : (s : S out t role sv sink) → Ok (end_body out t role sv sink s)
    unfolding end_body
    end_body-Ok s = go (finish_body out t s.conn (room out t role sv sink s))
      where
        go : (x : Conn out t × Option Error) → Ok (on_end out t role sv sink s x)
        go (c, none) = tt
        go (c, some e) = tt

    start_body-Ok :
        (s : S out t role sv sink) (h : Request out r) (b : Body) (ended : Bool)
        → IsSpoken h.version
        → Ok (start_body out t role sv sink s h b ended)
    start_body-Ok s h b true k =
        on_conn-Ok (record s { body_rx = none }) _ (write_head-IsSome out r laws t s.conn h none k)
    start_body-Ok s h b false k =
        on_conn-Ok (record s { body_rx = some b }) _ (write_head-IsSome out r laws t s.conn h _ k)

    asked-Ok :
        (s : S out t role sv sink) (x : Asked (Request out r) Body × D)
        → sv.poll_msg s.dispatch ≡ x
        → Ok (asked out t role sv sink s x)
    asked-Ok s (not_asked, d) e = tt
    asked-Ok s (no_more, d) e = tt
    asked-Ok s (service_failed, d) e = tt
    asked-Ok s (message h b, d) e =
        start_body-Ok (record s { dispatch = d }) h b (sv.is_end_stream b)
          (fine.spoken s.dispatch d h b e)

    chunk_if-Ok :
        (last : Bool) (s : S out t role sv sink) (chunk : Bytes)
        → can_write_body out t s.conn ≡ true
        → length chunk < u64_mod
        → Ok (chunk_if out t role sv sink last s chunk)
    unfolding write_body write_body_and_end
    chunk_if-Ok true s [] b h = end_body-Ok (cleared out t role sv sink s)
    chunk_if-Ok true s (x ∷ xs) b h = on_conn-Ok (cleared out t role sv sink s) _ (
        last_piece-IsSome out r laws t s.conn.state.writing s.conn (room out t role sv sink s)
          (x ∷ xs) b h)
    chunk_if-Ok false s [] b h = tt
    chunk_if-Ok false s (x ∷ xs) b h = on_conn-Ok s _ (
        write_body-IsSome out r laws t s.conn.state.writing s.conn (room out t role sv sink s)
          (x ∷ xs) b h)

    framed-Ok :
        (s : S out t role sv sink) (b : Body) (x : Dispatch.BodyFrame http.HeaderMap × Body)
        → sv.poll_frame b ≡ x
        → can_write_body out t s.conn ≡ true
        → Ok (framed out t role sv sink s x)
    unfolding write_trailers
    framed-Ok s b (later, b') e w = tt
    framed-Ok s b (over, b') e w = end_body-Ok (cleared out t role sv sink s)
    framed-Ok s b (body_failed, b') e w = tt
    framed-Ok s b (unknown_frame, b') e w = tt
    framed-Ok s b (data_piece chunk, b') e w =
        chunk_if-Ok (sv.is_end_stream b') (record s { body_rx = some b' }) chunk w
          (fine.words b b' chunk e)
    framed-Ok s b (trailers_piece m, b') e w = on_conn-Ok (cleared out t role sv sink s) _ (
        write_trailers-IsSome out r laws t s.conn.state.writing s.conn (room out t role sv sink s) m
          (fine.named m) w)

    body_if-Ok :
        (may : Bool) (s : S out t role sv sink) (b : Option Body)
        → can_write_body out t s.conn ≡ may
        → Ok (body_if out t role sv sink may s b)
    body_if-Ok true s (some b) w = framed-Ok s b _ refl w
    body_if-Ok false s (some b) w = tt
    body_if-Ok true s none w = end_body-Ok s
    body_if-Ok false s none w = tt

    flushed-Ok :
        (s : S out t role sv sink) (x : Option (Out (Conn out t) (Unit {0})))
        → x ≢ some panicked
        → Ok (on_flush out t role sv sink s x)
    flushed-Ok s none h = tt
    flushed-Ok s (some (ready c u)) h = tt
    flushed-Ok s (some (failed c e)) h = tt
    flushed-Ok s (some (pending c)) h = tt
    flushed-Ok s (some panicked) h = absurd (h refl)

    round_if-Ok :
        (closing ask full : Bool) (fuel : ℕ) (s : S out t role sv sink)
        → conn_flush out t role sv sink fuel s.conn ≢ some panicked
        → Ok (round_if out t role sv sink closing ask full fuel s)
    round_if-Ok true ask full fuel s f = tt
    round_if-Ok false true full fuel s f = asked-Ok s (sv.poll_msg s.dispatch) refl
    round_if-Ok false false true fuel s f = flushed-Ok s _ f
    round_if-Ok false false false fuel s f =
        body_if-Ok (can_write_body out t s.conn) s s.body_rx refl

    -- For the role of a client, where the requests that it is given are in HTTP/1.0, HTTP/1.1 or
    -- HTTP/2, pieces of bodies have the length of a word, a header map starts with a name, and header
    -- maps behave as `http` documents it: a round of `poll_write` panics only if a flush of its
    -- connection does. So each head is written, and each operation that asserts that a body is being
    -- written is called only where one is.
    pub write_round-Ok :
        (fuel : ℕ) (s : S out t role sv sink)
        → conn_flush out t role sv sink fuel s.conn ≢ some panicked
        → write_round out t role sv sink fuel s ≢ panics
    unfolding write_round
    write_round-Ok fuel s f e = subst Ok e (
        round_if-Ok s.is_closing (may_ask out t role sv sink s) (not (can_buffer_body out t s.conn))
          fuel s f)
