-- ===== src/Http1/Conn/Kept.antt =====
-- What the operations of a connection keep of its state.
use hwire.Base.{
  Bool, true, false, ◌&&◌, not, ◌≡◌, inl, inr, refl, Option, none, some, [], ◌∷◌, ℕ, ◌==◌, Bytes,
  Bool-cases,
}
use hwire.Io.{Out, ready, failed, pending, panicked}
use hwire.Http1.Buffered.{Transport, Buffered, poll_read_from_io}
use hwire.Error.{Error}
use hwire.Http1.Encode.{
  Encoder, EncodedBuf, TrailersResult, EndResult, encode, encode_trailers, encode_and_end, end_body,
  no_trailers, some_trailers, no_name, at_end, end_with, not_eof,
}
use hwire.Http1.State.{Reading, Outside, Writing, State, try_keep_alive, is_idle}
use hwire.Http1.State.Laws.{
  IdleIsFresh, Keeps, Keeps-refl, Keeps-trans, close-Keeps, close_read-Keeps, try_keep_alive-Keeps,
}
use hwire.Http1.Conn.{
  Conn, set_state, reading_init, is_body, maybe_notify, keep_alive_and_notify, noticed, notify_from,
}
use hwire.Http1.Conn.Write.{
  after_encode, after_last, after_trailers, after_end, write_in, trailers_in, last_in, finish_in,
  write_body, write_trailers, write_body_and_end, finish_body,
}

module _ (out : Outside) (t : Transport) where
  open out use {http}

  -- Whatever the outcome, the state that is left keeps what `Keeps` says; a panic leaves none.
  abbrev pub OptionKeeps : State out → Option (Conn out t) → Type 0
  OptionKeeps s none = Unit
  OptionKeeps s (some c) = Keeps out s c.state

  abbrev pub OutKeeps : {A : Type 0} → State out → Out (Conn out t) A → Type 0
  OutKeeps s (ready c a) = Keeps out s c.state
  OutKeeps s (failed c e) = Keeps out s c.state
  OutKeeps s (pending c) = Keeps out s c.state
  OutKeeps s panicked = Unit

  pub then_option :
      {a b : State out} (o : Option (Conn out t))
      → Keeps out a b
      → OptionKeeps b o
      → OptionKeeps a o
  then_option none h k = tt
  then_option (some c) h k = Keeps-trans out h k

  -- Flags that the invariant does not read
  notify-Keeps : (s : State out) → IdleIsFresh out s → Keeps out s (record s { notify_read = true })
  notify-Keeps s h = record {
    fresh = h;
    disabled_stays = λ e. e;
    read_stays = λ e. e;
    write_stays = λ e. e;
  }

  noticed-Keeps :
      (s : State out) (o : Out (Buffered t) ℕ)
      → IdleIsFresh out s
      → OptionKeeps s (noticed out t s o)
  noticed-Keeps s (ready io n) h = elim (Bool-cases (n == 0)) [
    | inl e ↦ elim (Bool-cases (is_idle out s)) [
      | inl i ↦ rw (e, i) (close-Keeps out s)
      | inr i ↦ rw (e, i) (close_read-Keeps out s)
    ]
    | inr e ↦ rw e (notify-Keeps s h)
  ]
  noticed-Keeps s (failed io e) h =
      let k = close-Keeps out s in
      record {
        fresh = k.fresh;
        disabled_stays = k.disabled_stays;
        read_stays = k.read_stays;
        write_stays = k.write_stays;
      }
  noticed-Keeps s (pending io) h = Keeps-refl out s h
  noticed-Keeps s panicked h = tt

  notify_from-Keeps :
      (b : Bytes) (c : Conn out t)
      → IdleIsFresh out c.state
      → OptionKeeps c.state (notify_from out t b c)
  notify_from-Keeps [] c h = noticed-Keeps c.state (poll_read_from_io t c.io) h
  notify_from-Keeps (b ∷ bs) c h = notify-Keeps c.state h

  pub maybe_notify-Keeps :
      (c : Conn out t) → IdleIsFresh out c.state → OptionKeeps c.state (maybe_notify out t c)
  unfolding maybe_notify
  maybe_notify-Keeps c h =
      let test : Bool =
        reading_init out t c.state.reading
        && (not (is_body out t c.state.writing) && not c.io.read_blocked) in
      elim (Bool-cases test) [
        | inl e ↦ rw e (notify_from-Keeps c.io.read_buf c h)
        | inr e ↦ rw e (Keeps-refl out c.state h)
      ]

  pub keep_alive_and_notify-Keeps :
      (c : Conn out t)
      → IdleIsFresh out c.state
      → OptionKeeps c.state (keep_alive_and_notify out t c)
  unfolding keep_alive_and_notify
  keep_alive_and_notify-Keeps c h =
      let k = try_keep_alive-Keeps out c.state h in
      then_option (maybe_notify out t (set_state out t c (try_keep_alive out c.state))) k
        (maybe_notify-Keeps (set_state out t c (try_keep_alive out c.state)) k.fresh)

  -- In the middle of a body, its side may go to any state.
  pub writing-Keeps :
      (s : State out) (e : Encoder http) (w : Writing out)
      → IdleIsFresh out s
      → s.writing ≡ Writing.body e
      → Keeps out s (record s { writing = w })
  writing-Keeps s e w h b = record {
    fresh = λ i. let (_, z) = h i in absurd (cc);
    disabled_stays = λ q. q;
    read_stays = λ q. q;
    write_stays = λ q. absurd (cc);
  }

  pub reading-Keeps :
      (s : State out) (r : Reading)
      → IdleIsFresh out s
      → (s.reading ≡ Reading.init → ⊥)
      → (s.reading ≡ Reading.closed → ⊥)
      → Keeps out s (record s { reading = r })
  reading-Keeps s r h open_ not_closed = record {
    fresh = λ i. let (z, _) = h i in absurd (open_ z);
    disabled_stays = λ q. q;
    read_stays = λ q. absurd (not_closed q);
    write_stays = λ q. q;
  }

  write_in-Keeps :
      (w : Writing out) (c : Conn out t) (room : Bool) (chunk : Bytes)
      → IdleIsFresh out c.state
      → c.state.writing ≡ w
      → OptionKeeps c.state (write_in out t w c room chunk)
  write_in-Keeps Writing.init c room chunk h e = tt
  write_in-Keeps Writing.keep_alive c room chunk h e = tt
  write_in-Keeps Writing.closed c room chunk h e = tt
  write_in-Keeps (Writing.body x) c room chunk h e = go (encode http x chunk)
    where
      go :
          (o : Option (Encoder http × EncodedBuf http))
          → OptionKeeps c.state (after_encode out t c room o)
      go none = tt
      go (some (x', b)) = writing-Keeps c.state x _ h e

  pub write_body-Keeps :
      (c : Conn out t) (room : Bool) (chunk : Bytes)
      → IdleIsFresh out c.state
      → OptionKeeps c.state (write_body out t c room chunk)
  unfolding write_body
  write_body-Keeps c room chunk h = write_in-Keeps c.state.writing c room chunk h refl

  trailers_in-Keeps :
      (w : Writing out) (c : Conn out t) (room : Bool) (m : http.HeaderMap)
      → IdleIsFresh out c.state
      → c.state.writing ≡ w
      → OptionKeeps c.state (trailers_in out t w c room m)
  trailers_in-Keeps Writing.init c room m h e = tt
  trailers_in-Keeps Writing.keep_alive c room m h e = tt
  trailers_in-Keeps Writing.closed c room m h e = tt
  trailers_in-Keeps (Writing.body x) c room m h e = go (encode_trailers http x m)
    where
      go : (o : TrailersResult http) → OptionKeeps c.state (after_trailers out t c room x o)
      go no_trailers = Keeps-refl out c.state h
      go (some_trailers b) = writing-Keeps c.state x _ h e
      go no_name = tt

  pub write_trailers-Keeps :
      (c : Conn out t) (room : Bool) (m : http.HeaderMap)
      → IdleIsFresh out c.state
      → OptionKeeps c.state (write_trailers out t c room m)
  unfolding write_trailers
  write_trailers-Keeps c room m h = trailers_in-Keeps c.state.writing c room m h refl

  last_in-Keeps :
      (w : Writing out) (c : Conn out t) (room : Bool) (chunk : Bytes)
      → IdleIsFresh out c.state
      → c.state.writing ≡ w
      → OptionKeeps c.state (last_in out t w c room chunk)
  last_in-Keeps Writing.init c room chunk h e = tt
  last_in-Keeps Writing.keep_alive c room chunk h e = tt
  last_in-Keeps Writing.closed c room chunk h e = tt
  last_in-Keeps (Writing.body x) c room chunk h e = go (encode_and_end http x chunk)
    where
      go : (o : Option (EncodedBuf http × Bool)) → OptionKeeps c.state (after_last out t c room o)
      go none = tt
      go (some (b, true)) = writing-Keeps c.state x _ h e
      go (some (b, false)) = writing-Keeps c.state x _ h e

  pub write_body_and_end-Keeps :
      (c : Conn out t) (room : Bool) (chunk : Bytes)
      → IdleIsFresh out c.state
      → OptionKeeps c.state (write_body_and_end out t c room chunk)
  unfolding write_body_and_end
  write_body_and_end-Keeps c room chunk h = last_in-Keeps c.state.writing c room chunk h refl

  abbrev pub left_by : Conn out t × Option Error → State out
  left_by (c, e) = c.state

  finish_in-Keeps :
      (w : Writing out) (c : Conn out t) (room : Bool)
      → IdleIsFresh out c.state
      → c.state.writing ≡ w
      → Keeps out c.state (left_by (finish_in out t w c room))
  finish_in-Keeps Writing.init c room h e = Keeps-refl out c.state h
  finish_in-Keeps Writing.keep_alive c room h e = Keeps-refl out c.state h
  finish_in-Keeps Writing.closed c room h e = Keeps-refl out c.state h
  finish_in-Keeps (Writing.body x) c room h e = go (end_body http x)
    where
      go : (o : EndResult http) → Keeps out c.state (left_by (after_end out t c room x o))
      go at_end = writing-Keeps c.state x _ h e
      go (end_with b) = writing-Keeps c.state x _ h e
      go (not_eof n) = writing-Keeps c.state x _ h e

  pub finish_body-Keeps :
      (c : Conn out t) (room : Bool)
      → IdleIsFresh out c.state
      → Keeps out c.state (left_by (finish_body out t c room))
  unfolding finish_body
  finish_body-Keeps c room h = finish_in-Keeps c.state.writing c room h refl
