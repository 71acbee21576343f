-- ===== src/Http1/Conn/KeptHeads.antt =====
-- What writing a head keeps of the connection's state.
use hwire.Base.{Bool, true, false, ◌≡◌, ◌⊎◌, inl, inr, refl, ◌∙◌, Option, none, some, Bytes}
use hwire.Error.{Error}
use hwire.Http1.Buffered.{Transport, Buffered}
use hwire.Http1.Encode.{Encoder}
use hwire.Http1.State.{
  disabled, Version, http_09, http_10, http_11, http_2, http_3, Outside, Writing, State, make_busy,
  is_disabled, wants_keep_alive,
}
use hwire.Http1.State.Laws.{
  IdleIsFresh, Keeps, Keeps-refl, NotIdle, busy_again-NotIdle, busy_again-disabled,
}
use hwire.Http1.Transaction.{BodyLength, Encoded, Transaction}
use hwire.Http1.Conn.{Conn, set_state, has_h2_prefix}
use hwire.Http1.Conn.Write.{
  Head, insert_if, fix_version, fix_unless, fix_keep_alive, as_http_10, enforce_for,
  enforce_version, head_result, encode_head, error_kept, after_encoding, write_head, answer_error,
  answer_in, on_parse_error,
}
use hwire.Http1.Conn.Kept.{OptionKeeps, OutKeeps}

module _ (out : Outside) (t : Transport) (role : Transaction out) where
  open out use {http, OnInformational}

  -- The sides are as they were, and keep-alive is not idle.
  pub record Busy (s s' : State out) : Type 0 where
    pub not_idle : NotIdle out s'.keep_alive
    pub disabled_stays : s.keep_alive ≡ disabled → s'.keep_alive ≡ disabled
    pub reading : s'.reading ≡ s.reading
    pub writing : s'.writing ≡ s.writing

  abbrev state_of : State out × Head out t role → State out
  state_of (s, h) = s

  make_busy-Busy : (s : State out) → Busy s (make_busy out s)
  unfolding make_busy
  make_busy-Busy s = record {
    not_idle = busy_again-NotIdle out s.keep_alive;
    disabled_stays = busy_again-disabled out s.keep_alive;
    reading = refl;
    writing = refl;
  }

  Busy-refl : (s : State out) → NotIdle out s.keep_alive → Busy s s
  Busy-refl s n = record { not_idle = n; disabled_stays = λ e. e; reading = refl; writing = refl }

  Busy-trans : {a b c : State out} → Busy a b → Busy b c → Busy a c
  Busy-trans h k = record {
    not_idle = k.not_idle;
    disabled_stays = λ e. k.disabled_stays (h.disabled_stays e);
    reading = k.reading ∙ h.reading;
    writing = k.writing ∙ h.writing;
  }

  disabled-Busy : (s : State out) → Busy s (record s { keep_alive = disabled })
  disabled-Busy s = record {
    not_idle = λ e. absurd (cc);
    disabled_stays = λ e. refl;
    reading = refl;
    writing = refl;
  }

  insert_if-Busy :
      (b : Bool) (text : Bytes) (s : State out) (h : Head out t role)
      → NotIdle out s.keep_alive
      → Busy s (state_of (insert_if out t role b text s h))
  insert_if-Busy true text s h n = Busy-refl s n
  insert_if-Busy false text s h n = Busy-refl s n

  fix_version-Busy :
      (v : Version) (s : State out) (h : Head out t role)
      → NotIdle out s.keep_alive
      → Busy s (state_of (fix_version out t role v s h))
  fix_version-Busy http_09 s h n = Busy-refl s n
  fix_version-Busy http_10 s h n = disabled-Busy s
  fix_version-Busy http_11 s h n = insert_if-Busy (wants_keep_alive out s) _ s h n
  fix_version-Busy http_2 s h n = Busy-refl s n
  fix_version-Busy http_3 s h n = Busy-refl s n

  fix_unless-Busy :
      (b : Bool) (s : State out) (h : Head out t role)
      → NotIdle out s.keep_alive
      → Busy s (state_of (fix_unless out t role b s h))
  fix_unless-Busy true s h n = Busy-refl s n
  fix_unless-Busy false s h n = fix_version-Busy h.version s h n

  as_http_10-Busy :
      (s : State out) (p : State out × Head out t role)
      → Busy s (state_of p)
      → Busy s (state_of (as_http_10 out t role p))
  as_http_10-Busy s (s', h) k = k

  enforce_for-Busy :
      (v : Version) (s : State out) (h : Head out t role)
      → NotIdle out s.keep_alive
      → Busy s (state_of (enforce_for out t role v s h))
  unfolding fix_keep_alive
  enforce_for-Busy http_09 s h n = Busy-refl s n
  enforce_for-Busy http_10 s h n =
      as_http_10-Busy s (fix_keep_alive out t role s h) (fix_unless-Busy _ s h n)
  enforce_for-Busy http_11 s h n = insert_if-Busy (is_disabled s.keep_alive) _ s h n
  enforce_for-Busy http_2 s h n = Busy-refl s n
  enforce_for-Busy http_3 s h n = Busy-refl s n

  head_result-Keeps :
      (s s' : State out) (io : Buffered t) (x : Encoded out) (callback : Option OnInformational)
      (r : Error ⊎ Encoder http)
      → Busy s s'
      → s.writing ≡ Writing.init
      → Keeps out s (head_result out t role io s' x callback r).state
  head_result-Keeps s s' io x callback (inl err) b w = record {
    fresh = λ e. absurd (b.not_idle e);
    disabled_stays = b.disabled_stays;
    read_stays = λ e. b.reading ∙ e;
    write_stays = λ e. refl;
  }
  head_result-Keeps s s' io x callback (inr e) b w = record {
    fresh = λ e. absurd (b.not_idle e);
    disabled_stays = b.disabled_stays;
    read_stays = λ e. b.reading ∙ e;
    write_stays = λ e. absurd (cc);
  }

  encode_head-Keeps :
      (s : State out) (c : Conn out t) (p : State out × Head out t role) (body : Option BodyLength)
      → Busy s (state_of p)
      → s.writing ≡ Writing.init
      → OptionKeeps out t s (encode_head out t role c p body)
  encode_head-Keeps s c (s', h) body b w = go (role.encode h body s'.method)
    where
      go :
          (o : Option (Encoded out))
          → OptionKeeps out t s (after_encoding out t role (set_state out t c s') h o)
      go none = tt
      go (some x) =
          head_result-Keeps s (record s' { method = x.req_method }) _ x h.on_informational x.result
            (record {
              not_idle = b.not_idle;
              disabled_stays = b.disabled_stays;
              reading = b.reading;
              writing = b.writing;
            })
            w

  pub write_head-Keeps :
      (c : Conn out t) (h : Head out t role) (body : Option BodyLength)
      → c.state.writing ≡ Writing.init
      → OptionKeeps out t c.state (write_head out t role c h body)
  unfolding write_head enforce_version
  write_head-Keeps c h body w =
      let b = make_busy-Busy c.state in
      encode_head-Keeps c.state c _ body
        (Busy-trans b (enforce_for-Busy c.state.version _ h b.not_idle)) w

  error_kept-Keeps :
      (s : State out) (err : Error) (o : Option (Conn out t))
      → OptionKeeps out t s o
      → OutKeeps out t s (error_kept out t role err o)
  error_kept-Keeps s err none k = tt
  error_kept-Keeps s err (some c) k = record {
    fresh = k.fresh;
    disabled_stays = k.disabled_stays;
    read_stays = k.read_stays;
    write_stays = k.write_stays;
  }

  emptied-Keeps :
      (s : State out) (o : Option (Conn out t))
      → OptionKeeps out t (record s { cached_headers = none }) o
      → OptionKeeps out t s o
  emptied-Keeps s none k = tt
  emptied-Keeps s (some c) k = record {
    fresh = k.fresh;
    disabled_stays = k.disabled_stays;
    read_stays = k.read_stays;
    write_stays = k.write_stays;
  }

  answer_error-Keeps :
      (c : Conn out t) (err : Error) (o : Option (Head out t role))
      → c.state.writing ≡ Writing.init
      → IdleIsFresh out c.state
      → OutKeeps out t c.state (answer_error out t role c err o)
  answer_error-Keeps c err none w h = Keeps-refl out c.state h
  answer_error-Keeps c err (some msg) w h = error_kept-Keeps c.state err _ (
      emptied-Keeps c.state _ (
        write_head-Keeps (record c { state = record c.state { cached_headers = none } }) msg none
          w))

  answer_in-Keeps :
      (w : Writing out) (b : Bool) (c : Conn out t) (err : Error)
      → c.state.writing ≡ w
      → IdleIsFresh out c.state
      → OutKeeps out t c.state (answer_in out t role w b c err)
  answer_in-Keeps Writing.init true c err e h = Keeps-refl out c.state h
  answer_in-Keeps Writing.init false c err e h = answer_error-Keeps c err (role.on_error err) e h
  answer_in-Keeps Writing.keep_alive b c err e h = Keeps-refl out c.state h
  answer_in-Keeps Writing.closed b c err e h = Keeps-refl out c.state h
  answer_in-Keeps (Writing.body x) b c err e h = Keeps-refl out c.state h

  pub on_parse_error-Keeps :
      (c : Conn out t) (err : Error)
      → IdleIsFresh out c.state
      → OutKeeps out t c.state (on_parse_error out t role c err)
  unfolding on_parse_error
  on_parse_error-Keeps c err h =
      answer_in-Keeps c.state.writing (has_h2_prefix out t c) c err refl h
