-- ===== src/Http1/Conn/Head.antt =====
-- `Buffered::parse` and `poll_read_head` of `Conn`, with `parse_headers` of proto/http1/role.rs.
-- The loop takes fuel; `none` is a lack of it.
use hwire.Base.{
  ℕ, zero, suc, Bool, true, false, not, ◌&&◌, ◌||◌, Option, none, some, ◌⊎◌, inl, inr, [], ◌∷◌, leb,
  ◌==◌, if◌then◌else◌, Bytes, codes, length,
}
use hwire.HttpCrate.{te}
use hwire.Io.{Out, ready, failed, pending, panicked}
use hwire.Body.Length.{DecodedLength, same}
use hwire.Body.Length
use hwire.Error.{Error, new_error, parse, is_parse, new_io, new_too_large, new_incomplete}
use hwire.Http1.Buffered.{Transport, Buffered, poll_read_from_io, max_of, consume_leading_lines}
use hwire.Http1.Decode.{new}
use hwire.Http1.State.{
  Reading, Version, http_09, http_10, Outside, State, make_busy, and_enabled, close_read,
  close_write,
}
use hwire.Http1.Transaction.{
  Tried, Wants, wants_empty, wants_expect, wants_upgrade, add, MessageHead, ParsedMessage,
  ParseContext, Transaction,
}
use hwire.Http1.Conn.{Conn, set_state, should_error_on_eof, keep_alive_and_notify}
use hwire.Http1.Conn.Write.{on_parse_error}
use hwire.Http1.Conn.Read.{is_complete_fast, set_reading}

abbrev pub is_after_10 : Version → Bool
is_after_10 http_09 = false
is_after_10 http_10 = false
is_after_10 _ = true

abbrev pub is_empty : Bytes → Bool
is_empty [] = true
is_empty (b ∷ bs) = false

module _ (out : Outside) (t : Transport) (role : Transaction out) where
  open out use {http}
  open role use {Incoming}

  abbrev pub Message : Type 0
  Message = ParsedMessage out Incoming

  abbrev pub is_partial : Option ℕ → Bytes → Bool
  is_partial none bytes = false
  is_partial (some prev_len) bytes = not (is_complete_fast bytes prev_len)

  -- `parse_headers` of role.rs
  unfoldable pub parse_headers :
      ℕ → Bytes → Option ℕ → ParseContext out → Option (Tried out Incoming)
  parse_headers fuel bytes prev_len ctx =
      if is_empty bytes || is_partial prev_len bytes
      then some ((bytes, ctx), inr none)
      else role.parse fuel bytes ctx

  -- The buffered transport and what `parse_ctx` refers to
  abbrev pub Parsing : Type 0
  Parsing = Buffered t × ParseContext out

  abbrev pub partial_of : ℕ → Option ℕ
  partial_of zero = none
  partial_of (suc n) = some (suc n)

  -- One attempt: a result, or the need for more bytes
  abbrev pub attempt : Buffered t → Tried out Incoming → Parsing × Option (Error ⊎ Message)
  attempt b ((bytes, ctx), inl e) =
      ((record b { read_buf = bytes }, ctx), some (inl (new_error (parse e))))
  attempt b ((bytes, ctx), inr (some msg)) =
      ((record b { read_buf = bytes; partial_len = none }, ctx), some (inr msg))
  attempt b ((bytes, ctx), inr none) =
      if leb (max_of b.read_buf_strategy) (length bytes)
      then ((record b { read_buf = bytes }, ctx), some (inl new_too_large))
      else ((record b { read_buf = bytes; partial_len = partial_of (length bytes) }, ctx), none)

  abbrev pub attempted :
      Buffered t → Option (Tried out Incoming) → Option (Parsing × Option (Error ⊎ Message))
  attempted b none = none
  attempted b (some tried) = some (attempt b tried)

  abbrev pub try_parse : ℕ → Parsing → Option (Parsing × Option (Error ⊎ Message))
  try_parse fuel (b, ctx) = attempted b (parse_headers fuel b.read_buf b.partial_len ctx)

  abbrev pub ParseResult : Type 0
  ParseResult = Option (Out Parsing (Error ⊎ Message))

  -- Behind the read of more bytes; `again` is the next round.
  abbrev pub read_more :
      (Parsing → ParseResult) → ParseContext out → Out (Buffered t) ℕ → ParseResult
  read_more again ctx (ready b zero) = some (ready (b, ctx) (inl new_incomplete))
  read_more again ctx (ready b (suc n)) = again (b, ctx)
  read_more again ctx (failed b e) = some (ready (b, ctx) (inl (new_io e)))
  read_more again ctx (pending b) = some (pending (b, ctx))
  read_more again ctx panicked = some panicked

  abbrev pub parsed :
      (Parsing → ParseResult) → Option (Parsing × Option (Error ⊎ Message)) → ParseResult
  parsed again none = none
  parsed again (some (p, some r)) = some (ready p r)
  parsed again (some ((b, ctx), none)) = read_more again ctx (poll_read_from_io t b)

  -- `Buffered::parse`
  unfoldable pub parse_message : ℕ → Parsing → ParseResult
  parse_message zero p = none
  parse_message (suc fuel) p = parsed (parse_message fuel) (try_parse fuel p)

  abbrev pub Head : Type 0
  Head = MessageHead out Incoming

  -- `None`, an error, or the head, the length of its body and what is wanted
  abbrev pub HeadResult : Type 0
  HeadResult = Option (Error ⊎ (Head × (DecodedLength × Wants)))

  abbrev pub closed_read : Conn out t → Conn out t
  closed_read c = record { io = consume_leading_lines t c.io; state = close_read out c.state }

  abbrev pub report : Out (Conn out t) (Option Error) → Out (Conn out t) HeadResult
  report (ready c none) = pending c
  report (ready c (some e)) = ready c (some (inl e))
  report (failed c e) = failed c e
  report (pending c) = pending c
  report panicked = panicked

  abbrev pub report_if : Bool → Conn out t → Error → Out (Conn out t) HeadResult
  report_if true c e = report (on_parse_error out t role c e)
  report_if false c e = ready (set_state out t c (close_write out c.state)) none

  -- `on_read_head_error`
  unfoldable pub on_read_head_error : Conn out t → Error → Out (Conn out t) HeadResult
  on_read_head_error c e =
      let c' = closed_read c in
      report_if ((is_parse e || not (is_empty c'.io.read_buf)) || should_error_on_eof out t c) c' e

  abbrev pub is_trailers : Option http.HeaderValue → Bool
  is_trailers none = false
  is_trailers (some v) = equal (http.value_bytes v) (codes "trailers")
    where
      equal : Bytes → Bytes → Bool
      equal [] [] = true
      equal (x ∷ xs) (y ∷ ys) = x == y && equal xs ys
      equal _ _ = false

  abbrev pub may_send_trailers : Head → Bool
  may_send_trailers h = is_trailers (http.get h.headers (http.known te))

  abbrev pub wants_of : Message → Wants
  wants_of m = if m.wants_upgrade then wants_upgrade else wants_empty

  -- The state once a head is there, before its body is looked at
  abbrev pub received_head : State out → Message → State out
  received_head s m =
      let s' : State out =
        make_busy out (record s { h09_responses = false; on_informational = none }) in
      record s' { keep_alive = and_enabled s'.keep_alive m.keep_alive; version = m.head.version }

  abbrev pub allow_trailers : Conn out t → Message → Conn out t
  allow_trailers c m =
      set_state out t c (record c.state { allow_trailer_fields = may_send_trailers m.head })

  abbrev pub result_of : Message → Wants → HeadResult
  result_of m w = some (inr (m.head, (m.decode, w)))

  abbrev pub allowed : Message → Option (Conn out t) → Out (Conn out t) HeadResult
  allowed m none = panicked
  allowed m (some k) = ready (allow_trailers k m) (result_of m (wants_of m))

  -- Whether the body is empty, and whether the peer waits for 100 Continue
  abbrev pub begin_body : Bool → Bool → Conn out t → Message → Out (Conn out t) HeadResult
  begin_body true waits c m =
      allowed m (keep_alive_and_notify out t (set_reading out t c Reading.keep_alive))
  begin_body false true c m =
      let d = new m.decode c.state.h1_max_headers none in
      ready (allow_trailers (set_reading out t c (Reading.continue d)) m)
        (result_of m (add (wants_of m) wants_expect))
  begin_body false false c m =
      let d = new m.decode c.state.h1_max_headers none in
      ready (allow_trailers (set_reading out t c (Reading.body d)) m) (result_of m (wants_of m))

  -- `poll_read_head` where a message was parsed
  unfoldable pub on_message : Conn out t → Message → Out (Conn out t) HeadResult
  on_message c m =
      begin_body (same m.decode Length.zero) (m.expect_continue && is_after_10 m.head.version)
        (set_state out t c (received_head c.state m)) m

  abbrev pub context : State out → ParseContext out
  context s = record {
    cached_headers = s.cached_headers;
    req_method = s.method;
    h1_max_headers = s.h1_max_headers;
    h09_responses = s.h09_responses;
    on_informational = s.on_informational;
  }

  abbrev pub with_context : Conn out t → Parsing → Conn out t
  with_context c (io, ctx) = record {
    io = io;
    state = record c.state {
      cached_headers = ctx.cached_headers;
      method = ctx.req_method;
      on_informational = ctx.on_informational;
    };
  }

  abbrev pub on_parsed : Conn out t → Out Parsing (Error ⊎ Message) → Out (Conn out t) HeadResult
  on_parsed c (ready p (inl e)) = on_read_head_error (with_context c p) e
  on_parsed c (ready p (inr m)) = on_message (with_context c p) m
  on_parsed c (failed p e) = failed (with_context c p) e
  on_parsed c (pending p) = pending (with_context c p)
  on_parsed c panicked = panicked

  abbrev pub read_head_from :
      Conn out t → Option (Out Parsing (Error ⊎ Message)) → Option (Out (Conn out t) HeadResult)
  read_head_from c none = none
  read_head_from c (some o) = some (on_parsed c o)

  -- `poll_read_head`
  unfoldable pub poll_read_head : ℕ → Conn out t → Option (Out (Conn out t) HeadResult)
  poll_read_head fuel c = read_head_from c (parse_message fuel (c.io, context c.state))
