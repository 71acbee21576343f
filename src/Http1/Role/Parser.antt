-- ===== src/Http1/Role/Parser.antt =====
-- `Client::parse` of proto/http1/role.rs, in a release build: a header name that `http` refuses is
-- the error `internal`. `none` is a panic, or a lack of fuel for the loop.
use hwire.Base.{
  ℕ, zero, suc, Bool, true, false, not, ◌&&◌, Option, none, some, List, [], ◌∷◌, ◌⊎◌, inl, inr,
  ◌==◌, leb, if◌then◌else◌, Bytes, length, take, drop,
}
use hwire.HttpCrate.{connection}
use hwire.Error.{internal, status}
use hwire.Error
use hwire.Body.Length.{DecodedLength}
use hwire.Http1.Chunked.{default_max_headers}
use hwire.Http1.Headers.{connection_close, connection_keep_alive}
use hwire.Http1.State.{Outside, Version, http_09, http_10, http_11}
use hwire.Http1.Transaction.{MessageHead, ParsedMessage, ParseContext, Tried}
use hwire.Http1.Role.{
  RoleCrate, Located, ResponseLine, Scanned, complete, partial, refused, bad_version, from_parser,
}
use hwire.Http1.Role.Fold.{slice, fold_all, record_header_indices}
use hwire.Http1.Role.Decoder.{Framed, decoder}

-- A head that was read: its bytes, status, reason, version and headers
pub record ReadHead : Type 0 where
  pub len : ℕ
  pub status : ℕ
  pub reason : Option Bytes
  pub version : Version
  pub located : List Located

-- `Ok(None)`, a head, or an error
abbrev pub HeadResult : Type 0
HeadResult = Error.Parse ⊎ Option ReadHead

abbrev equal : Bytes → Bytes → Bool
equal [] [] = true
equal (x ∷ xs) (y ∷ ys) = x == y && equal xs ys
equal _ _ = false

-- The reason phrase, unless it is the one that goes with the status
abbrev pub own_reason : Bytes → Option Bytes → Option Bytes
own_reason reason none = some reason
own_reason reason (some canonical) = if equal reason canonical then none else some reason

abbrev pub room_for : Option ℕ → ℕ
room_for none = default_max_headers
room_for (some cap) = cap

abbrev pub is_http_11 : Version → Bool
is_http_11 http_11 = true
is_http_11 _ = false

module _ (out : Outside) (r : RoleCrate out) where
  open out use {http, Method, OnInformational}
  open http use {HeaderMap, HeaderName}
  open r use {is_status, canonical_reason, parse_response}

  abbrev pub Message : Type 0
  Message = ParsedMessage out ℕ

  abbrev pub Head : Type 0
  Head = MessageHead out ℕ

  abbrev pub with_indices : ResponseLine → Error.Parse ⊎ List Located → HeadResult
  with_indices l (inl e) = inl e
  with_indices l (inr is) = inr (
      some (record {
        len = l.len;
        status = l.code;
        reason = own_reason l.reason (canonical_reason l.code);
        version = if l.minor == 1 then http_11 else http_10;
        located = is;
      }))

  -- The answer of the parser
  unfoldable pub scanned_head : Bool → Scanned → HeadResult
  unfolding record_header_indices
  scanned_head h09 (complete l) =
      if is_status l.code then with_indices l (record_header_indices l.located) else inl status
  scanned_head h09 partial = inr none
  scanned_head true (refused bad_version) =
      inr (some (record { len = 0; status = 200; reason = none; version = http_09; located = [] }))
  scanned_head _ (refused e) = inl (from_parser e)

  unfoldable pub keeps : HeaderName → http.HeaderValue → Bool → Bool
  keeps name value keep_alive =
      if http.same_name name (http.known connection)
      then (if keep_alive
          then not (connection_close http value)
          else connection_keep_alive http value)
      else keep_alive

  -- The loop over the headers, with what it collects
  abbrev pub Collected : Type 0
  Collected = HeaderMap × Bool

  unfoldable pub append_one : Collected → Option HeaderName → Bytes → Option Collected
  unfolding keeps
  append_one (headers, ka) none value = none
  append_one (headers, ka) (some name) value =
      let v = http.unchecked value in some (http.append headers name v, keeps name v ka)

  -- `none` is a panic, and `some none` the error of `header_name!`.
  unfoldable pub append_slices : Collected → Option Bytes → Option Bytes → Option (Option Collected)
  unfolding append_one
  append_slices c (some name) (some value) = some (append_one c (http.name_try_from name) value)
  append_slices c _ _ = none

  unfoldable pub append_all : Bytes → List Located → Collected → Option (Option Collected)
  unfolding append_slices slice
  append_all all [] c = some (some c)
  append_all all (i ∷ is) c =
      elim (append_slices c (slice all i.name_start i.name_len)
        (slice all i.value_start i.value_len)) [
          | none ↦ none
          | some none ↦ some none
          | some (some c') ↦ append_all all is c'
        ]

  abbrev pub or_empty : Option HeaderMap → HeaderMap
  or_empty none = http.empty
  or_empty (some m) = m

  abbrev pub head_of : ReadHead → HeaderMap → Head
  head_of h headers = record {
    version = h.version;
    subject = h.status;
    headers = headers;
    on_informational = none;
    on_preserve = none;
    reason_phrase = h.reason;
  }

  abbrev pub taken : ParseContext out → ParseContext out
  taken ctx = record ctx { cached_headers = none }

  -- `callback.call` for a status that is informational
  abbrev pub called : Option OnInformational → Head → Option OnInformational
  called none head = none
  called (some callback) head =
      some (out.call callback head.version head.subject head.headers head.reason_phrase)

  unfoldable pub inform : ParseContext out → Head → ParseContext out
  inform ctx head =
      if r.is_informational head.subject
      then record ctx { on_informational = called ctx.on_informational head }
      else ctx

  abbrev pub message_of : Head → Bool → DecodedLength → Bool → Message
  message_of head keep_alive d is_upgrade = record {
    head = head;
    decode = d;
    expect_continue = false;
    keep_alive = keep_alive && not is_upgrade;
    wants_upgrade = is_upgrade;
  }

  -- The outcome of one round: the function is done, or goes on behind a head that it skipped.
  pub data Round : Type 0 where
    finished : Tried out ℕ → Round
    next : Bytes → ParseContext out → Round

  unfoldable pub decided : Bytes → ParseContext out → Head → Bool → Framed → Round
  unfolding inform
  decided buf ctx head ka (inl e) = finished ((buf, ctx), inl e)
  decided buf ctx head ka (inr (some (d, up))) =
      finished ((buf, ctx), inr (some (message_of head ka d up)))
  decided buf ctx head ka (inr none) = next buf (inform ctx head)

  -- From the headers on, with what is behind the head in the buffer
  unfoldable pub with_headers :
      Bytes → ParseContext out → ReadHead → Option (Option Collected) → Option Round
  unfolding decided
  with_headers buf ctx h none = none
  with_headers buf ctx h (some none) = some (finished ((buf, ctx), inl internal))
  with_headers buf ctx h (some (some (headers, ka))) =
      some (decided buf ctx (head_of h headers) ka (decoder out (head_of h headers) ctx.req_method))

  unfoldable pub with_lines :
      Bytes → ParseContext out → ReadHead → Option (Bytes × List Located) → Option Round
  unfolding with_headers append_all
  with_lines buf ctx h none = none
  with_lines buf ctx h (some (all, is)) =
      with_headers buf (taken ctx) h
        (append_all all is (or_empty ctx.cached_headers, is_http_11 h.version))

  unfoldable pub lines : Bytes → List Located → Option (Bytes × List Located)
  unfolding fold_all
  lines all is = if r.obsolete_multiline_allowed then fold_all all is else some (all, is)

  -- Behind the parser; `split_to` panics where the head is longer than the buffer.
  unfoldable pub with_head : Bytes → ParseContext out → HeadResult → Option Round
  unfolding with_lines lines
  with_head buf ctx (inl e) = some (finished ((buf, ctx), inl e))
  with_head buf ctx (inr none) = some (finished ((buf, ctx), inr none))
  with_head buf ctx (inr (some h)) =
      if leb h.len (length buf)
      then with_lines (drop h.len buf) ctx h (lines (take h.len buf) h.located)
      else none

  unfoldable pub round : Bytes → ParseContext out → Option Round
  unfolding with_head scanned_head
  round buf ctx =
      with_head buf ctx
        (scanned_head ctx.h09_responses (parse_response buf (room_for ctx.h1_max_headers)))

  abbrev pub is_empty : Bytes → Bool
  is_empty [] = true
  is_empty (b ∷ bs) = false

  abbrev pub or_stop : Bytes → ParseContext out → Option (Tried out ℕ) → Option (Tried out ℕ)
  or_stop buf ctx more = if is_empty buf then some ((buf, ctx), inr none) else more

  -- `Client::parse`
  unfoldable pub parse : ℕ → Bytes → ParseContext out → Option (Tried out ℕ)
  unfolding round
  parse zero buf ctx = none
  parse (suc fuel) buf ctx = elim (round buf ctx) [
    | none ↦ none
    | some (finished t) ↦ some t
    | some (next buf' ctx') ↦ or_stop buf' ctx' (parse fuel buf' ctx')
  ]
