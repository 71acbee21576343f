-- ===== src/Http1/Role/Total.antt =====
-- `Client::parse` comes to an answer, given a parser that stays within the bytes it was handed.
use hwire.Base.{
  if◌then◌else◌, not, ◌&&◌, subst, ℕ, zero, suc, ◌+◌, ◌≤◌, ◌<◌, ◌≡◌, ◌⊎◌, inl, inr, refl, sym, ap,
  ◌∙◌, Bool, true, false, Bool-cases, Option, none, some, List, [], ◌∷◌, leb, Bytes, length, take,
  drop, drop_add, length-take, length-drop, arith,
}
use hwire.Error
use hwire.Http1.State.{Outside}
use hwire.Http1.Transaction.{ParseContext, Tried}
use hwire.Http1.Role.{
  RoleCrate, Located, ResponseLine, Scanned, complete, partial, refused, bad_version,
}
use hwire.Http1.Role.Fold.{record_header_indices}
use hwire.Http1.Role.Decoder.{Framed, body_of}
use hwire.Http1.Role.Rules.{Decides, Delimits, interim}
use hwire.Http1.Role.Decided.{decoder-Decides}
use hwire.Http1.Role.Parser.{
  ReadHead, HeadResult, Message, Head, Collected, scanned_head, with_indices, head_of, Round,
  finished, next, decided, with_headers, with_lines, with_head, round, parse, inform, or_stop,
  taken, room_for,
}
use hwire.Http1.Role.Within.{
  AllWithin, ParserLaws, FoldedAll, lines-FoldedAll, IsSome, append_all-IsSome,
}

module _ (out : Outside) (r : RoleCrate out) where
  open out use {http, Method}

  -- The message is delimited by the rules, and an upgrade ends the connection's keep-alive.
  pub record IsMessage (method : Option Method) (m : Message out r) : Type 0 where
    pub delimited : Delimits out m.head method (body_of m.decode m.wants_upgrade)
    pub no_reuse : m.wants_upgrade ≡ true → m.keep_alive ≡ false

  abbrev pub Tells : Option Method → Error.Parse ⊎ Option (Message out r) → Type 0
  Tells method (inr (some m)) = IsMessage method m
  Tells method _ = Unit

  -- An answer leaves a suffix of the buffer.
  pub record IsAnswer (buf : Bytes) (method : Option Method) (t : Tried out ℕ) : Type 0 where
    pub consumed : ℕ
    pub rest : t.0.0 ≡ drop consumed buf
    pub tells : Tells method t.1

  abbrev pub Answered : Bytes → Option Method → Option (Tried out ℕ) → Type 0
  Answered buf method none = ⊥
  Answered buf method (some t) = IsAnswer buf method t

  record Skips (buf : Bytes) (method : Option Method) (buf' : Bytes) (ctx : ParseContext out)
      : Type 0 where
    by : ℕ
    some_byte : 1 ≤ by
    inside : by ≤ length buf
    rest : buf' ≡ drop by buf
    same : ctx.req_method ≡ method

  abbrev RoundOk : Bytes → Option Method → Option (Round out r) → Type 0
  RoundOk buf method none = ⊥
  RoundOk buf method (some (finished t)) = IsAnswer buf method t
  RoundOk buf method (some (next buf' ctx)) = Skips buf method buf' ctx

  answer :
      (buf : Bytes) (k : ℕ) (ctx : ParseContext out) (e : Error.Parse) (method : Option Method)
      → IsAnswer buf method ((drop k buf, ctx), inl e)
  answer buf k ctx e method = record { consumed = k; rest = refl; tells = tt }

  req_method-inform :
      (ctx : ParseContext out) (head : Head out r)
      → (inform out r ctx head).req_method ≡ ctx.req_method
  unfolding inform
  req_method-inform ctx head = elim (Bool-cases (r.is_informational head.subject)) [
    | inl q ↦ rw q refl
    | inr q ↦ rw q refl
  ]

  -- A head that is read: it lies within the buffer, and only one of status 200 may be empty.
  record HeadOk (buf : Bytes) (h : ReadHead) : Type 0 where
    proper : (1 ≤ h.len) ⊎ (h.status ≡ 200)
    inside : h.len ≤ length buf
    located : AllWithin h.len h.located

  skips-proper : (s : ℕ) (n : ℕ) → (1 ≤ n) ⊎ (s ≡ 200) → s ≤ 199 → 1 ≤ n
  skips-proper s n (inl h) k = h
  skips-proper s n (inr h) k = absurd (omega (arith, h, k))

  and_not : (a b : Bool) → b ≡ true → (a && not b) ≡ false
  and_not true b e = rw e refl
  and_not false b e = refl

  decided-RoundOk :
      (buf : Bytes) (ctx : ParseContext out) (h : ReadHead) (head : Head out r) (ka : Bool)
      (f : Framed)
      → HeadOk buf h
      → head.subject ≡ h.status
      → Decides out head ctx.req_method f
      → RoundOk buf ctx.req_method (some (decided out r (drop h.len buf) ctx head ka f))
  unfolding decided
  decided-RoundOk buf ctx h head ka (inl e) ok s d = answer buf h.len ctx e ctx.req_method
  decided-RoundOk buf ctx h head ka (inr (some (n, up))) ok s (inl d) = record {
    consumed = h.len;
    rest = refl;
    tells = record { delimited = d; no_reuse = λ e. and_not ka up e };
  }
  decided-RoundOk buf ctx h head ka (inr (some (n, up))) ok s (inr d) = elim d [ ]
  decided-RoundOk buf ctx h head ka (inr none) ok s (inr d) = elim d [ ]
  decided-RoundOk buf ctx h head ka (inr none) ok s (inl (interim low high ne)) = record {
    by = h.len;
    some_byte = skips-proper h.status h.len ok.proper (omega (arith, s, high));
    inside = ok.inside;
    rest = refl;
    same = req_method-inform ctx head;
  }

  with_headers-RoundOk :
      (buf : Bytes) (ctx : ParseContext out) (h : ReadHead) (o : Option (Option (Collected out r)))
      → HeadOk buf h
      → IsSome out r o
      → RoundOk buf ctx.req_method (with_headers out r (drop h.len buf) ctx h o)
  unfolding with_headers
  with_headers-RoundOk buf ctx h none ok s = absurd s
  with_headers-RoundOk buf ctx h (some none) ok s = answer buf h.len ctx _ ctx.req_method
  with_headers-RoundOk buf ctx h (some (some (headers, ka))) ok s =
      decided-RoundOk buf ctx h (head_of out r h headers) ka _ ok refl
        (decoder-Decides out (head_of out r h headers) ctx.req_method)

  with_lines-RoundOk :
      (buf : Bytes) (ctx : ParseContext out) (h : ReadHead) (o : Option (Bytes × List Located))
      → HeadOk buf h
      → FoldedAll h.len o
      → RoundOk buf ctx.req_method (with_lines out r (drop h.len buf) ctx h o)
  unfolding with_lines
  with_lines-RoundOk buf ctx h none ok f = absurd f
  with_lines-RoundOk buf ctx h (some (all, is)) ok (k, w) =
      with_headers-RoundOk buf (taken out r ctx) h _ ok
        (append_all-IsSome out r all is _ (subst (λ n. AllWithin n is) (sym k) w))

  abbrev ResultOk : Bytes → HeadResult → Type 0
  ResultOk buf (inr (some h)) = HeadOk buf h
  ResultOk buf _ = Unit

  with_head-RoundOk :
      (buf : Bytes) (ctx : ParseContext out) (x : HeadResult)
      → ResultOk buf x
      → RoundOk buf ctx.req_method (with_head out r buf ctx x)
  unfolding with_head
  with_head-RoundOk buf ctx (inl e) ok = answer buf 0 ctx e ctx.req_method
  with_head-RoundOk buf ctx (inr none) ok = record { consumed = 0; rest = refl; tells = tt }
  with_head-RoundOk buf ctx (inr (some h)) ok =
      let q : leb h.len (length buf) ≡ true = ground (arith, ok.inside) in
      let k : length (take h.len buf) ≡ h.len = omega (arith, length-take h.len buf, ok.inside) in
      rw q (
        with_lines-RoundOk buf ctx h _ ok
          (lines-FoldedAll out r (take h.len buf) h.located h.len k ok.located))

  with_indices-ResultOk :
      (buf : Bytes) (l : ResponseLine) (x : Error.Parse ⊎ List Located)
      → (1 ≤ l.len) × ((l.len ≤ length buf) × AllWithin l.len l.located)
      → ((is : List Located) → x ≡ inr is → is ≡ l.located)
      → ResultOk buf (with_indices out r l x)
  with_indices-ResultOk buf l (inl e) (a, (b, w)) same = tt
  with_indices-ResultOk buf l (inr is) (a, (b, w)) same = record {
    proper = inl a;
    inside = b;
    located = subst (AllWithin l.len) (sym (same is refl)) w;
  }

  recorded : (hs is : List Located) → record_header_indices hs ≡ inr is → is ≡ hs
  unfolding record_header_indices
  recorded [] is e = cc
  recorded (h ∷ hs) is e =
      go (record_header_indices hs) (λ is' q. recorded hs is' q) (leb 65536 h.name_len) e
    where
      go :
          (x : Error.Parse ⊎ List Located)
          → ((is' : List Located) → x ≡ inr is' → is' ≡ hs)
          → (b : Bool)
          → ◌≡◌ {A = Error.Parse ⊎ List Located}
              (if b then inl Error.too_large else elim x [ inl e ↦ inl e | inr is ↦ inr (h ∷ is) ])
              (inr is)
          → is ≡ h ∷ hs
      go x ih true z = absurd (cc)
      go (inl e) ih false z = absurd (cc)
      go (inr is') ih false z = let y = ih is' refl in cc

  scanned_head-ResultOk :
      (buf : Bytes) (room : ℕ) (h09 : Bool) (x : Scanned)
      → ParserLaws r
      → r.parse_response buf room ≡ x
      → ResultOk buf (scanned_head out r h09 x)
  unfolding scanned_head
  scanned_head-ResultOk buf room h09 (complete l) laws e = elim (Bool-cases (r.is_status l.code)) [
    | inl q ↦ rw q (
        with_indices-ResultOk buf l (record_header_indices l.located)
          (laws.points_inside buf room l e) (λ is z. recorded l.located is z))
    | inr q ↦ rw q tt
  ]
  scanned_head-ResultOk buf room h09 partial laws e = tt
  scanned_head-ResultOk buf room true (refused bad_version) laws e = record {
    proper = inr refl;
    inside = omega arith;
    located = tt;
  }
  scanned_head-ResultOk buf room false (refused x) laws e = tt
  scanned_head-ResultOk buf room true (refused x) laws e = tt

  round-RoundOk :
      (buf : Bytes) (ctx : ParseContext out)
      → ParserLaws r
      → RoundOk buf ctx.req_method (round out r buf ctx)
  unfolding round
  round-RoundOk buf ctx laws =
      with_head-RoundOk buf ctx _
        (scanned_head-ResultOk buf (room_for ctx.h1_max_headers) ctx.h09_responses _ laws refl)

  later-Answered :
      (buf : Bytes) (k : ℕ) (method : Option Method) (o : Option (Tried out ℕ))
      → Answered (drop k buf) method o
      → Answered buf method o
  later-Answered buf k method none a = a
  later-Answered buf k method (some t) a = record {
    consumed = k + a.consumed;
    rest = a.rest ∙ sym (drop_add k a.consumed buf);
    tells = a.tells;
  }

  or_stop-Answered :
      (buf : Bytes) (ctx : ParseContext out) (method : Option Method) (o : Option (Tried out ℕ))
      → Answered buf method o
      → Answered buf method (or_stop out r buf ctx o)
  or_stop-Answered [] ctx method o a = record { consumed = 0; rest = refl; tells = tt }
  or_stop-Answered (b ∷ bs) ctx method o a = a

  -- With a parser that keeps to the laws, and more fuel than there are bytes, `parse` neither panics
  -- nor runs on: it comes to an answer. That answer leaves a suffix of the buffer, whichever
  -- informational heads it skipped, and a message of it is delimited by the rules of RFC 7230 for
  -- the method of the request; where the message upgrades, the connection is not to be reused.
  pub parse-Answered :
      (fuel : ℕ) (buf : Bytes) (ctx : ParseContext out)
      → ParserLaws r
      → length buf < fuel
      → Answered buf ctx.req_method (parse out r fuel buf ctx)
  unfolding parse
  parse-Answered zero buf ctx laws h = absurd (omega (arith, h))
  parse-Answered (suc fuel) buf ctx laws h =
      go (round out r buf ctx) (round-RoundOk buf ctx laws)
        (λ buf' ctx' k. parse-Answered fuel buf' ctx' laws k)
    where
      go :
          (o : Option (Round out r))
          → RoundOk buf ctx.req_method o
          → ((buf' : Bytes) (ctx' : ParseContext out)
              → length buf' < fuel
              → Answered buf' ctx'.req_method (parse out r fuel buf' ctx'))
          → Answered buf ctx.req_method (elim o [
            | none ↦ none
            | some (finished t) ↦ some t
            | some (next buf' ctx') ↦ or_stop out r buf' ctx' (parse out r fuel buf' ctx')
          ])
      go none ok ih = absurd ok
      go (some (finished t)) ok ih = ok
      go (some (next buf' ctx')) ok ih =
          let k : length buf' < fuel = omega (
            arith,
            h,
            ok.some_byte,
            ok.inside,
            length-drop ok.by buf,
            ap (λ x. length x) ok.rest,
          ) in
          let a =
            subst (λ m. Answered buf' m (parse out r fuel buf' ctx')) ok.same (ih buf' ctx' k) in
          let b = or_stop-Answered buf' ctx' ctx.req_method _ a in
          later-Answered buf ok.by ctx.req_method _ (
            subst
              (λ x.
                Answered x ctx.req_method (or_stop out r buf' ctx' (parse out r fuel buf' ctx')))
              ok.rest b)
