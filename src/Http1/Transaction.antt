-- ===== src/Http1/Transaction.antt =====
-- `Http1Transaction` of proto/http1.rs, the role that a connection is given, with what it takes and
-- returns, and `MessageHead` of proto.rs.
use hwire.Base.{ℕ, Bool, true, false, ◌||◌, Option, ◌⊎◌, Bytes}
use hwire.Error.{Error, Parse}
use hwire.Body.Length.{DecodedLength}
use hwire.Http1.Encode.{Encoder}
use hwire.Http1.State.{Version, Outside}

pub data BodyLength : Type 0 where
  known : ℕ → BodyLength
  unknown : BodyLength

-- The two bits of `Wants`
pub record Wants : Type 0 where
  pub expect : Bool
  pub upgrade : Bool

abbrev pub wants_empty : Wants
wants_empty = record { expect = false; upgrade = false }

abbrev pub wants_expect : Wants
wants_expect = record { expect = true; upgrade = false }

abbrev pub wants_upgrade : Wants
wants_upgrade = record { expect = false; upgrade = true }

unfoldable pub add : Wants → Wants → Wants
add a b = record { expect = a.expect || b.expect; upgrade = a.upgrade || b.upgrade }

module _ (out : Outside) where
  open out use {http, Method, OnInformational, OnPreserveHeader}

  -- Of the extensions, the callbacks and the reason phrase
  pub record MessageHead (S : Type 0) : Type 0 where
    pub version : Version
    pub subject : S
    pub headers : http.HeaderMap
    pub on_informational : Option OnInformational
    pub on_preserve : Option OnPreserveHeader
    pub reason_phrase : Option Bytes

  pub record ParsedMessage (S : Type 0) : Type 0 where
    pub head : MessageHead S
    pub decode : DecodedLength
    pub expect_continue : Bool
    pub keep_alive : Bool
    pub wants_upgrade : Bool

  pub record ParseContext : Type 0 where
    pub cached_headers : Option http.HeaderMap
    pub req_method : Option Method
    pub h1_max_headers : Option ℕ
    pub h09_responses : Bool
    pub on_informational : Option OnInformational

  -- What `encode` leaves: the headers that it gives back, the method, and what it appended
  pub record Encoded : Type 0 where
    pub dst : Bytes
    pub req_method : Option Method
    pub headers : http.HeaderMap
    pub result : Error ⊎ Encoder http

  abbrev pub Tried : Type 0 → Type 0
  Tried S = (Bytes × ParseContext) × (Parse ⊎ Option (ParsedMessage S))

  -- The number is fuel for a loop in `parse`, and `none` a lack of it; `none` of `encode` is a panic.
  pub record Transaction : Type 1 where
    pub Incoming : Type 0
    pub Outgoing : Type 0
    pub parse : ℕ → Bytes → ParseContext → Option (Tried Incoming)
    pub encode : MessageHead Outgoing → Option BodyLength → Option Method → Option Encoded
    pub on_error : Error → Option (MessageHead Outgoing)
