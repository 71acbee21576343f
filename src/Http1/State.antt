-- ===== src/Http1/State.antt =====
-- `State` of proto/http1/conn.rs: what a connection may read and write next, and its keep-alive.
pub mod Laws
use hwire.Base.{ℕ, Bool, true, false, not, Option, none, some, List, Bytes}
use hwire.HttpCrate.{HttpCrate, KnownMethod}
use hwire.Error.{Error}
use hwire.Http1.Decode.{Decoder}
use hwire.Http1.Encode.{Encoder}

pub data Reading : Type 0 where
  init : Reading
  continue : Decoder → Reading
  body : Decoder → Reading
  keep_alive : Reading
  closed : Reading

pub data Ka : Type 0 where
  idle busy disabled : Ka

pub data Version : Type 0 where
  http_09 http_10 http_11 http_2 http_3 : Version

-- `self.keep_alive &= enabled`
unfoldable pub and_enabled : Ka → Bool → Ka
and_enabled k true = k
and_enabled k false = disabled

abbrev pub is_disabled : Ka → Bool
is_disabled disabled = true
is_disabled _ = false

abbrev pub is_idle_status : Ka → Bool
is_idle_status idle = true
is_idle_status _ = false

-- What the connection keeps of other code: the crate `http`, its methods, the user's callbacks for
-- informational responses and for the order of headers, and the sender of a pending upgrade.
pub record Outside : Type 1 where
  pub http : HttpCrate
  pub Method : Type 0
  pub is_method : Method → KnownMethod → Bool
  pub method_str : Method → Bytes
  pub OnInformational : Type 0
  -- a call with a version, a status, headers and a reason phrase, and what the callback is after it
  pub call : OnInformational → Version → ℕ → http.HeaderMap → Option Bytes → OnInformational
  pub OnPreserveHeader : Type 0
  -- the names and values that `call_visit` visits
  pub call_visit : OnPreserveHeader → http.HeaderMap → List (Bytes × http.HeaderValue)
  pub Pending : Type 0

module _ (out : Outside) where
  open out use {http, Method, OnInformational, Pending}

  pub data Writing : Type 0 where
    init : Writing
    body : Encoder http → Writing
    keep_alive : Writing
    closed : Writing

  pub record State : Type 0 where
    pub allow_half_close : Bool
    pub cached_headers : Option http.HeaderMap
    pub error : Option Error
    pub keep_alive : Ka
    pub method : Option Method
    pub h1_max_headers : Option ℕ
    pub h09_responses : Bool
    pub on_informational : Option OnInformational
    pub notify_read : Bool
    pub reading : Reading
    pub writing : Writing
    pub upgrade : Option Pending
    pub version : Version
    pub allow_trailer_fields : Bool

  -- The state of `Conn::new`
  abbrev pub new_state : State
  new_state = record {
    allow_half_close = false;
    cached_headers = none;
    error = none;
    keep_alive = busy;
    method = none;
    h1_max_headers = none;
    h09_responses = false;
    on_informational = none;
    notify_read = false;
    reading = Reading.init;
    writing = Writing.init;
    upgrade = none;
    version = http_11;
    allow_trailer_fields = false;
  }

  unfoldable pub close : State → State
  close s = record s { reading = Reading.closed; writing = Writing.closed; keep_alive = disabled }

  unfoldable pub close_read : State → State
  close_read s = record s { reading = Reading.closed; keep_alive = disabled }

  unfoldable pub close_write : State → State
  close_write s = record s { writing = Writing.closed; keep_alive = disabled }

  abbrev pub wants_keep_alive : State → Bool
  wants_keep_alive s = not (is_disabled s.keep_alive)

  abbrev pub is_idle : State → Bool
  is_idle s = is_idle_status s.keep_alive

  abbrev pub is_read_closed : State → Bool
  is_read_closed s = elim s.reading [ Reading.closed ↦ true | _ ↦ false ]

  abbrev pub is_write_closed : State → Bool
  is_write_closed s = elim s.writing [ Writing.closed ↦ true | _ ↦ false ]

  abbrev pub disable_keep_alive : State → State
  disable_keep_alive s = record s { keep_alive = disabled }

  abbrev pub busy_again : Ka → Ka
  busy_again disabled = disabled
  busy_again _ = busy

  -- `State::busy`
  unfoldable pub make_busy : State → State
  make_busy s = record s { keep_alive = busy_again s.keep_alive }

  abbrev pub reset_both : State → State
  reset_both s = record s { reading = Reading.init; writing = Writing.init; notify_read = true }

  -- `State::idle`
  unfoldable pub make_idle : State → State
  unfolding close
  make_idle s =
      let s' : State = record s { method = none; keep_alive = idle } in
      elim (is_idle s') [ true ↦ reset_both s' | false ↦ close s' ]

  abbrev pub keep_or_close : Ka → State → State
  unfolding make_idle close
  keep_or_close busy s = make_idle s
  keep_or_close _ s = close s

  abbrev pub both_done : Reading → Writing → State → State
  both_done Reading.keep_alive Writing.keep_alive s = keep_or_close s.keep_alive s
  both_done Reading.closed Writing.keep_alive s = close s
  both_done Reading.keep_alive Writing.closed s = close s
  both_done _ _ s = s

  -- `State::try_keep_alive`
  unfoldable pub try_keep_alive : State → State
  try_keep_alive s = both_done s.reading s.writing s

  abbrev pub prepare_upgrade : State → Pending → State
  prepare_upgrade s tx = record s { upgrade = some tx }
