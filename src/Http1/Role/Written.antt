-- ===== src/Http1/Role/Written.antt =====
-- The heads that `Client::encode` writes: a request line has no words for HTTP/0.9 and HTTP/3.
use hwire.Base.{◌≢◌, refl, Option, none, some, Bytes}
use hwire.Http1.State.{Outside, Version, http_09, http_10, http_11, http_2, http_3}
use hwire.Http1.Transaction.{BodyLength}
use hwire.Http1.Headers.MapLaws.{MapLaws}
use hwire.Http1.Role.{RoleCrate}
use hwire.Http1.Role.Length.{Sized}
use hwire.Http1.Role.Repaired.{set_length-total}
use hwire.Http1.Role.Client.{Request, version_str, written_head, encode}

-- HTTP/1.0, HTTP/1.1 and HTTP/2
abbrev pub IsSpoken : Version → Type 0
IsSpoken http_09 = ⊥
IsSpoken http_3 = ⊥
IsSpoken _ = Unit

version_str-IsSpoken : (v : Version) → IsSpoken v → version_str v ≢ none
unfolding version_str
version_str-IsSpoken http_10 h = λ e. cc
version_str-IsSpoken http_11 h = λ e. cc
version_str-IsSpoken http_2 h = λ e. cc
version_str-IsSpoken http_09 h = absurd h
version_str-IsSpoken http_3 h = absurd h

module _ (out : Outside) (r : RoleCrate out) (laws : MapLaws out.http) where
  written_head-total :
      (head : Request out r) (sized : Option (Sized out)) (version : Option Bytes)
      → sized ≢ none
      → version ≢ none
      → written_head out r head sized version ≢ none
  unfolding written_head
  written_head-total head none version h k = absurd (h refl)
  written_head-total head (some (headers, e)) none h k = absurd (k refl)
  written_head-total head (some (headers, e)) (some text) h k = λ e. cc

  -- A request in one of these versions is written, whatever its headers and its body.
  pub encode-IsSpoken :
      (head : Request out r) (body : Option BodyLength) (before : Option out.Method)
      → IsSpoken head.version
      → encode out r head body before ≢ none
  unfolding encode
  encode-IsSpoken head body before h =
      written_head-total head _ _
        (set_length-total out laws head.version head.subject.method head.headers body)
        (version_str-IsSpoken head.version h)
