-- ===== src/Http1/Role/Client.antt =====
-- `Client::encode` and the client as an `Http1Transaction`, of proto/http1/role.rs.
use hwire.Base.{ℕ, Option, none, some, List, [], ◌∷◌, ◌++◌, inr, Bytes, codes}
use hwire.Error.{Error}
use hwire.Http1.Encode.{write_headers}
use hwire.Http1.State.{Outside, Version, http_09, http_10, http_11, http_2, http_3}
use hwire.Http1.Transaction.{BodyLength, MessageHead, Encoded, Transaction}
use hwire.Http1.Role.{RoleCrate, RequestLine}
use hwire.Http1.Role.Length.{Sized, set_length}
use hwire.Http1.Role.Parser.{parse}

-- The version in the request line; `none` is the panic on a version that has none.
unfoldable pub version_str : Version → Option Bytes
version_str http_10 = some (codes "HTTP/1.0")
version_str http_11 = some (codes "HTTP/1.1")
version_str http_2 = some (codes "HTTP/1.1")
version_str http_09 = none
version_str http_3 = none

module _ (out : Outside) (r : RoleCrate out) where
  open out use {http, Method, OnPreserveHeader}

  abbrev pub Request : Type 0
  Request = MessageHead out (RequestLine out r)

  -- The callback of `call_visit`
  unfoldable pub visited : Bytes × http.HeaderValue → Bytes
  visited (name, value) = elim (http.value_bytes value) [
    | [] ↦ name ++ codes ":\r\n"
    | b ∷ bs ↦ name ++ (codes ": " ++ ((b ∷ bs) ++ codes "\r\n"))
  ]

  unfoldable pub visit_all : List (Bytes × http.HeaderValue) → Bytes
  unfolding visited
  visit_all [] = []
  visit_all (h ∷ hs) = visited h ++ visit_all hs

  unfoldable pub header_lines : Option OnPreserveHeader → http.HeaderMap → Bytes
  unfolding visit_all write_headers
  header_lines none headers = write_headers http (http.iter headers)
  header_lines (some sort) headers = visit_all (out.call_visit sort headers)

  abbrev pub request_line : Request → Bytes → Bytes
  request_line head version =
      out.method_str head.subject.method
      ++ (codes " " ++ (r.uri_str head.subject.uri ++ (codes " " ++ (version ++ codes "\r\n"))))

  unfoldable pub written_head : Request → Option (Sized out) → Option Bytes → Option (Encoded out)
  unfolding header_lines
  written_head head (some (headers, enc)) (some version) = some (record {
    dst = request_line head version ++ (header_lines head.on_preserve headers ++ codes "\r\n");
    req_method = some head.subject.method;
    headers = http.empty;
    result = inr enc;
  })
  written_head head _ _ = none

  -- `Client::encode`; the method that the connection held before is replaced.
  unfoldable pub encode : Request → Option BodyLength → Option Method → Option (Encoded out)
  unfolding written_head set_length version_str
  encode head body before =
      written_head head (set_length out head.version head.subject.method head.headers body)
        (version_str head.version)

  abbrev pub on_error : Error → Option Request
  on_error err = none

  -- `impl Http1Transaction for Client`
  abbrev pub client : Transaction out
  client = record {
    Incoming = ℕ;
    Outgoing = RequestLine out r;
    parse = parse out r;
    encode = encode;
    on_error = on_error;
  }
