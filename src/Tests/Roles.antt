-- ===== src/Tests/Roles.antt =====
-- The client's role of proto/http1/role.rs with a parser that takes twenty bytes for a head.
use hwire.Base.{
  List, Option, inl, subst, ◌↔◌, ℕ, ◌≤◌, ◌≡◌, refl, Bool, true, false, none, some, [], ◌∷◌, Bytes,
  codes, length, leb, if◌then◌else◌, arith, take,
}
use hwire.HttpCrate.{content_length, KnownMethod}
use hwire.Http1.State.{http_11}
use hwire.Http1.Transaction.{MessageHead, ParseContext, known}
use hwire.Http1.Conn.Read.{has_end, is_complete_fast}
use hwire.Http1.Conn.Scan.{
  HasBlankLine, empty_crlf, behind, EndsAlike, is_complete_fast-HasBlankLine,
}
use hwire.Http1.Role.{RoleCrate, Located, ResponseLine, Scanned, complete, partial}
use hwire.Http1.Role.Fold.{obs_fold_line}
use hwire.Http1.Role.Folded.{Folds, obs_fold_line-Folds}
use hwire.Http1.Role.Within.{AllWithin, ParserLaws}
use hwire.Http1.Role.Parser.{parse}
use hwire.Http1.Role.Total.{Answered, parse-Answered}
use hwire.Http1.Role.Length.{Sized, set_length}
use hwire.Http1.Role.Framing.{AgreeIn, set_length-Agree}
use hwire.Tests.Maps.{crate-MapLaws}
use hwire.Tests.Connection.{outside}

abbrev twenty : ResponseLine
twenty = record {
  len = 20;
  code = 200;
  reason = codes "OK";
  minor = 1;
  located = record { name_start = 0; name_len = 3; value_start = 5; value_len = 10 } ∷ [];
}

abbrev scan : Bytes → Scanned
scan buf = if leb 20 (length buf) then complete twenty else partial

abbrev pub role_crate : RoleCrate outside
role_crate = record {
  Uri = Bytes;
  uri_str = λ u. u;
  is_status = λ s. leb 100 s;
  canonical_reason = λ s. some (codes "OK");
  is_informational = λ s. leb s 199;
  parse_response = λ buf room. scan buf;
  obsolete_multiline_allowed = true;
}

scan-inside :
    (n : ℕ) (l : ResponseLine) (b : Bool)
    → leb 20 n ≡ b
    → (if b then complete twenty else partial) ≡ complete l
    → (1 ≤ l.len) × ((l.len ≤ n) × AllWithin l.len l.located)
scan-inside n l false h e = absurd (cc)
scan-inside n l true h e =
    let z : twenty ≡ l = cc in
    subst (λ l. (1 ≤ l.len) × ((l.len ≤ n) × AllWithin l.len l.located)) z
      (omega arith, (ground (arith, h), ((omega arith, omega arith), tt)))

scan-ParserLaws : ParserLaws role_crate
scan-ParserLaws = record { points_inside = λ buf room l e. scan-inside (length buf) l _ refl e }

abbrev folded : Bytes
folded = codes "X-A: folded\r\n  value\r\n"

abbrev place : Located
place = record { name_start = 0; name_len = 3; value_start = 5; value_len = 15 }

obs_fold_line-Folds_example : Folds folded place (obs_fold_line folded place)
obs_fold_line-Folds_example = obs_fold_line-Folds folded place (omega arith)

abbrev response : MessageHead outside ℕ
response = record {
  version = http_11;
  subject = 200;
  headers = (codes "content-length", codes "12") ∷ [];
  on_informational = none;
  on_preserve = none;
  reason_phrase = none;
}

abbrev context : ParseContext outside
context = record {
  cached_headers = none;
  req_method = some KnownMethod.get;
  h1_max_headers = none;
  h09_responses = false;
  on_informational = none;
}

abbrev received : Bytes
received = codes "X-A: folded\r\n  value\r\n and some body"

parse-Answered_example :
    Answered outside role_crate received
      (some KnownMethod.get)
      (parse outside role_crate 50 received context)
parse-Answered_example =
    parse-Answered outside role_crate 50 received context scan-ParserLaws (omega arith)

set_length-Agree_example : AgreeIn outside crate-MapLaws (
    set_length outside http_11 KnownMethod.get
      ((codes "transfer-encoding", codes "gzip") ∷ [])
      (some (known 5)))
set_length-Agree_example =
    set_length-Agree outside crate-MapLaws http_11 KnownMethod.get
      ((codes "transfer-encoding", codes "gzip") ∷ []) (known 5) (omega arith) (inl refl)

abbrev head_bytes : Bytes
head_bytes = codes "a\r\n\r\n"

head_bytes-EndsAlike : EndsAlike head_bytes
head_bytes-EndsAlike =
    inl (λ e. absurd (cc), (λ e. absurd (cc), (λ e. refl, (λ e. absurd (cc), (λ e. refl, tt)))))

cut-fresh : HasBlankLine (take 4 head_bytes) → ⊥
cut-fresh (behind b (behind c (behind d (behind x h)))) = none_left h
  where
    none_left : HasBlankLine [] → ⊥
    none_left h = elim h [ ]

is_complete_fast-HasBlankLine_example :
    (is_complete_fast head_bytes 4 ≡ true) ↔ HasBlankLine head_bytes
is_complete_fast-HasBlankLine_example =
    is_complete_fast-HasBlankLine head_bytes 4 head_bytes-EndsAlike cut-fresh

-- A blank line of the other kind, which the scan does not find
abbrev mixed_bytes : Bytes
mixed_bytes = codes "a\n\r\n"

mixed-HasBlankLine : HasBlankLine mixed_bytes
mixed-HasBlankLine = behind b'a' (empty_crlf [])

mixed_missed : is_complete_fast mixed_bytes 2 ≡ false
unfolding is_complete_fast has_end
mixed_missed = refl

-- Where the lengths that the user sets are not one number, `set_length` leaves them.
abbrev lengths_left : Option (Sized outside) → List Bytes
lengths_left none = []
lengths_left (some (headers, e)) = outside.http.get_all headers (outside.http.known content_length)

two_lengths_left :
    lengths_left (
      set_length outside http_11 KnownMethod.get
        ((codes "transfer-encoding", codes "chunked")
          ∷ ((codes "content-length", codes "5") ∷ ((codes "content-length", codes "6") ∷ [])))
        (some (known 5)))
    ≡ codes "5" ∷ (codes "6" ∷ [])
unfolding set_length hwire.Http1.Role.Decoder.contains_key
    hwire.Http1.Headers.content_length_parse_all_values hwire.Http1.Role.Length.coded
    hwire.Http1.Role.Length.respect_coding hwire.Http1.Headers.is_chunked
two_lengths_left = refl
