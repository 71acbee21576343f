-- ===== src/Tests/Crate.antt =====
-- A crate `http` with texts for names and values, lists of pairs for maps, and a parser that takes
-- a whole block for one header.
use hwire.Base.{
  if◌then◌else◌, ℕ, Bool, true, false, ◌&&◌, Option, none, some, List, [], ◌∷◌, ◌++◌, ◌+◌, ◌/◌, ◌%◌,
  zero, suc, ltb, map, Bytes, codes, ◌==◌,
}
use hwire.HttpCrate.{
  HttpCrate, complete, KnownHeader, authorization, cache_control, content_encoding, content_length,
  content_range, content_type, host, max_forwards, set_cookie, te, trailer, transfer_encoding,
  connection,
}

abbrev pub equal : Bytes → Bytes → Bool
equal [] [] = true
equal (x ∷ xs) (y ∷ ys) = x == y && equal xs ys
equal _ _ = false

abbrev known_text : KnownHeader → Bytes
known_text authorization = codes "authorization"
known_text cache_control = codes "cache-control"
known_text content_encoding = codes "content-encoding"
known_text content_length = codes "content-length"
known_text content_range = codes "content-range"
known_text content_type = codes "content-type"
known_text host = codes "host"
known_text max_forwards = codes "max-forwards"
known_text set_cookie = codes "set-cookie"
known_text te = codes "te"
known_text trailer = codes "trailer"
known_text transfer_encoding = codes "transfer-encoding"
known_text connection = codes "connection"

abbrev pub values : List (Bytes × Bytes) → Bytes → List Bytes
values [] n = []
values ((k, v) ∷ m) n = let more = values m n in if equal k n then v ∷ more else more

abbrev pub others : List (Bytes × Bytes) → Bytes → List (Bytes × Bytes)
others [] n = []
others ((k, v) ∷ m) n = let more = others m n in if equal k n then more else (k, v) ∷ more

-- The last of the values is replaced.
abbrev pub replace_last : List Bytes → Bytes → List Bytes
replace_last [] v = []
replace_last (w ∷ []) v = v ∷ []
replace_last (w ∷ (x ∷ ws)) v = w ∷ replace_last (x ∷ ws) v

abbrev pub under : Bytes → List Bytes → List (Bytes × Bytes)
under n [] = []
under n (v ∷ vs) = (n, v) ∷ under n vs

abbrev pub front : List Bytes → Option Bytes
front [] = none
front (v ∷ vs) = some v

-- A number below 10 ^ fuel in decimal
abbrev pub digits : ℕ → ℕ → Bytes
digits zero n = []
digits (suc fuel) n =
    let more = digits fuel (n / 10) in
    if ltb n 10 then (b'0' + n) ∷ [] else more ++ (b'0' + n % 10) ∷ []

abbrev pub decimal : ℕ → Bytes
decimal n = digits 20 n

abbrev named : Bytes × Bytes → Option Bytes × Bytes
named (n, v) = (some n, v)

abbrev pub crate : HttpCrate
crate = record {
  HeaderName = Bytes;
  HeaderValue = Bytes;
  HeaderMap = List (Bytes × Bytes);
  empty = [];
  insert = λ m n v. others m n ++ (n, v) ∷ [];
  name_try_from = λ b. some b;
  value_from_bytes = λ b. some b;
  parse_headers = λ b n. complete ((b, []) ∷ []);
  same_name = equal;
  known = known_text;
  name_bytes = λ b. b;
  value_bytes = λ b. b;
  into_items = λ m. map named m;
  iter = λ m. m;
  get = λ m n. front (values m n);
  get_all = values;
  from_static = λ b. b;
  to_str = λ b. some b;
  append = λ m n v. m ++ (n, v) ∷ [];
  remove = others;
  set_last = λ m n v. others m n ++ under n (replace_last (values m n) v);
  from_u64 = decimal;
  unchecked = λ b. b;
}
