-- ===== src/Http1/Headers/MapLaws.antt =====
-- What the crate `http` documents of header maps and header values.
use hwire.Base.{ℕ, ◌≤◌, ◌≡◌, ◌≢◌, false, none, some, [], ◌∷◌, ◌++◌, Bytes, codes, u64_max}
use hwire.HttpCrate.{HttpCrate, content_length, transfer_encoding}
use hwire.Http1.Headers.{last_value}
use hwire.Http1.Headers.Digits.{IsNumber}

module _ (http : HttpCrate) where
  open http use {
    HeaderName, HeaderValue, HeaderMap, insert, remove, set_last, get, get_all, same_name, known,
    to_str, value_bytes, value_from_bytes, from_static, from_u64,
  }

  pub record MapLaws : Type 0 where
    -- An operation on a name sets the values of that name, and those of no other.
    pub get_all-insert :
        (m : HeaderMap) (k : HeaderName) (v : HeaderValue) → get_all (insert m k v) k ≡ v ∷ []
    pub insert_other :
        (m : HeaderMap) (k j : HeaderName) (v : HeaderValue)
        → same_name k j ≡ false
        → get_all (insert m k v) j ≡ get_all m j
    pub get_all-remove : (m : HeaderMap) (k : HeaderName) → get_all (remove m k) k ≡ []
    pub remove_other :
        (m : HeaderMap) (k j : HeaderName)
        → same_name k j ≡ false
        → get_all (remove m k) j ≡ get_all m j
    pub last-set_last :
        (m : HeaderMap) (k : HeaderName) (v : HeaderValue)
        → get_all m k ≢ []
        → last_value http (get_all (set_last m k v) k) ≡ some v
    pub set_last_other :
        (m : HeaderMap) (k j : HeaderName) (v : HeaderValue)
        → same_name k j ≡ false
        → get_all (set_last m k v) j ≡ get_all m j
    -- `get` gives the first of the values.
    pub get_none : (m : HeaderMap) (k : HeaderName) → get m k ≡ none → get_all m k ≡ []
    pub get_some :
        (m : HeaderMap) (k : HeaderName) (v : HeaderValue) → get m k ≡ some v → get_all m k ≢ []
    pub apart : same_name (known transfer_encoding) (known content_length) ≡ false
    pub apart_back : same_name (known content_length) (known transfer_encoding) ≡ false
    -- A value is its bytes, and ASCII text may follow those of a value.
    pub to_str-bytes : (v : HeaderValue) (s : Bytes) → to_str v ≡ some s → s ≡ value_bytes v
    pub bytes-from_static : value_bytes (from_static (codes "chunked")) ≡ codes "chunked"
    pub bytes-from_bytes :
        (b : Bytes) (v : HeaderValue) → value_from_bytes b ≡ some v → value_bytes v ≡ b
    pub longer_is_valid :
        (v : HeaderValue) → value_from_bytes (value_bytes v ++ codes ", chunked") ≢ none
    pub number :
        (n : ℕ) → n ≤ u64_max → (s : Bytes) × ((to_str (from_u64 n) ≡ some s) × IsNumber s n)
