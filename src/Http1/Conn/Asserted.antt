-- ===== src/Http1/Conn/Asserted.antt =====
-- The writing operations of `Conn`, with the role of a client, do not panic where their assertions hold.
use hwire.Base.{◌<◌, ◌≡◌, ◌≢◌, refl, Bool, true, false, Option, none, some, Bytes, u64_mod, length}
use hwire.Http1.Encode.{Encoder, no_name, some_trailers, no_trailers, EncodedBuf, TrailersResult}
use hwire.Http1.Encode.Total.{
  encode-total, encode_and_end-total, encode_trailers-total, StartsNamed,
}
use hwire.Http1.Buffered.{Transport}
use hwire.Http1.State.{make_busy, State, Outside, Writing}
use hwire.Http1.Transaction.{Transaction, BodyLength, Encoded}
use hwire.Http1.Conn.{set_state, Conn, is_body}
use hwire.Http1.Conn.Write.{
  write_head, write_in, last_in, trailers_in, after_encode, after_last, after_trailers, encode_head,
  after_encoding, enforce_version,
}
use hwire.Http1.Conn.Write.{insert_if, as_http_10, enforce_for, fix_keep_alive}
use hwire.Http1.Headers.MapLaws.{MapLaws}
use hwire.Http1.Role.{RoleCrate}
use hwire.Http1.Role.Client.{Request, client}
use hwire.Http1.Role.Written.{IsSpoken, encode-IsSpoken}
use hwire.Http1.State.{Version}

module _ (out : Outside) (crate : RoleCrate out) (laws : MapLaws out.http) (t : Transport) where
  open out use {http}

  abbrev role : Transaction out
  role = client out crate

  abbrev pub IsSome : Option (Conn out t) → Type 0
  IsSome none = ⊥
  IsSome (some c) = Unit

  encoded-IsSome :
      (c : Conn out t) (r : Bool) (x : Option (Encoder http × EncodedBuf http))
      → x ≢ none
      → IsSome (after_encode out t c r x)
  encoded-IsSome c r none h = absurd (h refl)
  encoded-IsSome c r (some (e, b)) h = tt

  last-IsSome :
      (c : Conn out t) (r : Bool) (x : Option (EncodedBuf http × Bool))
      → x ≢ none
      → IsSome (after_last out t c r x)
  last-IsSome c r none h = absurd (h refl)
  last-IsSome c r (some (b, true)) h = tt
  last-IsSome c r (some (b, false)) h = tt

  trailers-IsSome :
      (c : Conn out t) (r : Bool) (e : Encoder http) (x : TrailersResult http)
      → x ≢ no_name
      → IsSome (after_trailers out t c r e x)
  trailers-IsSome c r e no_trailers h = tt
  trailers-IsSome c r e (some_trailers b) h = tt
  trailers-IsSome c r e no_name h = absurd (h refl)

  -- The three operations that assert that a body is being written
  pub write_body-IsSome :
      (w : Writing out) (c : Conn out t) (r : Bool) (chunk : Bytes)
      → is_body out t w ≡ true
      → length chunk < u64_mod
      → IsSome (write_in out t w c r chunk)
  write_body-IsSome (Writing.body e) c r chunk b h =
      encoded-IsSome c r _ (encode-total http e.kind e.is_last chunk h)
  write_body-IsSome Writing.init c r chunk b h = absurd (cc)
  write_body-IsSome Writing.keep_alive c r chunk b h = absurd (cc)
  write_body-IsSome Writing.closed c r chunk b h = absurd (cc)

  pub last_piece-IsSome :
      (w : Writing out) (c : Conn out t) (r : Bool) (chunk : Bytes)
      → is_body out t w ≡ true
      → length chunk < u64_mod
      → IsSome (last_in out t w c r chunk)
  last_piece-IsSome (Writing.body e) c r chunk b h =
      last-IsSome c r _ (encode_and_end-total http e.kind e.is_last chunk h)
  last_piece-IsSome Writing.init c r chunk b h = absurd (cc)
  last_piece-IsSome Writing.keep_alive c r chunk b h = absurd (cc)
  last_piece-IsSome Writing.closed c r chunk b h = absurd (cc)

  pub write_trailers-IsSome :
      (w : Writing out) (c : Conn out t) (r : Bool) (m : http.HeaderMap)
      → StartsNamed http (http.into_items m)
      → is_body out t w ≡ true
      → IsSome (trailers_in out t w c r m)
  write_trailers-IsSome (Writing.body e) c r m n b =
      trailers-IsSome c r e _ (encode_trailers-total http e.kind e.is_last m n)
  write_trailers-IsSome Writing.init c r m n b = absurd (cc)
  write_trailers-IsSome Writing.keep_alive c r m n b = absurd (cc)
  write_trailers-IsSome Writing.closed c r m n b = absurd (cc)

  abbrev Told : State out × Request out crate → Type 0
  Told x = IsSpoken x.1.version

  insert_if-Told :
      (b : Bool) (text : Bytes) (s : State out) (h : Request out crate)
      → IsSpoken h.version
      → Told (insert_if out t role b text s h)
  insert_if-Told true text s h k = k
  insert_if-Told false text s h k = k

  as_http_10-Told : (x : State out × Request out crate) → Told (as_http_10 out t role x)
  as_http_10-Told (s, h) = tt

  -- `enforce_version` leaves a version that is written.
  enforce-Told :
      (v : Version) (s : State out) (h : Request out crate)
      → IsSpoken h.version
      → Told (enforce_for out t role v s h)
  enforce-Told Version.http_10 s h k = as_http_10-Told (fix_keep_alive out t role s h)
  enforce-Told Version.http_11 s h k = insert_if-Told _ _ s h k
  enforce-Told Version.http_09 s h k = k
  enforce-Told Version.http_2 s h k = k
  enforce-Told Version.http_3 s h k = k

  pub write_head-IsSome :
      (c : Conn out t) (h : Request out crate) (b : Option BodyLength)
      → IsSpoken h.version
      → IsSome (write_head out t role c h b)
  unfolding write_head enforce_version
  write_head-IsSome c h b k =
      go (enforce_version out t role (make_busy out c.state) h)
        (enforce-Told c.state.version (make_busy out c.state) h k)
    where
      ending :
          (c : Conn out t) (h : Request out crate) (x : Option (Encoded out))
          → x ≢ none
          → IsSome (after_encoding out t role c h x)
      ending c h none n = absurd (n refl)
      ending c h (some x) n = tt

      go : (x : State out × Request out crate) → Told x → IsSome (encode_head out t role c x b)
      go (s, m) k = ending (set_state out t c s) m _ (encode-IsSpoken out crate laws m b s.method k)
