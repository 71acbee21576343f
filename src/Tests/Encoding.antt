-- ===== src/Tests/Encoding.antt =====
-- The encoder of proto/http1/encode.rs on pieces of a body.
use hwire.Base.{
  ℕ, ◌≡◌, ◌<◌, ◌≤◌, ◌-◌, refl, false, none, some, List, [], ◌∷◌, ◌++◌, Bytes, codes, concat, length,
  take, arith,
}
use hwire.Base
use hwire.Http1.Decode.RoundTrip.{decode-encode, Session-encode, chunked_encoder}
use hwire.Http1.Decode.Sound.{Session, data_call, last_call}
use hwire.Http1.Decode.{Frame, ChunkedDecoder, new_chunked, data_frame, decode_chunked}
use hwire.Http1.Chunked.{body_cr, end, step, byte}
use hwire.Io.{ready}
use hwire.Io.Slice.{slice_reader, slice-ReadLaws, read_slice}
use hwire.Tests.Crate.{crate}
use hwire.Http1.Chunked.Grammar.{ChunkedBody, IsSize}
use hwire.Http1.Encode.{
  upper_hex, encode, Encoder, Kind, chunked, end_body, at_end, not_eof, new_chunk_size,
}
use hwire.Http1.Encode
use hwire.Http1.Encode.Size.{new_chunk_size-IsSize}
use hwire.Http1.Encode.Framing.{
  ArePieces, encode_all, ending, encode_all-ChunkedBody, encode_all-length, Together,
  encode_and_end-Together,
}

abbrev pieces : List Bytes
pieces = codes "abc" ∷ codes "defgh" ∷ []

pieces-ArePieces : ArePieces pieces
pieces-ArePieces = ((λ e. absurd (cc)), omega arith, ((λ e. absurd (cc)), omega arith, tt))

encode_all-ChunkedBody_example :
    let e : Encoder crate = record { kind = chunked none; is_last = false } in
    (wire : Bytes) × (encode_all crate e pieces ≡ some (e, wire))
    × ChunkedBody (wire ++ ending crate (end_body crate e)) (concat pieces) (codes "\r\n")
encode_all-ChunkedBody_example = encode_all-ChunkedBody crate none false pieces pieces-ArePieces

encode_all-length_example :
    let e =
      λ (k : ℕ). let x : Encoder crate = record { kind = Encode.length k; is_last = false } in x in
    let sent = Base.length (concat pieces) in
    (encode_all crate (e 6) pieces ≡ some (e (6 - sent), take 6 (concat pieces)))
    × (6 ≤ sent → end_body crate (e (6 - sent)) ≡ at_end)
    × (sent < 6 → end_body crate (e (6 - sent)) ≡ not_eof (6 - sent))
encode_all-length_example = encode_all-length crate 6 false pieces (omega arith)

encode_and_end-Together_example :
    Together crate (record { kind = chunked none; is_last = false }) (codes "abc")
encode_and_end-Together_example =
    encode_and_end-Together crate (chunked none) false (codes "abc") tt (omega arith)

new_chunk_size-IsSize_example :
    (digits : Bytes) × IsSize digits 300
    × (new_chunk_size 300 ≡ some (record { bytes = digits ++ codes "\r\n"; pos = 0 }))
new_chunk_size-IsSize_example = new_chunk_size-IsSize 300 (omega arith)

-- One piece, and what is written for it
abbrev one_piece : List Bytes
one_piece = codes "abc" ∷ []

one_piece-ArePieces : ArePieces one_piece
one_piece-ArePieces = ((λ e. absurd (cc)), omega arith, tt)

decode-encode_example :
    let e : Encoder crate = record { kind = chunked none; is_last = false } in
    (wire : Bytes) × (encode_all crate e pieces ≡ some (e, wire))
    × ((c : ChunkedDecoder) × Session crate slice_reader
          (new_chunked none none)
          ((wire ++ ending crate (end_body crate e)) ++ codes "next")
          (concat pieces)
          (data_frame [])
          c
          (codes "next"))
decode-encode_example =
    decode-encode crate none none none false pieces (codes "next") pieces-ArePieces

abbrev one_wire : Bytes
one_wire = codes "3\r\nabc\r\n"

abbrev behind_piece : ChunkedDecoder
behind_piece = record (new_chunked none none) { state = body_cr }

encodes_piece :
    encode_all crate (chunked_encoder crate none false) one_piece
    ≡ some (chunked_encoder crate none false, one_wire)
unfolding encode_all encode new_chunk_size upper_hex Encode.write_str
encodes_piece = refl

reads_piece :
    decode_chunked crate slice_reader 30 (new_chunked none none) (codes "3\r\nabc\r\n0\r\n\r\nnext")
    ≡ some (ready (behind_piece, codes "\r\n0\r\n\r\nnext") (data_frame (codes "abc")))
unfolding decode_chunked step byte read_slice
reads_piece = refl

reads_end :
    decode_chunked crate slice_reader 30 behind_piece (codes "\r\n0\r\n\r\nnext")
    ≡ some (ready (record (new_chunked none none) { state = end }, codes "next") (data_frame []))
unfolding decode_chunked step byte read_slice
reads_end = refl

abbrev last_frame : Frame crate.HeaderMap
last_frame = data_frame []

Session-encode_example :
    (codes "abc" ≡ concat one_piece) × (last_frame ≡ data_frame []) × (codes "next" ≡ codes "next")
unfolding end_body
Session-encode_example =
    Session-encode crate slice_reader slice-ReadLaws none none none false one_piece one_wire
      (codes "next") one_piece-ArePieces (omega arith) encodes_piece refl
      (data_call 30 reads_piece (λ h. h) (last_call 30 reads_end tt))
