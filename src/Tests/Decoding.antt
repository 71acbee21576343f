-- ===== src/Tests/Decoding.antt =====
-- The decoder of proto/http1/decode.rs over a slice of bytes.
use hwire.Base.{◌≡◌, refl, none, some, [], Bytes, codes, length, arith}
use hwire.Tests.Crate.{crate}
use hwire.Io.{ready}
use hwire.Io.Slice.{slice_reader, slice-ReadLaws, read_slice}
use hwire.Http1.Chunked.{start, end, body_cr, step, byte}
use hwire.Http1.Chunked.Safety.{Keeps, step-StepInv}
use hwire.Http1.Decode.{data_frame, ChunkedDecoder, new_chunked, step_args, decode_chunked}
use hwire.Http1.Decode.{decode_length}
use hwire.Http1.Decode.Sized.{SizedCall, decode_length-SizedCall}
use hwire.Http1.Decode.Total.{Inv, new_chunked-Inv, Returns, decode_chunked-Returns}
use hwire.Http1.Decode.Sound.{Session, last_call, data_call, Framed, decode-ChunkedBody}

abbrev fresh : ChunkedDecoder
fresh = new_chunked none none

abbrev wire : Bytes
wire = codes "3;x\r\nabc\r\n0\r\n\r\nnext"

abbrev after_chunk : ChunkedDecoder
after_chunk = record fresh { state = body_cr; extensions_cnt = 1 }

abbrev at_end : ChunkedDecoder
at_end = record fresh { state = end; extensions_cnt = 1 }

decodes_chunk :
    decode_chunked crate slice_reader 30 fresh wire
    ≡ some (ready (after_chunk, codes "\r\n0\r\n\r\nnext") (data_frame (codes "abc")))
unfolding decode_chunked step byte read_slice
decodes_chunk = refl

decodes_end :
    decode_chunked crate slice_reader 30 after_chunk (codes "\r\n0\r\n\r\nnext")
    ≡ some (ready (at_end, codes "next") (data_frame []))
unfolding decode_chunked step byte read_slice
decodes_end = refl

session : Session crate slice_reader fresh wire (codes "abc") (data_frame []) at_end (codes "next")
session = data_call 30 decodes_chunk (λ h. h) (last_call 30 decodes_end tt)

decode-ChunkedBody_example :
    Framed crate slice_reader slice-ReadLaws wire (codes "next") (codes "abc") (data_frame [])
decode-ChunkedBody_example =
    decode-ChunkedBody crate slice_reader slice-ReadLaws none none (omega arith) session

fresh-Inv : Inv fresh wire
fresh-Inv = new_chunked-Inv none none wire (omega arith)

decode_chunked-Returns_example :
    Returns crate slice_reader slice-ReadLaws
      (length wire)
      (decode_chunked crate slice_reader 30 fresh wire)
decode_chunked-Returns_example =
    decode_chunked-Returns crate slice_reader slice-ReadLaws 30 fresh wire fresh-Inv (omega arith)

step-StepInv_example : Keeps start (step slice_reader start (step_args fresh wire))
step-StepInv_example =
    step-StepInv slice_reader slice-ReadLaws start (step_args fresh wire) fresh-Inv

decode_length-SizedCall_example :
    SizedCall crate slice_reader slice-ReadLaws 3
      (codes "abcdef")
      (decode_length crate slice_reader 3 (codes "abcdef"))
decode_length-SizedCall_example =
    decode_length-SizedCall crate slice_reader slice-ReadLaws 3 (codes "abcdef") (omega arith)
