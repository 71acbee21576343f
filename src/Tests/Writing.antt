-- ===== src/Tests/Writing.antt =====
-- The write buffer of proto/http1/io.rs on bytes.
use hwire.Base.{◌≡◌, refl, false, [], ◌∷◌, ◌++◌, codes, arith}
use hwire.Http1.WriteBuf.{WriteBuf, queue, new_write_buf, buffer}
use hwire.Http1.WriteBuf.Queue.{IsBuf, unsent, buffer-unsent, BufAdvanced, advance-BufAdvanced}

-- A head that was written in part, and a piece behind it
abbrev two : WriteBuf
two = record (new_write_buf queue) {
  headers = record { bytes = codes "HEAD"; pos = 1 };
  bufs = record { bufs = codes "body" ∷ []; remaining = 4 };
}

two-IsBuf : IsBuf two
two-IsBuf = record { counted = refl; within = omega arith }

buffer-unsent_example :
    IsBuf (buffer two false (codes "more"))
    × (unsent (buffer two false (codes "more")) ≡ unsent two ++ codes "more")
buffer-unsent_example = buffer-unsent two false (codes "more") two-IsBuf tt

advance-BufAdvanced_example : BufAdvanced two 5
advance-BufAdvanced_example = advance-BufAdvanced two 5 two-IsBuf (omega arith)
