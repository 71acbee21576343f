-- ===== src/Tests/Heads.antt =====
-- The header rules of proto/headers.rs on texts.
use hwire.Base.{◌≡◌, ◌≢◌, List, [], ◌∷◌, Bytes, codes, some}
use hwire.Tests.Crate.{crate}
use hwire.Http1.Headers.{content_length_parse_all_values}
use hwire.Http1.Headers.ContentLength.{AllValues, content_length_parse_all_values-AllValues}

abbrev lengths : List Bytes
lengths = codes "42, 42" ∷ codes " 42" ∷ []

content_length_parse_all_values-AllValues_example :
    (content_length_parse_all_values crate lengths ≡ some 42
      → (lengths ≢ []) × AllValues crate 42 lengths)
    × ((lengths ≢ []) × AllValues crate 42 lengths
        → content_length_parse_all_values crate lengths ≡ some 42)
content_length_parse_all_values-AllValues_example =
    content_length_parse_all_values-AllValues crate lengths 42
