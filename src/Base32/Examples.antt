-- ===== src/Base32/Examples.antt =====
-- A short text of base32 in core/util/Base64.cpp.
use kovri.Common.{◌≡◌, refl, [], ◌∷◌}
use kovri.Base32.{
  byte_stream_to_base32, base32_to_byte_stream, base32_encode, base32_decode, refill, char_of,
  digit_of,
}

round_trip_test :
    base32_to_byte_stream (byte_stream_to_base32 (1 ∷ 2 ∷ 255 ∷ []) 10) 10 ≡ 1 ∷ 2 ∷ 255 ∷ []
unfolding byte_stream_to_base32 base32_to_byte_stream base32_encode base32_decode refill char_of
    digit_of
round_trip_test = refl
