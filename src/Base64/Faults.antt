-- ===== src/Base64/Faults.antt =====
-- A text on which `Base64ToByteStream` of core/util/Base64.cpp writes past its buffer.
use kovri.Common.{ℕ, ◌≡◌, ◌≢◌, refl, [], ◌∷◌, none, false, ◌==◌, arith}
use kovri.Base64.{base64_to_byte_stream, count_padding, decode, decoded_length}

is_not_padding : (c : ℕ) → c ≢ 61 → (c == 61) ≡ false
is_not_padding c n = ground (arith, n)

-- Five characters, the last of which is not `=`, and three times `=` stand for three bytes. Decoded
-- into a buffer of three bytes they make the decoder write a fourth.
pub base64_overflow :
    (c1 c2 c3 c4 c5 : ℕ)
    → c5 ≢ 61
    → base64_to_byte_stream (c1 ∷ c2 ∷ c3 ∷ c4 ∷ c5 ∷ 61 ∷ 61 ∷ 61 ∷ []) 3 ≡ none
unfolding base64_to_byte_stream count_padding decode decoded_length
base64_overflow c1 c2 c3 c4 c5 n = rw (is_not_padding c5 n) refl
