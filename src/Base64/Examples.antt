-- ===== src/Base64/Examples.antt =====
-- Short texts of core/util/Base64.cpp, and the theorems on them.
use kovri.Common.{ℕ, ◌≡◌, List, [], ◌∷◌, some, none, arith, ◌>>=◌}
use kovri.Base64.{byte_stream_to_base64, base64_to_byte_stream}
use kovri.Base64.RoundTrip.{base64_to_byte_stream-byte_stream_to_base64}
use kovri.Base64.Faults.{base64_overflow}

abbrev four_bytes : List ℕ
four_bytes = 1 ∷ 2 ∷ 255 ∷ 7 ∷ []

base64_to_byte_stream-byte_stream_to_base64_example :
    (byte_stream_to_base64 four_bytes 8 >>= λ chars. base64_to_byte_stream chars 4)
    ≡ some four_bytes
base64_to_byte_stream-byte_stream_to_base64_example =
    base64_to_byte_stream-byte_stream_to_base64 1 (2 ∷ 255 ∷ 7 ∷ []) 8 4
      (omega arith, (omega arith, (omega arith, (omega arith, tt)))) (omega arith) (omega arith)
      (omega arith)

base64_overflow_example :
    base64_to_byte_stream (65 ∷ 65 ∷ 65 ∷ 65 ∷ 65 ∷ 61 ∷ 61 ∷ 61 ∷ []) 3 ≡ none
base64_overflow_example = base64_overflow 65 65 65 65 65 λ e. omega (arith, e)
