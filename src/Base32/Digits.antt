-- ===== src/Base32/Digits.antt =====
-- The characters of base32 in core/util/Base64.cpp.
use kovri.Common.{
  ℕ, zero, suc, ◌-◌, ◌/◌, ◌%◌, ◌^◌, ◌<◌, ◌≤◌, ◌≡◌, List, [], ◌∷◌, some, arith, All, length, Bool,
  true, false, if◌then◌else◌,
}
use kovri.Base32.{digit_of, char_of, refill, base32_encode, byte_stream_to_base32}

digit_of-char_of : (d : ℕ) → d < 32 → digit_of (char_of d) ≡ some d
unfolding digit_of char_of
digit_of-char_of d h = ground arith

-- A character that the decoder takes.
abbrev pub IsDigit : ℕ → Type 0
IsDigit c = (d : ℕ) × (d < 32) × (digit_of c ≡ some d)

abbrev IsText : ℕ → List ℕ → Type 0
IsText out cs = All IsDigit cs × (length cs ≤ out)

IsText-if :
    (stop : Bool) (out c : ℕ) (cs : List ℕ)
    → IsDigit c
    → IsText out cs
    → IsText (suc out) (if stop then [] else c ∷ cs)
IsText-if true out c cs d t = (tt, omega arith)
IsText-if false out c cs d t = ((d, t.0), omega (arith, t.1))

base32_encode-IsText :
    (out tmp bits : ℕ) (bytes : List ℕ) → IsText out (base32_encode out tmp bits bytes)
unfolding base32_encode
base32_encode-IsText zero tmp bits bytes = (tt, omega arith)
base32_encode-IsText (suc out) tmp bits bytes =
    let (tmp', bits', rest) = refill tmp bits bytes in
    let d = tmp' / 2 ^ (bits' - 5) % 32 in
    let small : d < 32 = omega arith in
    IsText-if _ out (char_of d) (base32_encode out tmp' (bits' - 5) rest)
      (d, small, digit_of-char_of d small) (base32_encode-IsText out tmp' (bits' - 5) rest)

-- The encoder writes only characters that the decoder takes, and no more than it has room for.
pub byte_stream_to_base32-digits :
    (bytes : List ℕ) (out_len : ℕ)
    → All IsDigit (byte_stream_to_base32 bytes out_len)
      × (length (byte_stream_to_base32 bytes out_len) ≤ out_len)
unfolding byte_stream_to_base32
byte_stream_to_base32-digits [] out_len = (tt, omega arith)
byte_stream_to_base32-digits (b ∷ bytes) out_len = base32_encode-IsText out_len b 8 bytes
