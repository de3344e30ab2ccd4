-- ===== src/Base32.antt =====
-- core/util/Base64.cpp: `Base32ToByteStream` and `ByteStreamToBase32`. `tmp` has 32 bits, and each `|`
-- joins bits that do not overlap.
pub mod Digits
mod Examples
use kovri.Common.{
  ℕ, zero, suc, ◌+◌, ◌-◌, ◌*◌, ◌/◌, ◌%◌, ◌^◌, List, [], ◌∷◌, Option, none, some, Bool, true, false,
  ltb, leb, ◌==◌, ◌&&◌, if◌then◌else◌, ◌>>=◌,
}

-- `2` to `7` are 26 to 31, `a` to `z` are 0 to 25.
pub digit_of : ℕ → Option ℕ
digit_of ch =
    if leb 50 ch && leb ch 55
    then some (ch - 50 + 26)
    else if leb 97 ch && leb ch 122
    then some (ch - 97)
    else none

pub char_of : ℕ → ℕ
char_of ind = if ltb ind 26 then ind + 97 else ind - 26 + 50

-- The loop of the decoder, with room for `out` bytes; `none` is an unexpected character.
pub base32_decode : List ℕ → ℕ → ℕ → ℕ → Option (List ℕ)
base32_decode [] tmp bits out = some []
base32_decode (ch ∷ chars) tmp bits out = digit_of ch >>= (λ d.
    let next = (tmp + d) * 32 % 2 ^ 32 in
    let byte = (tmp + d) / 2 ^ (bits + 5 - 8) % 256 in
    let rest = base32_decode chars next (bits + 5 - 8) (out - 1) in
    let same = base32_decode chars next (bits + 5) out in
    if leb 8 (bits + 5)
    then if out == 0 then some [] else (rest >>= (λ bytes. some (byte ∷ bytes)))
    else same)

abbrev or_empty : Option (List ℕ) → List ℕ
or_empty none = []
or_empty (some bytes) = bytes

-- An unexpected character makes the result empty.
pub base32_to_byte_stream : List ℕ → ℕ → List ℕ
unfolding base32_decode
base32_to_byte_stream chars out_len = or_empty (base32_decode chars 0 0 out_len)

-- What is taken before a digit: a byte, or zero bits after the last byte.
pub refill : ℕ → ℕ → List ℕ → ℕ × ℕ × List ℕ
refill tmp bits [] = if ltb bits 5 then (tmp * 2 ^ (5 - bits) % 2 ^ 32, 5, []) else (tmp, bits, [])
refill tmp bits (b ∷ bytes) =
    if ltb bits 5 then ((tmp * 256 + b) % 2 ^ 32, bits + 8, bytes) else (tmp, bits, b ∷ bytes)

abbrev is_end : List ℕ → Bool
is_end [] = true
is_end (_ ∷ _) = false

-- The loop of the encoder, with room for so many characters. A round writes one.
pub base32_encode : ℕ → ℕ → ℕ → List ℕ → List ℕ
unfolding refill char_of
base32_encode zero tmp bits bytes = []
base32_encode (suc out) tmp bits bytes =
    let (tmp', bits', rest) = refill tmp bits bytes in
    let more = base32_encode out tmp' (bits' - 5) rest in
    if (bits == 0) && is_end bytes then [] else char_of (tmp' / 2 ^ (bits' - 5) % 32) ∷ more

pub byte_stream_to_base32 : List ℕ → ℕ → List ℕ
unfolding base32_encode
byte_stream_to_base32 [] out_len = []
byte_stream_to_base32 (b ∷ bytes) out_len = base32_encode out_len b 8 bytes
