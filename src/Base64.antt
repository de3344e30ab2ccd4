-- ===== src/Base64.antt =====
-- core/util/Base64.cpp: `ByteStreamToBase64` and `Base64ToByteStream`. Characters are their codes.
pub mod RoundTrip
pub mod Faults
mod Examples
use Prim.Native.Nat.{bit_or}
use kovri.Common.{
  ℕ, zero, suc, ◌+◌, ◌-◌, ◌*◌, ◌/◌, ◌%◌, ◌^◌, List, [], ◌∷◌, Option, none, some, Bool, true, false,
  ltb, leb, ◌==◌, ◌&&◌, ◌||◌, not, if◌then◌else◌, length, take, get_elem?, ◌>>=◌,
}

-- `A` to `Z`, `a` to `z`, `0` to `9`, `-`, `~`.
abbrev pub t64_table : List ℕ
t64_table =
    65 ∷ 66 ∷ 67 ∷ 68 ∷ 69 ∷ 70 ∷ 71 ∷ 72 ∷ 73 ∷ 74 ∷ 75 ∷ 76 ∷ 77 ∷ 78 ∷ 79 ∷ 80 ∷ 81 ∷ 82 ∷ 83
    ∷ 84 ∷ 85 ∷ 86 ∷ 87 ∷ 88 ∷ 89 ∷ 90 ∷ 97 ∷ 98 ∷ 99 ∷ 100 ∷ 101 ∷ 102 ∷ 103 ∷ 104 ∷ 105 ∷ 106
    ∷ 107 ∷ 108 ∷ 109 ∷ 110 ∷ 111 ∷ 112 ∷ 113 ∷ 114 ∷ 115 ∷ 116 ∷ 117 ∷ 118 ∷ 119 ∷ 120 ∷ 121 ∷ 122
    ∷ 48 ∷ 49 ∷ 50 ∷ 51 ∷ 52 ∷ 53 ∷ 54 ∷ 55 ∷ 56 ∷ 57 ∷ 45 ∷ 126 ∷ []

-- The padding character `=`.
abbrev pub p64 : ℕ
p64 = 61

abbrev or_zero : Option ℕ → ℕ
or_zero none = 0
or_zero (some c) = c

pub t64 : ℕ → ℕ
t64 i = or_zero (get_elem? t64_table i)

-- The entry of the reverse table for `c`, while the table is written from `i` on.
pub it64_entry : ℕ → List ℕ → ℕ → ℕ → ℕ
it64_entry c [] i entry = entry
it64_entry c (t ∷ ts) i entry = it64_entry c ts (i + 1) (if t == c then i else entry)

-- First −1 (255 as a byte), then the places in the table, last 0 for the padding.
pub it64 : ℕ → ℕ
unfolding it64_entry
it64 c = if c == p64 then 0 else it64_entry c t64_table 0 255

-- The digits of three, two or one bytes. `(acc_1<<4)&0x30` is `a * 16 % 64`, and each `|` joins bits
-- that do not overlap. The rounds are counted in `int`, which holds what `encoded_length` counts.
pub encode : List ℕ → List ℕ
unfolding t64
encode [] = []
encode (a ∷ []) = t64 (a / 4) ∷ t64 (a * 16 % 64) ∷ p64 ∷ p64 ∷ []
encode (a ∷ b ∷ []) = t64 (a / 4) ∷ t64 (a * 16 % 64 + b / 16) ∷ t64 (b % 16 * 4) ∷ p64 ∷ []
encode (a ∷ b ∷ c ∷ bs) =
    t64 (a / 4) ∷ t64 (a * 16 % 64 + b / 16) ∷ t64 (b % 16 * 4 + c / 64) ∷ t64 (c % 64) ∷ encode bs

-- `outCount` of the encoder, which it counts in `int`; `none` is a count that this does not hold.
pub encoded_length : ℕ → Option ℕ
encoded_length count =
    let out = if count % 3 == 0 then 4 * (count / 3) else 4 * (count / 3 + 1) in
    if ltb out (2 ^ 31) then some out else none

-- What is written to a buffer of `len` characters; nothing if it is too small.
pub byte_stream_to_base64 : List ℕ → ℕ → Option (List ℕ)
unfolding encode encoded_length
byte_stream_to_base64 bytes len = do
  out ← encoded_length (length bytes)
  some (if ltb len out then [] else encode bytes)

-- The loop over the padding at the end: how many characters, and whether there is no other.
pub count_padding : List ℕ → ℕ × Bool
count_padding [] = (0, true)
count_padding (c ∷ cs) =
    let (n, only) = count_padding cs in if only && (c == p64) then (n + 1, true) else (n, false)

-- The bytes that the loop writes, with `left` before `endOfOutBuffer`. After the third byte of a
-- group nothing is compared. The rounds are counted in `int`, as in the count of `decoded_length`.
pub decode : ℕ → List ℕ → List ℕ
unfolding it64
decode left (c1 ∷ c2 ∷ c3 ∷ c4 ∷ cs) =
    let rest = decode (left - 3) cs in
    let third = bit_or (it64 c4) (it64 c3 * 64 % 256) in
    let second = bit_or (it64 c2 * 16 % 256) (it64 c3 / 4) in
    bit_or (it64 c1 * 4 % 256) (it64 c2 / 16)
    ∷ (if leb left 1 then [] else second ∷ (if leb left 2 then [] else third ∷ rest))
decode left _ = []

-- `outCount` of the decoder, in `size_t`, from `3*n` in `int`; `none` if this does not hold it.
pub decoded_length : List ℕ → ℕ → Option ℕ
decoded_length chars padding =
    let out = 3 * (length chars / 4) in
    if ltb out (2 ^ 31) then some ((out + 2 ^ 64 - padding) % 2 ^ 64) else none

-- The bytes that are returned in a buffer of `len`. `none` is a count that leaves `int`, a write past
-- the buffer, or a read before the characters, when all of them are padding.
pub base64_to_byte_stream : List ℕ → ℕ → Option (List ℕ)
unfolding count_padding decode decoded_length
base64_to_byte_stream chars len =
    let (padding, only) = count_padding chars in
    if (length chars == 0) || not (length chars % 4 == 0)
    then some []
    else (decoded_length chars padding >>= λ out.
        let written = decode out chars in
        if only
        then none
        else if ltb len out
        then some []
        else if ltb len (length written)
        then none
        else some (take out written))
