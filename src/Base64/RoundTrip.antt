-- ===== src/Base64/RoundTrip.antt =====
-- Encoding and decoding in core/util/Base64.cpp.
use Prim.Native.Nat.{bit_or}
use kovri.Common.{
  ℕ, suc, ◌+◌, ◌-◌, ◌*◌, ◌/◌, ◌%◌, ◌^◌, ◌<◌, ◌≤◌, ◌≡◌, refl, ap, ◌∙◌, List, [], ◌∷◌, Option, some,
  ◌>>=◌, true, false, ltb, leb, ◌==◌, if◌then◌else◌, length, take_all, lt→leb_false, lt→ltb,
  le→ltb_false, arith, All, IsByte, agree_upto, eq_of_table,
}
use kovri.Base64.{
  t64, it64, it64_entry, encode, encoded_length, byte_stream_to_base64, count_padding, decode,
  decoded_length, base64_to_byte_stream,
}

it64-t64 : (i : ℕ) → i < 64 → it64 (t64 i) ≡ i
unfolding agree_upto it64 it64_entry t64
it64-t64 i h = eq_of_table (λ k. it64 (t64 k)) (λ k. k) 64 i refl h

abbrev padding_mark : ℕ → ℕ
padding_mark k = if t64 k == 61 then 1 else 0

t64_no_padding : (i : ℕ) → i < 64 → (t64 i == 61) ≡ false
unfolding agree_upto t64
t64_no_padding i h =
    let mark = eq_of_table padding_mark (λ _. 0) 64 i refl h in ground (arith, mark)

first_byte : (a : ℕ) → a < 256 → bit_or (a / 4 * 4 % 256) (a % 4) ≡ a
unfolding agree_upto
first_byte a h = eq_of_table (λ k. bit_or (k / 4 * 4 % 256) (k % 4)) (λ k. k) 256 a refl h

second_byte : (b : ℕ) → b < 256 → bit_or (b / 16 * 16 % 256) (b % 16) ≡ b
unfolding agree_upto
second_byte b h = eq_of_table (λ k. bit_or (k / 16 * 16 % 256) (k % 16)) (λ k. k) 256 b refl h

third_byte : (c : ℕ) → c < 256 → bit_or (c % 64) (c / 64 * 64 % 256) ≡ c
unfolding agree_upto
third_byte c h = eq_of_table (λ k. bit_or (k % 64) (k / 64 * 64 % 256)) (λ k. k) 256 c refl h

length-encode_groups : (bytes : List ℕ) → length (encode bytes) % 4 ≡ 0
unfolding encode
length-encode_groups [] = refl
length-encode_groups (a ∷ []) = refl
length-encode_groups (a ∷ b ∷ []) = refl
length-encode_groups (a ∷ b ∷ c ∷ bs) = omega (arith, length-encode_groups bs)

abbrev count_of : ℕ → ℕ
count_of n = if n % 3 == 0 then 4 * (n / 3) else 4 * (n / 3 + 1)

-- The encoder writes as many characters as it counts before, which it compares with the buffer.
length-encode : (bytes : List ℕ) → length (encode bytes) ≡ count_of (length bytes)
unfolding encode
length-encode [] = refl
length-encode (a ∷ []) = refl
length-encode (a ∷ b ∷ []) = refl
length-encode (a ∷ b ∷ c ∷ bs) = ground (arith, length-encode bs)

-- The padding of an encoded text, by the bytes.
abbrev padding_of : List ℕ → ℕ
padding_of [] = 0
padding_of (a ∷ []) = 2
padding_of (a ∷ b ∷ []) = 1
padding_of (a ∷ b ∷ c ∷ bs) = padding_of bs

padding_of_few : (bytes : List ℕ) → padding_of bytes ≤ 2
padding_of_few [] = omega arith
padding_of_few (a ∷ []) = omega arith
padding_of_few (a ∷ b ∷ []) = omega arith
padding_of_few (a ∷ b ∷ c ∷ bs) = padding_of_few bs

length-encode_bytes :
    (bytes : List ℕ) → 3 * (length (encode bytes) / 4) ≡ length bytes + padding_of bytes
unfolding encode
length-encode_bytes [] = refl
length-encode_bytes (a ∷ []) = refl
length-encode_bytes (a ∷ b ∷ []) = refl
length-encode_bytes (a ∷ b ∷ c ∷ bs) = omega (arith, length-encode_bytes bs)

count_padding-digit :
    (i : ℕ) (cs : List ℕ) (n : ℕ)
    → count_padding cs ≡ (n, false)
    → count_padding (t64 i ∷ cs) ≡ (n, false)
unfolding count_padding
count_padding-digit i cs n e = rw (e) refl

count_padding-last :
    (i : ℕ) (cs : List ℕ) (n : ℕ)
    → i < 64
    → count_padding cs ≡ (n, true)
    → count_padding (t64 i ∷ cs) ≡ (n, false)
unfolding count_padding
count_padding-last i cs n h e = rw (e, t64_no_padding i h) refl

no_marks : count_padding [] ≡ (0, true)
unfolding count_padding
no_marks = refl

one_mark : count_padding (61 ∷ []) ≡ (1, true)
unfolding count_padding
one_mark = refl

two_marks : count_padding (61 ∷ 61 ∷ []) ≡ (2, true)
unfolding count_padding
two_marks = refl

count_padding-three :
    (d1 d2 d3 : ℕ) (cs : List ℕ) (n : ℕ)
    → count_padding cs ≡ (n, false)
    → count_padding (t64 d1 ∷ t64 d2 ∷ t64 d3 ∷ cs) ≡ (n, false)
count_padding-three d1 d2 d3 cs n e =
    count_padding-digit d1 (t64 d2 ∷ t64 d3 ∷ cs) n
      (count_padding-digit d2 (t64 d3 ∷ cs) n (count_padding-digit d3 cs n e))

count_padding-encode :
    (a : ℕ) (bs : List ℕ)
    → All IsByte (a ∷ bs)
    → count_padding (encode (a ∷ bs)) ≡ (padding_of (a ∷ bs), false)
unfolding encode
count_padding-encode a [] h =
    count_padding-digit (a / 4) (t64 (a * 16 % 64) ∷ 61 ∷ 61 ∷ []) 2
      (count_padding-last (a * 16 % 64) (61 ∷ 61 ∷ []) 2 (omega arith) (two_marks))
count_padding-encode a (b ∷ []) h =
    count_padding-digit (a / 4) (t64 (a * 16 % 64 + b / 16) ∷ t64 (b % 16 * 4) ∷ 61 ∷ []) 1 (
      count_padding-digit (a * 16 % 64 + b / 16) (t64 (b % 16 * 4) ∷ 61 ∷ []) 1
        (count_padding-last (b % 16 * 4) (61 ∷ []) 1 (omega arith) one_mark))
count_padding-encode a (b ∷ c ∷ []) h =
    count_padding-three (a / 4) (a * 16 % 64 + b / 16) (b % 16 * 4 + c / 64) (t64 (c % 64) ∷ []) 0
      (count_padding-last (c % 64) [] 0 (omega arith) no_marks)
count_padding-encode a (b ∷ c ∷ d ∷ bs) h =
    count_padding-three (a / 4) (a * 16 % 64 + b / 16) (b % 16 * 4 + c / 64)
      (t64 (c % 64) ∷ encode (d ∷ bs)) (padding_of (d ∷ bs))
      (count_padding-digit (c % 64) (encode (d ∷ bs)) (padding_of (d ∷ bs))
        (count_padding-encode d bs h.1.1.1))

group_first :
    (a d : ℕ)
    → a < 256
    → d < 64
    → d / 16 ≡ a % 4
    → bit_or (it64 (t64 (a / 4)) * 4 % 256) (it64 (t64 d) / 16) ≡ a
group_first a d h k e =
    let high = it64-t64 (a / 4) (omega arith) in
    let low : it64 (t64 d) / 16 ≡ a % 4 = omega (arith, it64-t64 d k) in
    (λ i. bit_or (high i * 4 % 256) (low i)) ∙ first_byte a h

group_second :
    (b d2 d3 : ℕ)
    → b < 256
    → d2 < 64
    → d3 < 64
    → d2 * 16 % 256 ≡ b / 16 * 16 % 256
    → d3 / 4 ≡ b % 16
    → bit_or (it64 (t64 d2) * 16 % 256) (it64 (t64 d3) / 4) ≡ b
group_second b d2 d3 h k l e f =
    let high : it64 (t64 d2) * 16 % 256 ≡ b / 16 * 16 % 256 =
      ap (λ (x : ℕ). x * 16 % 256) (it64-t64 d2 k) ∙ e in
    let low : it64 (t64 d3) / 4 ≡ b % 16 = ap (λ (x : ℕ). x / 4) (it64-t64 d3 l) ∙ f in
    (λ i. bit_or (high i) (low i)) ∙ second_byte b h

group_third :
    (c d3 : ℕ)
    → c < 256
    → d3 < 64
    → d3 * 64 % 256 ≡ c / 64 * 64 % 256
    → bit_or (it64 (t64 (c % 64))) (it64 (t64 d3) * 64 % 256) ≡ c
group_third c d3 h k e =
    let low = it64-t64 (c % 64) (omega arith) in
    let high : it64 (t64 d3) * 64 % 256 ≡ c / 64 * 64 % 256 =
      ap (λ (x : ℕ). x * 64 % 256) (it64-t64 d3 k) ∙ e in
    (λ i. bit_or (low i) (high i)) ∙ third_byte c h

decode-encode : (bytes : List ℕ) → All IsByte bytes → decode (length bytes) (encode bytes) ≡ bytes
unfolding decode encode
decode-encode [] h = refl
decode-encode (a ∷ []) h =
    λ i. group_first a (a * 16 % 64) h.0 (omega arith) (omega (arith, h.0)) i ∷ []
decode-encode (a ∷ b ∷ []) h =
    let d2 = a * 16 % 64 + b / 16 in
    let first = group_first a d2 h.0 (omega (arith, h.1.0)) (omega (arith, h.0, h.1.0)) in
    let second =
      group_second b d2 (b % 16 * 4) h.1.0 (omega (arith, h.1.0)) (omega arith)
        (omega (arith, h.1.0)) (omega arith) in
    λ i. first i ∷ second i ∷ []
decode-encode (a ∷ b ∷ c ∷ bs) h =
    let d2 = a * 16 % 64 + b / 16 in
    let d3 = b % 16 * 4 + c / 64 in
    let first = group_first a d2 h.0 (omega (arith, h.1.0)) (omega (arith, h.0, h.1.0)) in
    let second =
      group_second b d2 d3 h.1.0 (omega (arith, h.1.0)) (omega (arith, h.1.1.0))
        (omega (arith, h.1.0)) (omega (arith, h.1.1.0)) in
    let third = group_third c d3 h.1.1.0 (omega (arith, h.1.1.0)) (omega (arith, h.1.1.0)) in
    let n = length (a ∷ b ∷ c ∷ bs) in
    let no_end : leb n 1 ≡ false = lt→leb_false n 1 (omega arith) in
    let no_end_2 : leb n 2 ≡ false = lt→leb_false n 2 (omega arith) in
    let left : n - 3 ≡ length bs = omega arith in
    (λ i.
      first i
      ∷ (if no_end i
          then []
          else second i ∷ (if no_end_2 i then [] else third i ∷ decode (left i) (encode bs))))
    ∙ ap (λ (l : List ℕ). a ∷ b ∷ c ∷ l) (decode-encode bs h.1.1.1)

nonzero_test : (l n : ℕ) → 3 * (l / 4) ≡ suc n → (l == 0) ≡ false
nonzero_test l n e = ground arith

zero_test : (l : ℕ) → l ≡ 0 → (l == 0) ≡ true
zero_test l e = ground arith

base64_to_byte_stream-decode :
    (chars bytes : List ℕ) (padding out_len : ℕ)
    → count_padding chars ≡ (padding, false)
    → (length chars == 0) ≡ false
    → (length chars % 4 == 0) ≡ true
    → decoded_length chars padding ≡ some (length bytes)
    → decode (length bytes) chars ≡ bytes
    → length bytes ≤ out_len
    → base64_to_byte_stream chars out_len ≡ some bytes
unfolding base64_to_byte_stream
base64_to_byte_stream-decode chars bytes padding out_len c z f o d h =
    let enough : ltb out_len (length bytes) ≡ false = ground arith in
    rw (z, f, c, o, d, enough, take_all bytes (length bytes) refl)

decoded_length_lem :
    (chars : List ℕ) (n padding : ℕ)
    → 3 * (length chars / 4) ≡ n + padding
    → padding ≤ 2
    → n ≤ 1_610_612_730
    → decoded_length chars padding ≡ some n
unfolding decoded_length
decoded_length_lem chars n padding size few small =
    let out = 3 * (length chars / 4) in
    let fits : ltb out (2 ^ 31) ≡ true = lt→ltb out (2 ^ 31) (omega (arith, size, few, small)) in
    let same : (out + 2 ^ 64 - padding) % 2 ^ 64 ≡ n = omega (arith, size, few, small) in
    rw fits (ap some same)

-- At least one byte and at most 1610612730 of them, whose characters an `int` counts, are the same
-- after they are encoded into a buffer that is long enough and decoded into one that has room for
-- them; the decoder stays in its buffers.
pub base64_to_byte_stream-byte_stream_to_base64 :
    (a : ℕ) (bs : List ℕ) (len out_len : ℕ)
    → All IsByte (a ∷ bs)
    → length (a ∷ bs) ≤ 1_610_612_730
    → 4 * ((length (a ∷ bs) + 2) / 3) ≤ len
    → length (a ∷ bs) ≤ out_len
    → (byte_stream_to_base64 (a ∷ bs) len >>= λ chars. base64_to_byte_stream chars out_len)
      ≡ some (a ∷ bs)
unfolding base64_to_byte_stream byte_stream_to_base64 decoded_length encoded_length
base64_to_byte_stream-byte_stream_to_base64 a bs len out_len h small room out_room =
    let bytes = a ∷ bs in
    let out = count_of (length bytes) in
    let counts : out ≡ 4 * ((length bytes + 2) / 3) = ground arith in
    let fits : ltb out (2 ^ 31) ≡ true = lt→ltb out (2 ^ 31) (omega (arith, counts, small)) in
    let enough : ltb len out ≡ false = le→ltb_false len out (omega (arith, counts, room)) in
    let encoded : byte_stream_to_base64 bytes len ≡ some (encode bytes) =
      rw (byte_stream_to_base64, fits, enough) refl in
    let size = length-encode_bytes bytes in
    let few = padding_of_few bytes in
    let full = length-encode_groups bytes in
    let counted : decoded_length (encode bytes) (padding_of bytes) ≡ some (length bytes) =
      decoded_length_lem (encode bytes) (length bytes) (padding_of bytes) size few small in
    ap (λ (o : Option (List ℕ)). o >>= λ chars. base64_to_byte_stream chars out_len) encoded
    ∙ base64_to_byte_stream-decode (encode bytes) bytes (padding_of bytes) out_len
        (count_padding-encode a bs h)
        (nonzero_test (length (encode bytes)) (length bs + padding_of bytes) (omega (arith, size)))
        (zero_test (length (encode bytes) % 4) full) counted (decode-encode bytes h) out_room
