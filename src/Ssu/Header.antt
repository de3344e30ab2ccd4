-- ===== src/Ssu/Header.antt =====
-- The short I2NP header of SSU: `ToSSU` and `FromSSU` of core/I2NPProtocol.h. A message is the list
-- of its bytes from `GetHeader()` on: type, identifier, expiration in milliseconds, size, checksum.
pub mod RoundTrip
use kovri.Common.{
  ℕ, ◌+◌, ◌*◌, ◌/◌, ◌%◌, ◌^◌, ◌-◌, List, [], ◌∷◌, ◌++◌, length, take, drop, be32, htobe16buf,
  htobe32buf,
}

-- `bufbe16toh` and `bufbe64toh` at the head of a list.
abbrev pub be16 : List ℕ → ℕ
be16 (a ∷ b ∷ r) = a * 256 + b
be16 _ = 0

abbrev pub be64 : List ℕ → ℕ
be64 bs = be32 bs * 2 ^ 32 + be32 (drop 4 bs)

unfoldable pub htobe64buf : ℕ → List ℕ
htobe64buf n = htobe32buf (n / 2 ^ 32 % 2 ^ 32) ++ htobe32buf (n % 2 ^ 32)

abbrev pub head_or_zero : List ℕ → ℕ
head_or_zero [] = 0
head_or_zero (b ∷ bs) = b

-- The identifier that `ToSSU` returns.
unfoldable pub ssu_msg_id : List ℕ → ℕ
ssu_msg_id header = be32 (drop 1 header)

-- The bytes from the short header on: type, expiration in seconds, payload by the header's size.
unfoldable pub to_ssu : List ℕ → List ℕ
to_ssu header =
    head_or_zero header
    ∷ (htobe32buf (be64 (drop 5 header) / 1000 % 2 ^ 32)
        ++ take (be16 (drop 13 header)) (drop 16 header))

-- The message that is made of the bytes from the short header on.
unfoldable pub from_ssu : ℕ → List ℕ → List ℕ
unfolding htobe64buf
from_ssu msg_id ssu =
    head_or_zero ssu
    ∷ (htobe32buf msg_id
        ++ (htobe64buf (be32 (drop 1 ssu) * 1000)
            ++ (htobe16buf ((length ssu - 5) % 2 ^ 16) ++ (0 ∷ drop 5 ssu))))
