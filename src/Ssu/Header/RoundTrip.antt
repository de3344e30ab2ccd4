-- ===== src/Ssu/Header/RoundTrip.antt =====
-- A message in the short form of SSU and back: `ToSSU` and `FromSSU` of core/I2NPProtocol.h.
use kovri.Common.{
  ℕ, suc, ◌-◌, ◌*◌, ◌/◌, ◌%◌, ◌^◌, ◌<◌, ◌≡◌, refl, ap, ◌∙◌, List, ◌∷◌, ◌++◌, arith, length, take,
  take_all, be32, htobe16buf, htobe32buf,
}
use kovri.Ssu.Header.{be16, be64, htobe64buf, to_ssu, from_ssu}

-- A message as the list of its bytes.
abbrev pub message_bytes : ℕ → ℕ → ℕ → ℕ → List ℕ → List ℕ
message_bytes type msg_id expiration checksum payload =
    type
    ∷ (htobe32buf msg_id
        ++ (htobe64buf expiration ++ (htobe16buf (length payload) ++ (checksum ∷ payload))))

be32-htobe32buf : (n : ℕ) (r : List ℕ) → n < 2 ^ 32 → be32 (htobe32buf n ++ r) ≡ n
unfolding htobe32buf
be32-htobe32buf n r h = omega arith

be64-htobe64buf : (n : ℕ) (r : List ℕ) → n < 2 ^ 64 → be64 (htobe64buf n ++ r) ≡ n
unfolding htobe64buf htobe32buf
be64-htobe64buf n r h =
    let high = n / 2 ^ 32 % 2 ^ 32 in
    let low = n % 2 ^ 32 in
    omega (
      arith,
      be32-htobe32buf high (htobe32buf low ++ r) (omega arith),
      be32-htobe32buf low r (omega arith),
    )

be16-htobe16buf : (n : ℕ) (r : List ℕ) → n < 2 ^ 16 → be16 (htobe16buf n ++ r) ≡ n
unfolding htobe16buf
be16-htobe16buf n r h = omega arith

to_ssu-message_bytes :
    (type msg_id expiration checksum : ℕ) (payload : List ℕ)
    → expiration < 2 ^ 32 * 1000
    → length payload < 2 ^ 16
    → to_ssu (message_bytes type msg_id expiration checksum payload)
      ≡ type ∷ (htobe32buf (expiration / 1000) ++ payload)
unfolding to_ssu htobe16buf htobe32buf htobe64buf
to_ssu-message_bytes type msg_id expiration checksum payload e h =
    let tail = htobe16buf (length payload) ++ (checksum ∷ payload) in
    let read : be64 (htobe64buf expiration ++ tail) ≡ expiration =
      be64-htobe64buf expiration tail (omega arith) in
    let size : be16 tail ≡ length payload =
      be16-htobe16buf (length payload) (checksum ∷ payload) h in
    let seconds : be64 (htobe64buf expiration ++ tail) / 1000 % 2 ^ 32 ≡ expiration / 1000 =
      omega (arith, read) in
    let whole : take (be16 tail) payload ≡ payload =
      ap (λ (n : ℕ). take n payload) size ∙ take_all payload (length payload) refl in
    λ i. type ∷ (htobe32buf (seconds i) ++ whole i)

from_ssu-short_form :
    (type msg_id seconds : ℕ) (payload : List ℕ)
    → seconds < 2 ^ 32
    → length payload < 2 ^ 16
    → from_ssu msg_id (type ∷ (htobe32buf seconds ++ payload))
      ≡ message_bytes type msg_id (seconds * 1000) 0 payload
unfolding from_ssu htobe32buf
from_ssu-short_form type msg_id seconds payload s h =
    let read : be32 (htobe32buf seconds ++ payload) ≡ seconds = be32-htobe32buf seconds payload s in
    let size : (suc (suc (suc (suc (suc (length payload))))) - 5) % 2 ^ 16 ≡ length payload =
      omega arith in
    λ i.
      type
      ∷ (htobe32buf msg_id
          ++ (htobe64buf (read i * 1000) ++ (htobe16buf (size i) ++ (0 ∷ payload))))

-- The short form of a message whose expiration in seconds has 32 bits and whose payload has less
-- than 65536 bytes gives the message back, with the expiration in whole seconds and the
-- checksum 0.
pub from_ssu-to_ssu :
    (type msg_id expiration checksum : ℕ) (payload : List ℕ)
    → expiration < 2 ^ 32 * 1000
    → length payload < 2 ^ 16
    → from_ssu msg_id (to_ssu (message_bytes type msg_id expiration checksum payload))
      ≡ message_bytes type msg_id (expiration / 1000 * 1000) 0 payload
from_ssu-to_ssu type msg_id expiration checksum payload e h =
    ap (from_ssu msg_id) (to_ssu-message_bytes type msg_id expiration checksum payload e h)
    ∙ from_ssu-short_form type msg_id (expiration / 1000) payload (omega arith) h
