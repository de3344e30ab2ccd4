-- ===== src/Garlic/RoundTrip.antt =====
-- A wrapped message and its receiver: `WrapSingleMessage` and `HandleGarlicMessage` of
-- core/Garlic.cpp are inverse to each other.
pub mod Sent
pub mod Handled
pub mod Arrives
pub mod Status
pub mod Messages
use kovri.Common.{
  ℕ, zero, suc, ◌+◌, ◌-◌, ◌*◌, ◌%◌, ◌^◌, ◌≤◌, ◌<◌, ◌≡◌, refl, sym, ap, ◌∙◌, List, ◌++◌, Option,
  none, some, length,
}
use kovri.Garlic.{Ciphers}

-- What Crypto++ and the ElGamal of core/crypto promise.
pub record AreInverse (e : Ciphers) : Type 0 where
  pub decrypt-encrypt :
      (key iv data' : List ℕ)
      → length data' % 16 ≡ 0
      → e.cbc_decrypt key iv (e.cbc_encrypt key iv data') ≡ data'
  pub length-encrypt :
      (key iv data' : List ℕ)
      → length data' % 16 ≡ 0
      → length (e.cbc_encrypt key iv data') ≡ length data'
  pub el_gamal_decrypt-encrypt :
      (key block : List ℕ) (draw : ℕ)
      → length block ≡ 222
      → e.el_gamal_decrypt key (e.el_gamal_encrypt (e.public_key key) draw block) ≡ some block
  pub length-el_gamal_encrypt :
      (key block : List ℕ) (draw : ℕ)
      → length block ≡ 222
      → length (e.el_gamal_encrypt key draw block) ≡ 514
