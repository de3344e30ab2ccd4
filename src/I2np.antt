-- ===== src/I2np.antt =====
-- The header of an I2NP message and the messages that core/I2NPProtocol.cpp makes: `I2NPMessage` of
-- core/I2NPProtocol.h, `CreateI2NPMessage`, `CreateDeliveryStatusMsg`. A message is the list of its
-- bytes from `GetHeader()` on: type, identifier, expiration, size and checksum, then the payload.
use kovri.Common.{
  ℕ, ◌+◌, ◌%◌, ◌^◌, List, ◌∷◌, ◌++◌, if◌then◌else◌, ◌==◌, ◌-◌, length, drop, htobe16buf, htobe32buf,
}
use kovri.Tunnel.Crypto.{Crypto}
use kovri.Ssu.Header.{be16, head_or_zero, htobe64buf}

abbrev pub i2np_delivery_status : ℕ
i2np_delivery_status = 10

abbrev pub i2np_garlic : ℕ
i2np_garlic = 11

-- The size of the array behind a message of `NewI2NPMessage()`.
abbrev pub i2np_buffer_size : ℕ
i2np_buffer_size = 32784

-- `GetI2NPMessageLength`: the length that the message's own header gives.
abbrev pub get_i2np_message_length : List ℕ → ℕ
get_i2np_message_length bs = be16 (drop 13 bs) + 16

module _ (c : Crypto) where
  -- `GenerateWord32` without bounds.
  abbrev pub generate_word : ℕ → ℕ
  generate_word draw = c.generate_word32 draw 0 (2 ^ 32 - 1)

  -- `FillI2NPMessageHeader` at the time `now`, in milliseconds, before the payload.
  unfoldable pub fill_i2np_message_header : ℕ → ℕ → ℕ → ℕ → List ℕ → List ℕ
  unfolding htobe64buf
  fill_i2np_message_header now draw msg_type reply_msg_id payload =
      let msg_id = if reply_msg_id == 0 then generate_word draw else reply_msg_id in
      msg_type
      ∷ (htobe32buf msg_id
          ++ (htobe64buf ((now + 5000) % 2 ^ 64)
              ++ (htobe16buf (length payload % 2 ^ 16)
                  ++ (head_or_zero (c.sha256 payload) ∷ payload))))

  unfoldable pub create_delivery_status_msg : ℕ → ℕ → ℕ → List ℕ
  unfolding fill_i2np_message_header htobe64buf
  create_delivery_status_msg now draw msg_id =
      let payload =
        if msg_id == 0
        then htobe32buf (generate_word draw) ++ htobe64buf 2
        else htobe32buf msg_id ++ htobe64buf now in
      fill_i2np_message_header now (draw + 1) i2np_delivery_status 0 payload
