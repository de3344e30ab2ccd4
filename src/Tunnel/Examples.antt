-- ===== src/Tunnel/Examples.antt =====
-- Runs of gateway and endpoint, and their theorems at concrete inputs.
use kovri.Common.{
  ap, ℕ, zero, suc, ◌≤◌, ◌≡◌, refl, List, [], ◌∷◌, some, true, length, arith, All, map, lookup,
}
use kovri.Tunnel.Block.{I2npMessage, TunnelMessageBlock, router}
use kovri.Tunnel.Crypto.{Crypto}
use kovri.Tunnel.Gateway.{
  TunnelGatewayBuffer, address, init, complete_current, put_i2np_msg, first_fragment,
}
use kovri.Tunnel.Gateway.Sizes.{
  IsBlock, IsValid, init-IsValid, IsValid-HasRoom, complete_current-IsValid,
}
use kovri.Tunnel.Gateway.Sent.{init-IsReady, Sends, payloads, first_size, put_i2np_msg-Sends}
use kovri.Tunnel.Gateway.Bounds.{put_i2np_msg-IsValid}
use kovri.Tunnel.Endpoint
use kovri.Tunnel.Endpoint.Receive.{Received}
use kovri.Tunnel.Gateway.Lost.{put_i2np_msg_unfinished}
use kovri.Tunnel.RoundTrip.{endpoint-gateway, Delivers}
use kovri.Tunnel.RoundTrip.Steps.{IsReceived}

abbrev fill : ℕ → ℕ → List ℕ
fill zero x = []
fill (suc n) x = x ∷ fill n x

length-fill : (n x : ℕ) → length (fill n x) ≡ n
length-fill zero x = refl
length-fill (suc n) x = omega (arith, length-fill n x)

-- A stand-in for Crypto++ that meets the laws.
abbrev plain : Crypto
plain = record {
  sha256 = λ bs. fill 32 7;
  generate_block = λ draw n. fill n draw;
  generate_word32 = λ draw lo hi. lo;
  length-sha256 = λ bs. refl;
  length-generate_block = λ draw n. length-fill n draw;
  generate_word32_bounds = λ draw lo hi h. (omega arith, h);
}

-- An I2NP message of `n` bytes with the identifier 1, for a router.
abbrev block : ℕ → TunnelMessageBlock
block n = record {
  delivery_type = router;
  hash = fill 32 9;
  tunnel_id = 0;
  message = 11 ∷ 0 ∷ 0 ∷ 0 ∷ 1 ∷ fill n 5;
  slack = fill 1003 0;
}

block-IsBlock : (n : ℕ) → 11 ≤ n → IsBlock (block n)
block-IsBlock n h = record {
  hash_length = refl;
  header = omega (arith, length-fill n 5);
  room = omega (arith, length-fill n 5, length-fill 1003 0);
}

put_i2np_msg-IsValid_example : IsValid (put_i2np_msg plain (block 1200) (init plain 3))
put_i2np_msg-IsValid_example =
    put_i2np_msg-IsValid plain (block 1200) (init plain 3) (block-IsBlock 1200 (omega arith))
      (init-IsValid plain 3)

put_i2np_msg-Sends_example :
    Sends plain
      (payloads (block 1200))
      (init plain 3)
      (complete_current plain (put_i2np_msg plain (block 1200) (init plain 3)))
unfolding init
put_i2np_msg-Sends_example =
    put_i2np_msg-Sends plain (block 1200) (init plain 3) (block-IsBlock 1200 (omega arith)) refl
      (init-IsReady plain 3)

abbrev sent : List (List ℕ)
sent = (complete_current plain (put_i2np_msg plain (block 1200) (init plain 3))).tunnel_data_msgs

abbrev receive : List ℕ → Received
receive body = record { front = fill 18 0; body = body; back = fill 3066 0; max_len = 4096 }

receive-IsReceived :
    (bodies : List (List ℕ))
    → All (λ m. length m ≡ 1028) bodies
    → All IsReceived (map receive bodies)
receive-IsReceived [] h = tt
receive-IsReceived (x ∷ xs) h = (
  record {
    front_small = omega arith;
    back_room = omega (arith, length-fill 3066 0);
    within = omega (arith, length-fill 3066 0, length-fill 18 0, h.0);
    bounded = omega arith;
  },
  receive-IsReceived xs h.1,
)

body-receive : (bodies : List (List ℕ)) → map (λ m. m.body) (map receive bodies) ≡ bodies
body-receive [] = refl
body-receive (x ∷ xs) = ap (λ l. x ∷ l) (body-receive xs)

sent-sized : All (λ m. length m ≡ 1028) sent
sent-sized =
    let g = put_i2np_msg plain (block 1200) (init plain 3) in
    (complete_current-IsValid plain g
      (IsValid-HasRoom 0 g (omega arith) put_i2np_msg-IsValid_example)).sized

endpoint-gateway_example :
    Delivers plain
      (fill 32 8)
      1
      (map receive sent)
      (Endpoint.init true)
      (fill 32 9)
      0
      (block 1200).message
      router
unfolding init lookup
endpoint-gateway_example =
    endpoint-gateway plain (fill 32 8) (block 1200) (init plain 3) (map receive sent)
      (Endpoint.init true) (block-IsBlock 1200 (omega arith))
      (record { known = λ e. cc; hash_length = refl; tunnel_small = omega arith }) (omega arith)
      (omega arith) refl refl (init-IsReady plain 3) refl refl (receive-IsReceived sent sent-sized)
      (body-receive sent)

-- A gateway with 700 bytes of a payload, and a message of 505 bytes.
abbrev busy : TunnelGatewayBuffer
busy = record (init plain 3) { current_tunnel_data_msg = some (fill 700 1); remaining_size = 303 }

put_i2np_msg_unfinished_example :
    Sends plain
      (fill 700 1 ∷ first_fragment (block 500) (first_size (block 500)) ∷ [])
      busy
      (complete_current plain (put_i2np_msg plain (block 500) busy))
    × (length (block 500).message ≤ first_size (block 500))
unfolding address init
put_i2np_msg_unfinished_example =
    put_i2np_msg_unfinished plain (block 500) busy (fill 700 1) (block-IsBlock 500 (omega arith))
      (record {
        random = (init-IsReady plain 3).random;
        non_zero = (init-IsReady plain 3).non_zero;
      })
      (record {
        filled = omega (arith, length-fill 700 1);
        sized = tt;
        random = (init-IsReady plain 3).random;
      })
      refl (omega (arith, length-fill 500 5)) (omega (arith, length-fill 500 5))

abbrev short_message : ℕ → I2npMessage
short_message n = record { offset = 40; bytes = fill n 5; max_len = 4096; capacity = 4112 }
