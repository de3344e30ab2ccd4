-- ===== src/Tunnel/Gateway/Lost.antt =====
-- A message that does not fit what is left of the tunnel message under construction, but fits a
-- tunnel message of its own (core/tunnel/TunnelGateway.cpp, `PutI2NPMsg`).
use kovri.Common.{
  ℕ, zero, suc, ◌+◌, ◌≤◌, ◌<◌, ◌≡◌, refl, List, [], ◌∷◌, some, true, false, length, drop, arith,
  leb,
}
use kovri.Tunnel.Block.{TunnelMessageBlock}
use kovri.Tunnel.Crypto.{Crypto}
use kovri.Tunnel.Gateway.{
  TunnelGatewayBuffer, create_current, complete_current, first_fragment, di_length, full_length,
  is_null, starts_over, started, restarted, put, put_i2np_msg,
}
use kovri.Tunnel.Gateway.Sizes.{IsBlock, IsValid}
use kovri.Tunnel.Gateway.Sent.{
  IsReady, Sends, chunks, first_size, Sends-trans, Sends-IsReady, put_fragments-Sends,
  complete_current-Sends,
}

chunks-nil : (fuel : ℕ) (msg_id : List ℕ) (num : ℕ) → chunks fuel msg_id num [] ≡ []
unfolding chunks
chunks-nil zero msg_id num = refl
chunks-nil (suc fuel) msg_id num = refl

drop_all : (n : ℕ) (xs : List ℕ) → length xs ≤ n → drop n xs ≡ []
drop_all zero [] h = refl
drop_all zero (x ∷ xs) h = absurd (omega arith)
drop_all (suc n) [] h = refl
drop_all (suc n) (x ∷ xs) h = drop_all n xs (omega arith)

module _ (c : Crypto) where
  restarted_over :
      (b : TunnelMessageBlock) (g : TunnelGatewayBuffer)
      → is_null g.current_tunnel_data_msg ≡ false
      → g.remaining_size < full_length b
      → full_length b < 1003
      → restarted c (full_length b) g ≡ create_current (complete_current c g)
  unfolding restarted starts_over
  restarted_over b g e h s = ground arith

  started_same :
      (g : TunnelGatewayBuffer) → is_null g.current_tunnel_data_msg ≡ false → started c g ≡ g
  unfolding started
  started_same g e = rw e

  -- If a message is under construction, and a block that is not longer than 999 bytes with its
  -- instructions does not fit what is left of it, the gateway completes that message and sends the
  -- block as a first fragment of a fragmented message, and no fragment after it: the length that
  -- the fragment announces is that of a full tunnel message and not less than that of the block.
  pub put_i2np_msg_unfinished :
      (b : TunnelMessageBlock) (g : TunnelGatewayBuffer) (payload : List ℕ)
      → IsBlock b
      → IsReady g
      → IsValid g
      → g.current_tunnel_data_msg ≡ some payload
      → g.remaining_size < full_length b
      → full_length b ≤ 999
      → Sends c
          (payload ∷ first_fragment b (first_size b) ∷ [])
          g
          (complete_current c (put_i2np_msg c b g))
        × (length b.message ≤ first_size b)
  unfolding put_i2np_msg put create_current
  put_i2np_msg_unfinished b g payload ok ready valid e h s =
      let busy : is_null g.current_tunnel_data_msg ≡ false = ground arith in
      let small : length payload ≤ 1003 = ground (arith, valid.filled) in
      let done = complete_current-Sends c payload g e small ready in
      let g1 = complete_current c g in
      let first = put_fragments-Sends c b g1 ok (Sends-IsReady c (payload ∷ []) g g1 done ready) in
      let all : drop (first_size b) b.message ≡ [] =
        drop_all (first_size b) b.message (omega arith) in
      let room : leb (di_length b + 6) 1003 ≡ true = ground arith in
      let over : leb (full_length b) g.remaining_size ≡ false = ground arith in
      let first' = rw (all, chunks-nil) at first in
      (
        rw (started_same g busy, over, restarted_over b g busy h (omega arith), room)
            (Sends-trans c (payload ∷ []) (first_fragment b (first_size b) ∷ []) g g1 _ done
              first'),
        omega arith,
      )
