-- ===== src/Tunnel/Gateway/Bounds.antt =====
-- Sizes at the gateway: every tunnel message that it completes has 1028 bytes, whatever is put.
use kovri.Common.{
  ℕ, zero, suc, ◌+◌, ◌-◌, ◌≤◌, ◌≡◌, List, [], ◌∷◌, Option, none, some, true, false, length, take,
  drop, arith, length-take, Bool-cases, inl, inr, ltb, leb,
}
use kovri.Tunnel.Block.{TunnelMessageBlock}
use kovri.Tunnel.Crypto.{Crypto}
use kovri.Tunnel.Gateway.Sizes.{
  IsBlock, IsValid, Fills, IsValid-HasRoom, create_current-IsValid, complete_current-IsValid,
  complete_if_full-IsValid, append-shrink-IsValid, append-complete-IsValid, length-header_msg_id,
  length-follow_on_fragment, length-whole_fragment, length-first_fragment,
}
use kovri.Tunnel.Gateway.{
  TunnelGatewayBuffer, whole_fragment, first_fragment, header_msg_id, create_current,
  follow_on_fragment, complete_current, follow_on, put_whole, put_fragments, put, put_i2np_msg,
  starts_over, started, restarted, is_null, di_length, full_length,
}

module _ (c : Crypto) where
  follow_on-IsValid :
      (fuel : ℕ) (msg_id : List ℕ) (num : ℕ) (rest : List ℕ) (g : TunnelGatewayBuffer)
      → length msg_id ≡ 4
      → IsValid g
      → IsValid (follow_on c fuel msg_id num rest g)
  unfolding follow_on create_current
  follow_on-IsValid zero msg_id num rest g h v = v
  follow_on-IsValid (suc fuel) msg_id num [] g h v = v
  follow_on-IsValid (suc fuel) msg_id num (b ∷ bs) g h v =
      let rest : List ℕ = b ∷ bs in
      let g1 = create_current g in
      let v1 = create_current-IsValid g v in
      let part = follow_on_fragment msg_id num false (take 996 rest) in
      let whole = follow_on_fragment msg_id num true rest in
      elim (Bool-cases (ltb 996 (length rest))) [
        | inl more ↦ rw more (
            follow_on-IsValid fuel msg_id (num + 1) (drop 996 rest) _ h (
              append-complete-IsValid c part g1
                (omega (
                  arith,
                  length-follow_on_fragment msg_id num false (take 996 rest) h,
                  length-take 996 rest,
                ))
                v1))
        | inr last ↦ rw last (
            complete_if_full-IsValid c _ (
              append-shrink-IsValid c whole (length rest + 7) g1
                (omega (arith, length-follow_on_fragment msg_id num true rest h)) (ground arith)
                v1))
      ]

  put_whole-IsValid :
      (b : TunnelMessageBlock) (g : TunnelGatewayBuffer)
      → full_length b ≤ g.remaining_size
      → IsValid g
      → IsValid (put_whole c b g)
  unfolding put_whole
  put_whole-IsValid b g h v =
      complete_if_full-IsValid c _
        (append-shrink-IsValid c (whole_fragment b) _ g (length-whole_fragment b) (omega arith) v)

  put_fragments-IsValid :
      (b : TunnelMessageBlock) (g : TunnelGatewayBuffer)
      → IsBlock b
      → di_length b + 6 ≤ g.remaining_size
      → g.remaining_size ≤ 1003
      → IsValid g
      → IsValid (put_fragments c b g)
  unfolding put_fragments
  put_fragments-IsValid b g ok h hi v =
      let size = g.remaining_size - di_length b - 6 in
      follow_on-IsValid (length b.message) (header_msg_id b.message) 1 (drop size b.message) _
        (length-header_msg_id b.message (omega arith))
        (append-complete-IsValid c (first_fragment b size) g
          (omega (arith, length-first_fragment b size ok (omega arith))) v)

  remaining_le :
      (current : Option (List ℕ)) (r : ℕ) → is_null current ≡ false → Fills current r → r ≤ 1003
  remaining_le none r e f = cc
  remaining_le (some p) r e f = omega arith

  started-IsValid :
      (g : TunnelGatewayBuffer)
      → IsValid g
      → IsValid (started c g) × ((started c g).remaining_size ≤ 1003)
  unfolding started create_current
  started-IsValid g v = elim (Bool-cases (is_null g.current_tunnel_data_msg)) [
    | inl e ↦ rw e (create_current-IsValid g v, omega arith)
    | inr e ↦ rw e (v, remaining_le g.current_tunnel_data_msg g.remaining_size e v.filled)
  ]

  restarted-IsValid :
      (full : ℕ) (g : TunnelGatewayBuffer)
      → IsValid g
      → IsValid (restarted c full g) × ((restarted c full g).remaining_size ≤ 1003)
  unfolding restarted create_current
  restarted-IsValid full g v = elim (Bool-cases (is_null g.current_tunnel_data_msg)) [
    | inl e ↦ rw e (create_current-IsValid g v, omega arith)
    | inr e ↦ elim (Bool-cases (starts_over c g full)) [
      | inl o ↦
          rw (e, o)
            (
              create_current-IsValid (complete_current c g)
                  (complete_current-IsValid c g (IsValid-HasRoom 0 g (omega arith) v)),
              omega arith,
            )
      | inr o ↦ rw (e, o) (v, remaining_le g.current_tunnel_data_msg g.remaining_size e v.filled)
    ]
  ]

  put-IsValid :
      (fuel : ℕ) (b : TunnelMessageBlock) (g : TunnelGatewayBuffer)
      → IsBlock b
      → IsValid g
      → IsValid (put c fuel b g)
  unfolding put
  put-IsValid zero b g ok v = v
  put-IsValid (suc fuel) b g ok v =
      let g2 = restarted c (full_length b) g in
      let (v1, _) = started-IsValid g v in
      let (v2, le) = restarted-IsValid (full_length b) g v in
      let done = complete_current-IsValid c g2 (IsValid-HasRoom 0 g2 (omega arith) v2) in
      elim (Bool-cases (leb (full_length b) (started c g).remaining_size)) [
        | inl fits ↦ rw fits (put_whole-IsValid b (started c g) (ground arith) v1)
        | inr e ↦ elim (Bool-cases (leb (di_length b + 6) g2.remaining_size)) [
          | inl fits ↦ rw (e, fits) (put_fragments-IsValid b g2 ok (ground arith) le v2)
          | inr f ↦ rw (e, f) (put-IsValid fuel b (complete_current c g2) ok done)
        ]
      ]

  -- Whatever block is put, the gateway keeps its sizes: every completed tunnel message has 1028
  -- bytes, and the message under construction and the remaining size add up to the 1003 bytes of
  -- a payload.
  pub put_i2np_msg-IsValid :
      (b : TunnelMessageBlock) (g : TunnelGatewayBuffer)
      → IsBlock b
      → IsValid g
      → IsValid (put_i2np_msg c b g)
  unfolding put_i2np_msg
  put_i2np_msg-IsValid b g ok v = put-IsValid 2 b g ok v
