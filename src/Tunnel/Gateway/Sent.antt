-- ===== src/Tunnel/Gateway/Sent.antt =====
-- What core/tunnel/TunnelGateway.cpp sends for one block: the payloads of its tunnel messages.
use kovri.Common.{
  map, ℕ, zero, suc, ◌+◌, ◌-◌, ◌≤◌, ◌≡◌, ◌≢◌, refl, sym, ap, ◌∙◌, List, [], ◌∷◌, ◌++◌, Option, none,
  some, true, false, length, take, drop, arith, length-drop, length-take, append_assoc, append-nil,
  All, Bool-cases, inl, inr, ltb, leb, if◌then◌else◌, ◌==◌, ◌+◌,
}
use kovri.Tunnel.Block.{TunnelMessageBlock}
use kovri.Tunnel.Crypto.{Crypto}
use kovri.Tunnel.Gateway.Sizes.{
  IsBlock, init-IsValid, length-address, length-header_msg_id, length-follow_on_fragment,
  length-whole_fragment, length-first_fragment,
}
use kovri.Tunnel.Gateway.{
  TunnelGatewayBuffer, frame, create_current, append, complete, complete_current, complete_if_full,
  shrink, follow_on, follow_on_fragment, whole_fragment, first_fragment, header_msg_id, di_length,
  full_length, put_whole, put_fragments, put, put_i2np_msg, started, restarted, init, non_zero,
}

-- The random bytes for padding are long enough, and none is zero.
pub record IsReady (g : TunnelGatewayBuffer) : Type 0 where
  pub random : length g.non_zero_random_buffer ≡ 1003
  pub non_zero : All (λ b. b ≢ 0) g.non_zero_random_buffer

-- A tunnel message that some state of a gateway wrote around a payload.
pub record IsFrame (c : Crypto) (payload message : List ℕ) : Type 0 where
  pub gateway : TunnelGatewayBuffer
  pub ready : IsReady gateway
  pub small : length payload ≤ 1003
  pub message_eq : message ≡ frame c gateway payload

abbrev pub Frames : Crypto → List (List ℕ) → List (List ℕ) → Type 0
Frames c [] [] = Unit {0}
Frames c [] (m ∷ ms) = ⊥
Frames c (p ∷ ps) [] = ⊥
Frames c (p ∷ ps) (m ∷ ms) = IsFrame c p m × Frames c ps ms

Frames-append :
    (c : Crypto) (ps qs ms ns : List (List ℕ))
    → Frames c ps ms
    → Frames c qs ns
    → Frames c (ps ++ qs) (ms ++ ns)
Frames-append c [] qs [] ns h k = k
Frames-append c [] qs (m ∷ ms) ns h k = absurd h
Frames-append c (p ∷ ps) qs [] ns h k = absurd h
Frames-append c (p ∷ ps) qs (m ∷ ms) ns h k = (h.0, Frames-append c ps qs ms ns h.1 k)

-- From `g` to `h` the gateway completed tunnel messages around these payloads, in this order, and
-- `h` has no message under construction.
pub record Sends (c : Crypto) (payloads : List (List ℕ)) (g h : TunnelGatewayBuffer) : Type 0 where
  pub messages : List (List ℕ)
  pub framed : Frames c payloads messages
  pub messages_eq : h.tunnel_data_msgs ≡ g.tunnel_data_msgs ++ messages
  pub current_eq : h.current_tunnel_data_msg ≡ none
  pub random_eq : h.non_zero_random_buffer ≡ g.non_zero_random_buffer

-- The payloads of the follow-on fragments: 996 bytes each, the last one marked.
unfoldable pub chunks : ℕ → List ℕ → ℕ → List ℕ → List (List ℕ)
chunks zero msg_id num rest = []
chunks (suc fuel) msg_id num [] = []
chunks (suc fuel) msg_id num (b ∷ bs) =
    let rest = b ∷ bs in
    let more = chunks fuel msg_id (num + 1) (drop 996 rest) in
    if ltb 996 (length rest)
    then follow_on_fragment msg_id num false (take 996 rest) ∷ more
    else follow_on_fragment msg_id num true rest ∷ []

-- The size of a first fragment that opens a tunnel message.
abbrev pub first_size : TunnelMessageBlock → ℕ
first_size b = 1003 - di_length b - 6

-- One payload if the block fits a tunnel message, and otherwise a first and follow-on fragments.
unfoldable pub payloads : TunnelMessageBlock → List (List ℕ)
payloads b =
    if leb (full_length b) 1003
    then whole_fragment b ∷ []
    else first_fragment b (first_size b)
      ∷ chunks (length b.message) (header_msg_id b.message) 1 (drop (first_size b) b.message)

non_zero_all : (xs : List ℕ) → All (λ b. b ≢ 0) (map non_zero xs)
non_zero_all [] = tt
non_zero_all (x ∷ xs) = (ground arith, non_zero_all xs)

-- A new gateway has its random bytes ready.
pub init-IsReady : (c : Crypto) (tunnel_id : ℕ) → IsReady (init c tunnel_id)
unfolding init
init-IsReady c tunnel_id = record {
  random = (init-IsValid c tunnel_id).random;
  non_zero = non_zero_all (c.generate_block 0 1003);
}

module _ (c : Crypto) where
  pub Sends-trans :
      (ps qs : List (List ℕ)) (g h k : TunnelGatewayBuffer)
      → Sends c ps g h
      → Sends c qs h k
      → Sends c (ps ++ qs) g k
  Sends-trans ps qs g h k s t = record {
    messages = s.messages ++ t.messages;
    framed = Frames-append c ps qs s.messages t.messages s.framed t.framed;
    messages_eq =
        t.messages_eq ∙ rw s.messages_eq (append_assoc g.tunnel_data_msgs s.messages t.messages);
    current_eq = t.current_eq;
    random_eq = t.random_eq ∙ s.random_eq;
  }

  pub Sends-IsReady :
      (ps : List (List ℕ)) (g h : TunnelGatewayBuffer) → Sends c ps g h → IsReady g → IsReady h
  Sends-IsReady ps g h s r = record {
    random = rw s.random_eq r.random;
    non_zero = rw s.random_eq r.non_zero;
  }

  -- A payload in a tunnel message of its own.
  one-Sends :
      (payload : List ℕ) (g : TunnelGatewayBuffer)
      → length payload ≤ 1003
      → IsReady g
      → Sends c (payload ∷ []) g (complete_current c (append payload (create_current g)))
  unfolding complete_current append create_current
  one-Sends payload g s r = record {
    messages = frame c _ payload ∷ [];
    framed = (
      record {
        gateway = _;
        ready = record { random = r.random; non_zero = r.non_zero };
        small = s;
        message_eq = refl;
      },
      tt,
    );
    messages_eq = refl;
    current_eq = refl;
    random_eq = refl;
  }

  complete_none :
      (g : TunnelGatewayBuffer) → g.current_tunnel_data_msg ≡ none → complete_current c g ≡ g
  unfolding complete_current
  complete_none g e = rw (e, complete)

  complete-current :
      (current : Option (List ℕ)) (g : TunnelGatewayBuffer)
      → g.current_tunnel_data_msg ≡ current
      → (complete c current g).current_tunnel_data_msg ≡ none
  unfolding complete
  complete-current none g e = e
  complete-current (some payload) g e = refl

  -- What is completed because it is full is not completed again.
  complete_once :
      (g : TunnelGatewayBuffer) → complete_current c (complete_if_full c g) ≡ complete_current c g
  unfolding complete_if_full
  complete_once g = elim (Bool-cases (g.remaining_size == 0)) [
    | inl full ↦ rw full (
        complete_none (complete_current c g)
          (unfold complete_current in complete-current g.current_tunnel_data_msg g refl))
    | inr room ↦ rw room
  ]

  last-Sends :
      (payload : List ℕ) (n : ℕ) (g : TunnelGatewayBuffer)
      → length payload ≤ 1003
      → IsReady g
      → Sends c
          (payload ∷ [])
          g
          (complete_current c (complete_if_full c (shrink n (append payload (create_current g)))))
  last-Sends payload n g s r = rw (complete_once (shrink n (append payload (create_current g)))) (
      unfold complete_current append create_current shrink in
      record {
        messages = frame c _ payload ∷ [];
        framed = (
          record {
            gateway = _;
            ready = record { random = r.random; non_zero = r.non_zero };
            small = s;
            message_eq = refl;
          },
          tt,
        );
        messages_eq = refl;
        current_eq = refl;
        random_eq = refl;
      })

  nothing-Sends :
      (g : TunnelGatewayBuffer)
      → g.current_tunnel_data_msg ≡ none
      → Sends c [] g (complete_current c g)
  nothing-Sends g e = rw (complete_none g e) (record {
    messages = [];
    framed = tt;
    messages_eq = sym (append-nil g.tunnel_data_msgs);
    current_eq = e;
    random_eq = refl;
  })

  follow_on-Sends :
      (fuel : ℕ) (msg_id : List ℕ) (num : ℕ) (rest : List ℕ) (g : TunnelGatewayBuffer)
      → length rest ≤ fuel
      → length msg_id ≡ 4
      → g.current_tunnel_data_msg ≡ none
      → IsReady g
      → Sends c
          (chunks fuel msg_id num rest)
          g
          (complete_current c (follow_on c fuel msg_id num rest g))
  unfolding follow_on chunks
  follow_on-Sends zero msg_id num rest g h i e r = nothing-Sends g e
  follow_on-Sends (suc fuel) msg_id num [] g h i e r = nothing-Sends g e
  follow_on-Sends (suc fuel) msg_id num (b ∷ bs) g h i e r =
      let rest : List ℕ = b ∷ bs in
      elim (Bool-cases (ltb 996 (length rest))) [
        | inl more ↦
            let part = follow_on_fragment msg_id num false (take 996 rest) in
            let size = length-follow_on_fragment msg_id num false (take 996 rest) i in
            let one = one-Sends part g (omega (arith, size, length-take 996 rest)) r in
            let next = complete_current c (append part (create_current g)) in
            rw more (
              Sends-trans (part ∷ []) _ g next _ one (
                follow_on-Sends fuel msg_id (num + 1) (drop 996 rest) next
                  (omega (arith, length-drop 996 rest)) i one.current_eq
                  (Sends-IsReady (part ∷ []) g next one r)))
        | inr last ↦
            let size = length-follow_on_fragment msg_id num true rest i in
            rw last (
              last-Sends (follow_on_fragment msg_id num true rest) (length rest + 7) g
                (ground (arith, size)) r)
      ]

  -- The completion of a message under construction.
  complete-Sends :
      (current : Option (List ℕ)) (payload : List ℕ) (g : TunnelGatewayBuffer)
      → current ≡ some payload
      → length payload ≤ 1003
      → IsReady g
      → Sends c (payload ∷ []) g (complete c current g)
  unfolding complete
  complete-Sends none payload g e s r = cc
  complete-Sends (some p) payload g e s r =
      let same : p ≡ payload = cc in
      record {
        messages = frame c g p ∷ [];
        framed =
            (record { gateway = g; ready = r; small = s; message_eq = ap (frame c g) same }, tt);
        messages_eq = refl;
        current_eq = refl;
        random_eq = refl;
      }

  pub complete_current-Sends :
      (payload : List ℕ) (g : TunnelGatewayBuffer)
      → g.current_tunnel_data_msg ≡ some payload
      → length payload ≤ 1003
      → IsReady g
      → Sends c (payload ∷ []) g (complete_current c g)
  unfolding complete_current
  complete_current-Sends payload g e s r = complete-Sends g.current_tunnel_data_msg payload g e s r

  started_new :
      (g : TunnelGatewayBuffer) → g.current_tunnel_data_msg ≡ none → started c g ≡ create_current g
  unfolding started
  started_new g e = ground arith

  restarted_new :
      (full : ℕ) (g : TunnelGatewayBuffer)
      → g.current_tunnel_data_msg ≡ none
      → restarted c full g ≡ create_current g
  unfolding restarted
  restarted_new full g e = ground arith

  put_whole-Sends :
      (b : TunnelMessageBlock) (g : TunnelGatewayBuffer)
      → full_length b ≤ 1003
      → IsReady g
      → Sends c (whole_fragment b ∷ []) g (complete_current c (put_whole c b (create_current g)))
  unfolding put_whole
  put_whole-Sends b g h r =
      last-Sends (whole_fragment b) _ g (omega (arith, length-whole_fragment b)) r

  pub put_fragments-Sends :
      (b : TunnelMessageBlock) (g : TunnelGatewayBuffer)
      → IsBlock b
      → IsReady g
      → Sends c
          (first_fragment b (first_size b)
            ∷ chunks (length b.message) (header_msg_id b.message) 1 (drop (first_size b) b.message))
          g
          (complete_current c (put_fragments c b (create_current g)))
  unfolding put_fragments create_current
  put_fragments-Sends b g ok r =
      let first = first_fragment b (first_size b) in
      let size = length-first_fragment b (first_size b) ok (omega arith) in
      let id = length-header_msg_id b.message (omega arith) in
      let one =
        one-Sends first g (omega (arith, size, length-address b b.delivery_type ok.hash_length))
          r in
      let next = complete_current c (append first (create_current g)) in
      Sends-trans (first ∷ []) _ g next _ one (
        follow_on-Sends (length b.message) (header_msg_id b.message) 1
          (drop (first_size b) b.message) next (omega (arith, length-drop (first_size b) b.message))
          id one.current_eq (Sends-IsReady (first ∷ []) g next one r))

  -- For a block that is put on a gateway with no message under construction, and then completed,
  -- exactly the tunnel messages around `payloads b` are added, in order.
  pub put_i2np_msg-Sends :
      (b : TunnelMessageBlock) (g : TunnelGatewayBuffer)
      → IsBlock b
      → g.current_tunnel_data_msg ≡ none
      → IsReady g
      → Sends c (payloads b) g (complete_current c (put_i2np_msg c b g))
  unfolding put_i2np_msg put payloads create_current
  put_i2np_msg-Sends b g ok e r = elim (Bool-cases (leb (full_length b) 1003)) [
    | inl fits ↦ rw (started_new g e, fits) (put_whole-Sends b g (ground arith) r)
    | inr more ↦
        let room : leb (di_length b + 6) 1003 ≡ true =
          ground (arith, length-address b b.delivery_type ok.hash_length) in
        rw (started_new g e, restarted_new (full_length b) g e, more, room)
          (put_fragments-Sends b g ok r)
  ]
