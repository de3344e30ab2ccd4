-- ===== src/Tunnel/Endpoint/Delivery.antt =====
-- Single fragments at the endpoint: what each does to the incomplete messages and to the effects.
use kovri.Common.{
  ℕ, zero, suc, ◌+◌, ◌-◌, ◌%◌, ◌≤◌, ◌<◌, ◌≡◌, refl, List, ◌++◌, Option, none, some, true, false,
  length, arith, ltb, leb, ◌>>=◌, read_bytes-append, lookup, insert, erase, lookup-insert,
  lookup-erase,
}
use kovri.Tunnel.Block.{end_of}
use kovri.Tunnel.Endpoint.{
  TunnelEndpoint, TunnelMessageBlockEx, delivery, handle_next_message,
  handle_out_of_sequence_fragment, handle_follow_on_fragment, attach_follow_on,
}
use kovri.Tunnel.Endpoint.Header.{Header, read_header}
use kovri.Tunnel.Endpoint.Receive.{handle_fragment, handle_fragments}
use kovri.Tunnel.Endpoint.Concatenate.{IsBuffer, concatenate_lem}

bind_some {ℓ} :
    {A : Type ℓ} (o : Option A) (f : A → Option A) → ((a : A) → f a ≡ some a) → (o >>= f) ≡ o
bind_some none f h = refl
bind_some (some a) f h = h a

-- The message `m` waits under `msg_id` for its next fragment, and none is saved.
pub record Waits (msg_id : ℕ) (m : TunnelMessageBlockEx) (ep : TunnelEndpoint) : Type 0 where
  pub waiting : lookup msg_id ep.incomplete_messages ≡ some m
  pub unsaved : lookup msg_id ep.out_of_sequence_fragments ≡ none
  pub buffer : IsBuffer m.data'

-- `m'` is `m` with a fragment more, and in the same delivery.
pub record Grows (m : TunnelMessageBlockEx) (fragment : List ℕ) (m' : TunnelMessageBlockEx)
    : Type 0 where
  pub bytes_eq : m'.data'.bytes ≡ m.data'.bytes ++ fragment
  pub end_le : end_of m'.data' ≤ end_of m.data' + length fragment
  pub num_eq : m'.next_fragment_num ≡ (m.next_fragment_num + 1) % 256
  pub type_eq : m'.delivery_type ≡ m.delivery_type
  pub hash_eq : m'.hash ≡ m.hash
  pub tunnel_eq : m'.tunnel_id ≡ m.tunnel_id

module _ (our_hash : List ℕ) where
  loop_end :
      (fuel max_len capacity : ℕ) (tail : List ℕ) (ep : TunnelEndpoint)
      → handle_fragments our_hash fuel (length tail) max_len capacity tail ep ≡ some ep
  unfolding handle_fragments
  loop_end zero max_len capacity tail ep = refl
  loop_end (suc fuel) max_len capacity tail ep = ground arith

  -- A tunnel message with one fragment, up to its end.
  pub one_fragment :
      (fuel max_len capacity : ℕ) (bs bytes tail : List ℕ) (h : Header) (ep : TunnelEndpoint)
      → 0 < fuel
      → length tail < length bs
      → read_header bs ≡ some (h, bytes ++ tail)
      → length bytes ≡ h.size
      → handle_fragments our_hash fuel (length tail) max_len capacity bs ep
        ≡ handle_fragment our_hash h
            (record {
              offset = capacity - length (bytes ++ tail);
              bytes = bytes;
              max_len = max_len;
              capacity = capacity;
            })
            ep
  unfolding handle_fragments
  one_fragment zero max_len capacity bs bytes tail h ep f l r s = absurd (omega arith)
  one_fragment (suc fuel) max_len capacity bs bytes tail h ep f l r s =
      let more : ltb (length tail) (length bs) ≡ true = ground arith in
      let ends : leb (length tail) (length tail) ≡ true = ground arith in
      rw (more, r, read_bytes-append h.size bytes tail s, ends)
        (bind_some _ _ (loop_end fuel max_len capacity tail))

  -- The last fragment, in sequence: the whole message is delivered, and forgotten.
  pub last_fragment :
      (msg_id : ℕ) (m block : TunnelMessageBlockEx) (ep : TunnelEndpoint)
      → Waits msg_id m ep
      → block.next_fragment_num ≡ m.next_fragment_num
      → end_of m.data' + length block.data'.bytes < 32768
      → (ep' : TunnelEndpoint) × (handle_follow_on_fragment our_hash msg_id true block ep
          ≡ some ep')
        × (ep'.effects
            ≡ ep.effects
              ++ delivery our_hash ep.is_inbound m.hash m.tunnel_id
                  (m.data'.bytes ++ block.data'.bytes)
                  m.delivery_type)
        × (lookup msg_id ep'.incomplete_messages ≡ none)
  unfolding handle_follow_on_fragment attach_follow_on handle_next_message
  last_fragment msg_id m block ep w n h =
      let (d, e, bytes_eq, v, le) = concatenate_lem m.data' block.data'.bytes w.buffer h in
      let ep1 = handle_next_message our_hash (record m { data' = d }) ep in
      let ep' = record ep1 { incomplete_messages = erase msg_id ep.incomplete_messages } in
      (ep', ground (arith, w.waiting, e), rw bytes_eq, rw lookup-erase (ground arith))

  -- Any other fragment in sequence: it is appended, and the message waits for the next.
  pub inner_fragment :
      (msg_id : ℕ) (m block : TunnelMessageBlockEx) (ep : TunnelEndpoint)
      → Waits msg_id m ep
      → block.next_fragment_num ≡ m.next_fragment_num
      → end_of m.data' + length block.data'.bytes < 32768
      → (ep' : TunnelEndpoint) × (m' : TunnelMessageBlockEx) × (handle_follow_on_fragment our_hash
            msg_id false block ep
          ≡ some ep')
        × Waits msg_id m' ep'
        × Grows m block.data'.bytes m'
        × (ep'.effects ≡ ep.effects)
        × (ep'.is_inbound ≡ ep.is_inbound)
  unfolding handle_follow_on_fragment attach_follow_on handle_out_of_sequence_fragment
  inner_fragment msg_id m block ep w n h =
      let (d, e, bytes_eq, v, le) = concatenate_lem m.data' block.data'.bytes w.buffer h in
      let m' = record m { data' = d; next_fragment_num = (m.next_fragment_num + 1) % 256 } in
      let ep' = record ep { incomplete_messages = insert msg_id m' ep.incomplete_messages } in
      (
        ep',
        m',
        ground (arith, w.waiting, w.unsaved, e),
        record { waiting = rw lookup-insert (ground arith); unsaved = w.unsaved; buffer = v },
        record {
          bytes_eq = bytes_eq;
          end_le = le;
          num_eq = refl;
          type_eq = refl;
          hash_eq = refl;
          tunnel_eq = refl;
        },
        refl,
        refl,
      )
