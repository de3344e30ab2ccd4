-- ===== src/Tunnel/Endpoint.antt =====
-- core/tunnel/TunnelEndpoint.cpp: the state, and the assembly of messages from fragments. A step answers `none` where the source reads or writes past the
-- buffer that it works on, which is undefined behaviour.
pub mod Header
pub mod Receive
pub mod Concatenate
pub mod Delivery
pub mod Faults
use kovri.Common.{
  ℕ, zero, suc, ◌+◌, ◌-◌, ◌%◌, List, [], ◌∷◌, ◌++◌, Option, none, some, Bool, true, false, length,
  ltb, leb, ◌==◌, if◌then◌else◌, ◌&&◌, ◌>>=◌, ◌>>◌, guard, Dict, lookup, insert, erase,
}
use kovri.Tunnel.Block.{
  TunnelDeliveryType, local, tunnel, router, unknown, I2npMessage, end_of, i2np_max_message_size,
}

pub record TunnelMessageBlockEx : Type 0 where
  pub delivery_type : TunnelDeliveryType
  pub hash : List ℕ
  pub tunnel_id : ℕ
  pub data' : I2npMessage
  pub next_fragment_num : ℕ

pub record Fragment : Type 0 where
  pub fragment_num : ℕ
  pub is_last_fragment : Bool
  pub data' : I2npMessage

-- What the endpoint does with a whole message: `i2p::HandleI2NPMessage`, and
-- `transports.SendMessage` with the message, or with one wrapped for the gateway of a tunnel.
pub data Effect : Type 0 where
  handle : List ℕ → Effect
  send_gateway : List ℕ → ℕ → List ℕ → Effect
  send : List ℕ → List ℕ → Effect

pub record TunnelEndpoint : Type 0 where
  pub incomplete_messages : Dict TunnelMessageBlockEx
  pub out_of_sequence_fragments : Dict Fragment
  pub is_inbound : Bool
  pub num_received_bytes : ℕ
  pub effects : List Effect

abbrev pub init : Bool → TunnelEndpoint
init inbound = record {
  incomplete_messages = [];
  out_of_sequence_fragments = [];
  is_inbound = inbound;
  num_received_bytes = 0;
  effects = [];
}

-- Equality of hashes, byte by byte.
unfoldable pub same_bytes : List ℕ → List ℕ → Bool
same_bytes [] [] = true
same_bytes (x ∷ xs) (y ∷ ys) = (x == y) && same_bytes xs ys
same_bytes _ _ = false

-- `NewI2NPMessage` and `*newMsg = *old`: the copy starts at offset 2 and keeps the old `maxLen`.
pub enlarged : I2npMessage → Option I2npMessage
enlarged m = do
  guard (leb (2 + length m.bytes) (i2np_max_message_size + 16))
  some (record m { offset = 2; capacity = i2np_max_message_size + 16 })

-- Concatenation: a new buffer if `maxLen` is exceeded, then `memcpy` at the end.
pub concatenate : I2npMessage → List ℕ → Option I2npMessage
unfolding enlarged
concatenate m fragment = do
  m' ← if ltb m.max_len (end_of m + length fragment) then enlarged m else some m
  guard (leb (end_of m' + length fragment) m'.capacity)
  some (record m' { bytes = m'.bytes ++ fragment })

module _ (our_hash : List ℕ) where
  -- `HandleNextMessage`, on the hash, the tunnel and the bytes of the block. A message to another
  -- router is not sent on from an inbound tunnel.
  unfoldable pub delivery : Bool → List ℕ → ℕ → List ℕ → TunnelDeliveryType → List Effect
  delivery inbound hash tunnel_id bytes local = handle bytes ∷ []
  delivery inbound hash tunnel_id bytes tunnel = send_gateway hash tunnel_id bytes ∷ []
  delivery inbound hash tunnel_id bytes router =
      if same_bytes hash our_hash
      then handle bytes ∷ []
      else if inbound
      then []
      else send hash bytes ∷ []
  delivery inbound hash tunnel_id bytes unknown = []

  unfoldable pub handle_next_message : TunnelMessageBlockEx → TunnelEndpoint → TunnelEndpoint
  handle_next_message m ep = record ep {
    effects = ep.effects ++ delivery ep.is_inbound m.hash m.tunnel_id m.data'.bytes m.delivery_type;
  }

  pub add_out_of_sequence_fragment : ℕ → ℕ → Bool → I2npMessage → TunnelEndpoint → TunnelEndpoint
  add_out_of_sequence_fragment msg_id num last m ep =
      elim (lookup msg_id ep.out_of_sequence_fragments) [
        | none ↦ record ep {
          out_of_sequence_fragments =
              insert msg_id (record { fragment_num = num; is_last_fragment = last; data' = m })
                ep.out_of_sequence_fragments;
        }
        | some _ ↦ ep
      ]

  abbrev pub next_num : TunnelMessageBlockEx → ℕ
  next_num m = (m.next_fragment_num + 1) % 256

  -- The saved fragment is the one that the message waits for.
  pub use_saved : ℕ → TunnelMessageBlockEx → Fragment → TunnelEndpoint → Option TunnelEndpoint
  use_saved msg_id m f ep = do
    whole ← concatenate m.data' f.data'.bytes
    let m' = record m { data' = whole }
    let ep' = record ep { out_of_sequence_fragments = erase msg_id ep.out_of_sequence_fragments }
    some (
        if f.is_last_fragment
        then (record (handle_next_message m' ep') {
          incomplete_messages = erase msg_id ep.incomplete_messages;
        })
        else (record ep' {
          incomplete_messages =
              insert msg_id (record m' { next_fragment_num = next_num m }) ep.incomplete_messages;
        }))

  -- `msg` is the entry of `m_IncompleteMessages` under `msg_id`.
  unfoldable pub handle_out_of_sequence_fragment :
      ℕ → TunnelMessageBlockEx → TunnelEndpoint → Option TunnelEndpoint
  handle_out_of_sequence_fragment msg_id m ep = elim (lookup msg_id ep.out_of_sequence_fragments) [
    | none ↦ some ep
    | some f ↦ if f.fragment_num == m.next_fragment_num then use_saved msg_id m f ep else some ep
  ]

  -- The fragment that `msg` waits for, if the message does not become too long.
  pub attach_follow_on :
      ℕ → Bool → List ℕ → TunnelMessageBlockEx → TunnelEndpoint → Option TunnelEndpoint
  attach_follow_on msg_id last fragment m ep =
      if ltb (end_of m.data' + length fragment) i2np_max_message_size
      then concatenate m.data' fragment >>= (λ whole.
        let m' = record m { data' = whole } in
        let m'' = record m' { next_fragment_num = next_num m } in
        if last
        then some (record (handle_next_message m' ep) {
          incomplete_messages = erase msg_id ep.incomplete_messages;
        })
        else handle_out_of_sequence_fragment msg_id m''
            (record ep { incomplete_messages = insert msg_id m'' ep.incomplete_messages }))
      else some (record ep { incomplete_messages = erase msg_id ep.incomplete_messages })

  pub handle_follow_on_fragment :
      ℕ → Bool → TunnelMessageBlockEx → TunnelEndpoint → Option TunnelEndpoint
  handle_follow_on_fragment msg_id last m ep =
      let save = add_out_of_sequence_fragment msg_id m.next_fragment_num last m.data' ep in
      elim (lookup msg_id ep.incomplete_messages) [
        | none ↦ some save
        | some waiting ↦
            if m.next_fragment_num == waiting.next_fragment_num
            then attach_follow_on msg_id last m.data'.bytes waiting ep
            else some save
      ]

  -- A first fragment opens an incomplete message, unless there is one of that identifier.
  unfoldable pub handle_first_fragment :
      ℕ → TunnelMessageBlockEx → TunnelEndpoint → Option TunnelEndpoint
  handle_first_fragment msg_id m ep =
      let m' = record m { next_fragment_num = 1 } in
      elim (lookup msg_id ep.incomplete_messages) [
        | none ↦
            handle_out_of_sequence_fragment msg_id m'
              (record ep { incomplete_messages = insert msg_id m' ep.incomplete_messages })
        | some _ ↦ some ep
      ]
