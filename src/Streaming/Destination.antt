-- ===== src/Streaming/Destination.antt =====
-- `StreamingDestination` of api/Streaming.cpp: the streams by their identifiers.
use kovri.Common.{
  ℕ, List, [], ◌∷◌, ◌++◌, Option, none, some, Bool, true, false, if◌then◌else◌, ◌&&◌, not, ltb,
  ◌==◌, Dict, lookup, insert, erase, length,
}
use kovri.Streaming.Packet.{
  Packet, packet_of, get_seqn, get_send_stream_id, get_receive_stream_id, is_syn, max_packet_size,
}
use kovri.Streaming.State.{Stream, Identities, Action, delete_stream, init}
use kovri.Streaming.Receive.{handle_next_packet}

-- `accepted` are the streams that the acceptor was given.
pub record StreamingDestination : Type 0 where
  pub streams : Dict Stream
  pub has_acceptor : Bool
  pub accepted : List ℕ

unfoldable pub is_deleted : List Action → Bool
is_deleted [] = false
is_deleted (delete_stream ∷ acts) = true
is_deleted (_ ∷ acts) = is_deleted acts

-- The stream after an operation of its own, unless that deleted it.
unfoldable pub settle : ℕ → Stream → StreamingDestination → StreamingDestination
unfolding is_deleted
settle id s d = record d {
  streams = if is_deleted s.actions then erase id d.streams else insert id s d.streams;
}

-- The first stream of that remote identifier.
unfoldable pub find_remote : ℕ → Dict Stream → Option (ℕ × Stream)
find_remote remote [] = none
find_remote remote ((id, s) ∷ streams) =
    if s.send_stream_id == remote then some (id, s) else find_remote remote streams

abbrev pub create_stream : ℕ → List ℕ → StreamingDestination → StreamingDestination
create_stream id remote d = record d { streams = insert id (init id remote) d.streams }

abbrev pub delete_stream_of : ℕ → StreamingDestination → StreamingDestination
delete_stream_of id d = record d { streams = erase id d.streams }

abbrev pub stop : StreamingDestination → StreamingDestination
stop d = record d { streams = []; has_acceptor = false }

module _ (ids : Identities) where
  abbrev pub pass_on : ℕ → Packet → StreamingDestination → ℕ × Stream → StreamingDestination
  pass_on ts p d (id, s) = settle id (handle_next_packet ids ts p s) d

  -- A new incoming stream with the random identifier `id`. Without an acceptor it is deleted.
  unfoldable pub handle_incoming : ℕ → ℕ → Packet → StreamingDestination → StreamingDestination
  unfolding settle
  handle_incoming ts id p d =
      let d' = settle id (handle_next_packet ids ts p (init id [])) (create_stream id [] d) in
      if d.has_acceptor
      then (record d' { accepted = d'.accepted ++ (id ∷ []) })
      else delete_stream_of id d'

  unfoldable pub dispatch : ℕ → ℕ → Packet → StreamingDestination → StreamingDestination
  unfolding settle find_remote handle_incoming
  dispatch ts id p d =
      let known = elim (lookup (get_send_stream_id p) d.streams) as (λ _. StreamingDestination) [
        | none ↦ d
        | some s ↦ pass_on ts p d (get_send_stream_id p, s)
      ] in
      let follow_on =
        elim (find_remote (get_receive_stream_id p) d.streams) as (λ _. StreamingDestination) [
          | none ↦ d
          | some found ↦ pass_on ts p d found
        ] in
      if not (get_send_stream_id p == 0)
      then known
      else if is_syn p && (get_seqn p == 0)
      then handle_incoming ts id p d
      else follow_on

  -- The payload is given by what the decompression of Crypto++ makes of it.
  unfoldable pub handle_data_message_payload :
      (List ℕ → List ℕ) → ℕ → ℕ → List ℕ → StreamingDestination → StreamingDestination
  unfolding dispatch
  handle_data_message_payload gunzip ts id buf d =
      if ltb max_packet_size (length (gunzip buf))
      then d
      else dispatch ts id (packet_of (gunzip buf)) d
