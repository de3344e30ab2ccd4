-- ===== src/Tunnel/Endpoint/Faults.antt =====
-- Inputs on which core/tunnel/TunnelEndpoint.cpp leaves its buffers.
use kovri.Common.{ℕ, suc, ◌<◌, ◌≡◌, List, some, none, true, length, arith, ltb, read_bytes-short}
use kovri.Tunnel.Endpoint.{TunnelEndpoint}
use kovri.Tunnel.Endpoint.Header.{Header, read_header}
use kovri.Tunnel.Endpoint.Receive.{handle_fragments}

module _ (our_hash : List ℕ) where
  -- If the size in the header of a fragment is more than what the buffer holds behind the header,
  -- the endpoint reads past the end of the buffer.
  pub fragment_size_overread :
      (fuel slack max_len capacity : ℕ) (bs rest : List ℕ) (h : Header) (ep : TunnelEndpoint)
      → slack < length bs
      → read_header bs ≡ some (h, rest)
      → length rest < h.size
      → handle_fragments our_hash (suc fuel) slack max_len capacity bs ep ≡ none
  unfolding handle_fragments
  fragment_size_overread fuel slack max_len capacity bs rest h ep l e s =
      let more : ltb slack (length bs) ≡ true = ground arith in
      rw (more, e, read_bytes-short h.size rest s)
