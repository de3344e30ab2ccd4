-- ===== src/Ssu/Session.antt =====
-- The life of a session in core/transport/SSUData.cpp: construction, packet size, start and stop.
use kovri.Common.{
  ℕ, ◌*◌, ◌/◌, ◌-◌, [], ◌∷◌, ◌++◌, Option, none, some, Bool, ltb, ◌==◌, if◌then◌else◌,
}
use kovri.Ssu.State.{
  SsuData, schedule_cleanup, cancel_resend, cancel_decay, cancel_cleanup, flush,
  ssu_v4_max_packet_size, ssu_v6_max_packet_size,
}

abbrev pub initial_packet_size : Bool → ℕ
initial_packet_size v6 = if v6 then ssu_v6_max_packet_size else ssu_v4_max_packet_size

-- The packet size for an MTU of the remote router: less the headers of IP and UDP, a multiple of 16,
-- at most the maximum. The difference is a signed number.
unfoldable pub adjust_packet_size : Option ℕ → SsuData → SsuData
adjust_packet_size none s = s
adjust_packet_size (some mtu) s =
    let headers = if s.is_v6 then 48 else 28 in
    let size = (mtu - headers) / 16 * 16 in
    if mtu == 0
    then s
    else if ltb headers mtu
    then (record s { packet_size = if ltb s.max_packet_size size then s.max_packet_size else size })
    else (record s { packet_size = s.max_packet_size })

-- A session to a remote router, given by the MTU of its SSU address.
unfoldable pub init : Bool → Bool → Option ℕ → SsuData
unfolding adjust_packet_size
init v6 established mtu = adjust_packet_size mtu (record {
  incomplete_messages = [];
  sent_messages = [];
  received_messages = [];
  max_packet_size = initial_packet_size v6;
  packet_size = initial_packet_size v6;
  is_established = established;
  is_v6 = v6;
  actions = [];
})

abbrev pub start : SsuData → SsuData
start s = record s { actions = s.actions ++ (schedule_cleanup ∷ []) }

abbrev pub stop : SsuData → SsuData
stop s = record s { actions = s.actions ++ (cancel_resend ∷ cancel_decay ∷ cancel_cleanup ∷ []) }

abbrev pub flush_received_message : SsuData → SsuData
flush_received_message s = record s { actions = s.actions ++ (flush ∷ []) }
