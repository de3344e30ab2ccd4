-- ===== src/Socks.antt =====
-- `SOCKSHandler` of api/I2PTunnel/SOCKS.cpp: the parser of SOCKS 4, 4a and 5 requests.
pub mod Parse
mod Examples
use kovri.Common.{
  ℕ, zero, suc, ◌+◌, ◌*◌, ◌%◌, ◌^◌, List, [], ◌∷◌, ◌++◌, Option, none, some, Bool, true, false,
  if◌then◌else◌, ◌&&◌, ◌||◌, not, ltb, leb, ◌==◌, length, take, htobe16buf, htobe32buf,
}

abbrev pub max_socks_hostname_size : ℕ
max_socks_hostname_size = 255

pub data SocksState : Type 0 where
  get_socksv get_command get_port get_ipv4 get4_ident get4a_host : SocksState
  get5_authnum get5_auth get5_requestv get5_getrsv get5_getaddrtype : SocksState
  get5_ipv6 get5_host_size get5_host done : SocksState

-- The union with its type: the member that was chosen last.
pub data Address : Type 0 where
  ipv4 : ℕ → Address
  dns : List ℕ → Address
  ipv6 : List ℕ → Address

-- `respond_failed`, `respond_auth` and `respond_done` write to the socket, each with its own handler;
-- `create_stream` asks for a stream to a host and a port; `connect` hands the socket on, with the bytes
-- that were received behind the request.
pub data SocksAction : Type 0 where
  respond_failed respond_auth respond_done : List ℕ → SocksAction
  create_stream : List ℕ → ℕ → SocksAction
  connect : List ℕ → SocksAction
  async_read close_socket : SocksAction

pub record SocksHandler : Type 0 where
  pub state : SocksState
  pub parseleft : ℕ
  pub socksv : ℕ
  pub cmd : ℕ
  pub port : ℕ
  pub address : Address
  pub four_aip : ℕ
  pub auth_chosen : ℕ
  pub remaining_data : List ℕ
  pub is_dead : Bool
  pub actions : List SocksAction

-- What `HandleData` comes to: a write past an array, `false` or `true`.
pub data Outcome : Type 0 where
  fault : Outcome
  rejected accepted : SocksHandler → Outcome

-- The constructor; it leaves version, command, port and the address of SOCKS 4 as the memory has them.
abbrev pub new_handler : ℕ → ℕ → ℕ → ℕ → SocksHandler
new_handler version command port ip = record {
  state = get_socksv;
  parseleft = 1;
  socksv = version;
  cmd = command;
  port = port;
  address = ipv4 0;
  four_aip = ip;
  auth_chosen = 255;
  remaining_data = [];
  is_dead = false;
  actions = [];
}

abbrev pub note : SocksAction → SocksHandler → SocksHandler
note a h = record h { actions = h.actions ++ (a ∷ []) }

unfoldable pub terminate_handler : SocksHandler → SocksHandler
terminate_handler h = if h.is_dead then h else note close_socket (record h { is_dead = true })

abbrev pub socks4_response : ℕ → ℕ → ℕ → List ℕ
socks4_response error ip port = 0 ∷ error ∷ (htobe16buf port ++ htobe32buf ip)

abbrev pub socks5_response : ℕ → Address → ℕ → List ℕ
socks5_response error (ipv4 ip) port = 5 ∷ error ∷ 0 ∷ 1 ∷ (htobe32buf ip ++ htobe16buf port)
socks5_response error (dns name) port =
    5 ∷ error ∷ 0 ∷ 3 ∷ (length name % 256) ∷ (name ++ htobe16buf port)
socks5_response error (ipv6 bytes) port = 5 ∷ error ∷ 0 ∷ 4 ∷ (bytes ++ htobe16buf port)

-- Errors of SOCKS 5, below 90, are 91 in SOCKS 4.
unfoldable pub socks_request_failed : ℕ → SocksHandler → SocksHandler
socks_request_failed error h =
    if h.socksv == 4
    then note
        (respond_failed (socks4_response (if ltb error 90 then 91 else error) h.four_aip h.port)) h
    else note (respond_failed (socks5_response error h.address h.port)) h

-- The name of the local destination is given by the address book; the port has 16 bits.
unfoldable pub socks_request_success : List ℕ → ℕ → SocksHandler → SocksHandler
socks_request_success name recv_stream_id h =
    if h.socksv == 4
    then note (respond_done (socks4_response 90 h.four_aip h.port)) h
    else note
        (respond_done
          (socks5_response 0 (dns (take max_socks_hostname_size name)) (recv_stream_id % 2 ^ 16)))
        h

abbrev address_ip : Address → ℕ → ℕ
address_ip (ipv4 ip) other = ip
address_ip (dns name) other = other
address_ip (ipv6 bytes) other = other

-- `EnterState` with its second argument.
unfoldable pub enter_state : SocksState → ℕ → SocksHandler → SocksHandler
enter_state get_port n h = record h { state = get_port; parseleft = 2 }
enter_state get_ipv4 n h = record h { state = get_ipv4; parseleft = 4; address = ipv4 0 }
enter_state get4_ident n h = record h {
  state = get4_ident;
  parseleft = n;
  four_aip = address_ip h.address h.four_aip;
}
enter_state get4a_host n h = record h { state = get4a_host; parseleft = n; address = dns [] }
enter_state get5_host n h = record h { state = get5_host; parseleft = n; address = dns [] }
enter_state get5_ipv6 n h = record h { state = get5_ipv6; parseleft = 16; address = ipv6 [] }
enter_state other n h = record h { state = other; parseleft = n }

-- One octet fewer is left, in eight bits.
abbrev pub decremented : SocksHandler → SocksHandler
decremented h = record h { parseleft = (h.parseleft + 255) % 256 }

unfoldable pub is_prefix : List ℕ → List ℕ → Bool
is_prefix [] ys = true
is_prefix (x ∷ xs) [] = false
is_prefix (x ∷ xs) (y ∷ ys) = (x == y) && is_prefix xs ys

unfoldable pub contains_text : List ℕ → List ℕ → Bool
unfolding is_prefix
contains_text text [] = is_prefix text []
contains_text text (x ∷ xs) = is_prefix text (x ∷ xs) || contains_text text xs

-- A name with ".i2p" in it.
unfoldable pub is_i2p_name : Address → Bool
unfolding contains_text
is_i2p_name (dns name) = contains_text (46 ∷ 105 ∷ 50 ∷ 112 ∷ []) name
is_i2p_name (ipv4 ip) = false
is_i2p_name (ipv6 bytes) = false

unfoldable pub validate_socks_request : SocksHandler → Outcome
unfolding socks_request_failed is_i2p_name
validate_socks_request h =
    if not (h.cmd == 1)
    then rejected (socks_request_failed 7 h)
    else if not (is_i2p_name h.address)
    then rejected (socks_request_failed 8 h)
    else accepted h

unfoldable pub socks5_choose_auth : SocksHandler → Outcome
socks5_choose_auth h =
    if h.auth_chosen == 255
    then rejected (note (respond_failed (5 ∷ h.auth_chosen ∷ [])) h)
    else accepted (note (respond_auth (5 ∷ h.auth_chosen ∷ [])) h)
