-- ===== src/Socks/Parse.antt =====
-- `HandleData` of api/I2PTunnel/SOCKS.cpp, a byte at a time, and what is done with a request.
pub mod Rounds
pub mod Requests
use kovri.Common.{
  ℕ, zero, suc, ◌+◌, ◌*◌, ◌%◌, ◌^◌, List, [], ◌∷◌, ◌++◌, Option, none, some, Bool, true, false,
  if◌then◌else◌, ◌&&◌, ◌||◌, not, ltb, leb, ◌==◌, length,
}
use kovri.Socks.{
  SocksState, get_socksv, get_command, get_port, get_ipv4, get4_ident, get4a_host, get5_authnum,
  get5_auth, get5_requestv, get5_getrsv, get5_getaddrtype, get5_ipv6, get5_host_size, get5_host,
  done, Address, ipv4, dns, ipv6, SocksHandler, Outcome, fault, rejected, accepted, SocksAction,
  create_stream, connect, async_read, close_socket, note, terminate_handler, socks_request_failed,
  socks_request_success, enter_state, decremented, validate_socks_request, socks5_choose_auth,
  max_socks_hostname_size,
}

-- `push_back` writes behind the name; there is room for `MAX_SOCKS_HOSTNAME_SIZE` characters.
unfoldable pub push_back : ℕ → SocksHandler → Address → Outcome
push_back b h (dns name) =
    if leb max_socks_hostname_size (length name)
    then fault
    else accepted (record h { address = dns (name ++ (b ∷ [])) })
push_back b h (ipv4 ip) = accepted h
push_back b h (ipv6 bytes) = accepted h

abbrev name_length : Address → ℕ
name_length (dns name) = length name
name_length (ipv4 ip) = 0
name_length (ipv6 bytes) = 0

abbrev add_ip : ℕ → Address → Address
add_ip b (ipv4 ip) = ipv4 ((ip * 256 + b) % 2 ^ 32)
add_ip b (dns name) = dns name
add_ip b (ipv6 bytes) = ipv6 bytes

abbrev add_ipv6 : ℕ → Address → Address
add_ipv6 b (ipv6 bytes) = ipv6 (bytes ++ (b ∷ []))
add_ipv6 b (ipv4 ip) = ipv4 ip
add_ipv6 b (dns name) = dns name

abbrev then_enter : SocksState → Outcome → Outcome
then_enter s fault = fault
then_enter s (rejected h) = rejected h
then_enter s (accepted h) = accepted (enter_state s 1 h)

-- Whether that was the last octet, after which the next state is entered.
abbrev if_last : SocksState → SocksHandler → SocksHandler
if_last s h = if h.parseleft == 0 then enter_state s 1 h else h

-- The last octet of a name in SOCKS 5.
abbrev after_host : Outcome → Outcome
after_host fault = fault
after_host (rejected h) = rejected h
after_host (accepted h) = accepted (if_last get_port (decremented h))

-- One round of the loop, by the state.
unfoldable pub handle_byte : ℕ → SocksHandler → SocksState → Outcome
unfolding enter_state socks5_choose_auth push_back socks_request_failed terminate_handler
handle_byte b h get_socksv =
    let h' = record h { socksv = b } in
    if b == 4
    then accepted (enter_state get_command 1 h')
    else if b == 5
    then accepted (enter_state get5_authnum 1 h')
    else rejected (terminate_handler h')
handle_byte b h get5_authnum = accepted (enter_state get5_auth b h)
handle_byte b h get5_auth =
    let h' = decremented (if b == 0 then record h { auth_chosen = 0 } else h) in
    if h'.parseleft == 0 then then_enter get5_requestv (socks5_choose_auth h') else accepted h'
handle_byte b h get_command =
    let h' = record h { cmd = b } in
    if (b == 1) || (b == 2) || ((b == 3) && (h.socksv == 5))
    then accepted (enter_state (if h.socksv == 5 then get5_getrsv else get_port) 1 h')
    else rejected (socks_request_failed 1 h)
handle_byte b h get_port =
    let h' = decremented (record h { port = (h.port * 256 + b) % 2 ^ 16 }) in
    accepted (if_last (if h.socksv == 5 then done else get_ipv4) h')
handle_byte b h get_ipv4 =
    let h' = decremented (record h { address = add_ip b h.address }) in
    accepted (if_last (if h.socksv == 5 then get_port else get4_ident) h')
handle_byte b h get4_ident =
    if b == 0
    then accepted
        (enter_state (if (h.four_aip == 0) || ltb 255 h.four_aip then done else get4a_host) 1 h)
    else accepted h
handle_byte b h get4a_host =
    if b == 0
    then accepted (enter_state done 1 h)
    else if leb max_socks_hostname_size (name_length h.address)
    then rejected (socks_request_failed 91 h)
    else push_back b h h.address
handle_byte b h get5_requestv =
    if b == 5 then accepted (enter_state get_command 1 h) else rejected (socks_request_failed 1 h)
handle_byte b h get5_getrsv =
    if b == 0
    then accepted (enter_state get5_getaddrtype 1 h)
    else rejected (socks_request_failed 1 h)
handle_byte b h get5_getaddrtype =
    if b == 1
    then accepted (enter_state get_ipv4 1 h)
    else if b == 4
    then accepted (enter_state get5_ipv6 1 h)
    else if b == 3
    then accepted (enter_state get5_host_size 1 h)
    else rejected (socks_request_failed 1 h)
handle_byte b h get5_ipv6 =
    accepted (if_last get_port (decremented (record h { address = add_ipv6 b h.address })))
handle_byte b h get5_host_size = accepted (enter_state get5_host b h)
handle_byte b h get5_host = after_host (push_back b h h.address)
handle_byte b h done = rejected (terminate_handler h)

abbrev pub is_done : SocksState → Bool
is_done done = true
is_done _ = false

-- The loop. What is behind the request is kept.
unfoldable pub handle_data : List ℕ → SocksHandler → Outcome
unfolding handle_byte validate_socks_request
handle_data [] h = accepted h
handle_data (b ∷ bs) h = elim (handle_byte b h h.state) [
  | fault ↦ fault
  | rejected h' ↦ rejected h'
  | accepted h' ↦
      if is_done h'.state
      then validate_socks_request (record h' { remaining_data = bs })
      else handle_data bs h'
]

abbrev name_of : Address → List ℕ
name_of (dns name) = name
name_of (ipv4 ip) = []
name_of (ipv6 bytes) = []

-- What follows `HandleData`.
abbrev after_data : Outcome → Outcome
after_data fault = fault
after_data (rejected h) = rejected h
after_data (accepted h) =
    if is_done h.state
    then accepted (note (create_stream (name_of h.address) h.port) h)
    else accepted (note async_read h)

-- `HandleSockRecv`, with whether there was an error.
unfoldable pub handle_sock_recv : Bool → List ℕ → SocksHandler → Outcome
unfolding handle_data terminate_handler
handle_sock_recv failed bytes h =
    if failed then accepted (terminate_handler h) else after_data (handle_data bytes h)

-- The stream is given by its identifier, and the local name.
unfoldable pub handle_stream_request_complete : List ℕ → Option ℕ → SocksHandler → SocksHandler
unfolding socks_request_success socks_request_failed
handle_stream_request_complete name (some id) h = socks_request_success name id h
handle_stream_request_complete name none h = socks_request_failed 4 h

unfoldable pub sent_socks_failed : SocksHandler → SocksHandler
unfolding terminate_handler
sent_socks_failed h = terminate_handler h

unfoldable pub sent_socks_response : Bool → SocksHandler → SocksHandler
unfolding terminate_handler
sent_socks_response failed h = if failed then terminate_handler h else h

unfoldable pub sent_socks_done : Bool → SocksHandler → SocksHandler
unfolding terminate_handler
sent_socks_done failed h =
    if failed
    then terminate_handler h
    else if h.is_dead
    then h
    else note (connect h.remaining_data) (record h { is_dead = true })
