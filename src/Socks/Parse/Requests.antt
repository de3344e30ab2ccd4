-- ===== src/Socks/Parse/Requests.antt =====
-- Whole requests of SOCKS 5, as `HandleData` of api/I2PTunnel/SOCKS.cpp reads them.
use kovri.Common.{
  if_true, if_false, ℕ, suc, ◌+◌, ◌-◌, ◌*◌, ◌%◌, ◌^◌, ◌≤◌, ◌<◌, ◌≡◌, refl, ap, sym, ◌∙◌, List, [],
  ◌∷◌, ◌++◌, true, false, arith, not, leb, ◌==◌, length, length-append, append_assoc, append-nil,
}
use kovri.Socks.{
  get_port, get5_host, get5_host_size, done, dns, SocksHandler, fault, accepted, respond_auth,
  new_handler, enter_state, is_i2p_name, validate_socks_request, socks5_choose_auth,
}
use kovri.Socks.Parse.{handle_byte, handle_data, push_back, is_done, after_host}
use kovri.Socks.Parse.Rounds.{after, handle_data-after}

-- A round that is accepted and does not end the request.
goes_on :
    (b : ℕ) (bs : List ℕ) (h h' : SocksHandler)
    → handle_byte b h h.state ≡ accepted h'
    → is_done h'.state ≡ false
    → handle_data (b ∷ bs) h ≡ handle_data bs h'
goes_on b bs h h' e open_still =
    handle_data-after b bs h ∙ ap (after bs) e ∙ if_false _ _ open_still

-- While a name is read, with `p` octets left.
abbrev reading_host : SocksHandler → ℕ → List ℕ → SocksHandler
reading_host h p name = record h { state = get5_host; parseleft = p; address = dns name }

abbrev name_read : SocksHandler → List ℕ → SocksHandler
name_read h name = record h { state = get_port; parseleft = 2; address = dns name }

pushed :
    (b p : ℕ) (name : List ℕ) (h : SocksHandler)
    → length name < 255
    → push_back b (reading_host h p name) (dns name)
      ≡ accepted (reading_host h p (name ++ (b ∷ [])))
unfolding push_back
pushed b p name h fits =
    let room : leb 255 (length name) ≡ false = ground (arith, fits) in if_false _ _ room

host_byte :
    (b p : ℕ) (name : List ℕ) (h : SocksHandler)
    → 1 < p
    → p < 256
    → length name < 255
    → handle_byte b (reading_host h p name) get5_host
      ≡ accepted (reading_host h (p - 1) (name ++ (b ∷ [])))
unfolding handle_byte
host_byte b p name h more small fits =
    let left : (p + 255) % 256 ≡ p - 1 = omega (arith, more, small) in
    let not_last : ((p + 255) % 256 == 0) ≡ false = ground (arith, left, more) in
    ap after_host (pushed b p name h fits)
    ∙ ap accepted (if_false _ _ not_last)
    ∙ ap (λ (n : ℕ). accepted (reading_host h n (name ++ (b ∷ [])))) left

last_host_byte :
    (b : ℕ) (name : List ℕ) (h : SocksHandler)
    → length name < 255
    → handle_byte b (reading_host h 1 name) get5_host ≡ accepted (name_read h (name ++ (b ∷ [])))
unfolding handle_byte enter_state
last_host_byte b name h fits = ap after_host (pushed b 1 name h fits)

-- All octets but the last.
host_bytes :
    (xs rest name : List ℕ) (p : ℕ) (h : SocksHandler)
    → length xs < p
    → p < 256
    → length name + length xs ≤ 255
    → handle_data (xs ++ rest) (reading_host h p name)
      ≡ handle_data rest (reading_host h (p - length xs) (name ++ xs))
host_bytes [] rest name p h more small fits =
    let none : p ≡ p - 0 = omega arith in
    λ j. handle_data rest (reading_host h (none j) (sym (append-nil name) j))
host_bytes (x ∷ xs) rest name p h more small fits =
    let one = length-append name (x ∷ []) in
    let left : p - 1 - length xs ≡ p - suc (length xs) = omega arith in
    goes_on x (xs ++ rest) (reading_host h p name) (reading_host h (p - 1) (name ++ (x ∷ [])))
      (host_byte x p name h (omega (arith, more)) small (omega (arith, fits))) refl
    ∙ host_bytes xs rest (name ++ (x ∷ [])) (p - 1) h (omega (arith, more)) (omega (arith, small))
        (omega (arith, fits, one))
    ∙ (λ j. handle_data rest (reading_host h (left j) (append_assoc name (x ∷ []) xs j)))

-- A name of `suc (length xs)` octets.
host_name :
    (xs rest : List ℕ) (x : ℕ) (h : SocksHandler)
    → length xs < 255
    → handle_data (xs ++ (x ∷ rest)) (reading_host h (suc (length xs)) [])
      ≡ handle_data rest (name_read h (xs ++ (x ∷ [])))
host_name xs rest x h fits =
    let one : suc (length xs) - length xs ≡ 1 = omega arith in
    host_bytes xs (x ∷ rest) [] (suc (length xs)) h (omega arith) (omega (arith, fits))
      (omega (arith, fits))
    ∙ ap (λ (p : ℕ). handle_data (x ∷ rest) (reading_host h p xs)) one
    ∙ goes_on x rest (reading_host h 1 xs) (name_read h (xs ++ (x ∷ [])))
        (last_host_byte x xs h fits) refl

size_byte :
    (h : SocksHandler)
    → h.state ≡ get5_host_size
    → handle_byte 0 h h.state ≡ accepted (reading_host h 0 [])
unfolding handle_byte enter_state
size_byte h e = ap (handle_byte 0 h) e

first_byte :
    (x : ℕ) (h : SocksHandler)
    → handle_byte x (reading_host h 0 []) get5_host ≡ accepted (reading_host h 255 (x ∷ []))
unfolding handle_byte push_back
first_byte x h = refl

past_end :
    (b p : ℕ) (name : List ℕ) (h : SocksHandler)
    → leb 255 (length name) ≡ true
    → handle_byte b (reading_host h p name) get5_host ≡ fault
unfolding handle_byte push_back
past_end b p name h full = ap after_host (if_true _ _ full)

-- A request of SOCKS 5 gives a name of no octets. Then 255 octets of a name are read, and the next one
-- is written past the array of 255.
pub empty_name_overflow :
    (x b : ℕ) (xs rest : List ℕ) (h : SocksHandler)
    → h.state ≡ get5_host_size
    → length xs ≡ 254
    → handle_data (0 ∷ x ∷ (xs ++ (b ∷ rest))) h ≡ fault
empty_name_overflow x b xs rest h at' many =
    let start : SocksHandler = reading_host h 0 [] in
    let second : SocksHandler = reading_host h 255 (x ∷ []) in
    let one : 255 - length xs ≡ 1 = omega (arith, many) in
    let full : leb 255 (length (x ∷ xs)) ≡ true = ground (arith, many) in
    goes_on 0 (x ∷ (xs ++ (b ∷ rest))) h start (size_byte h at') refl
    ∙ goes_on x (xs ++ (b ∷ rest)) start second (first_byte x h) refl
    ∙ host_bytes xs (b ∷ rest) (x ∷ []) 255 h (omega (arith, many)) (omega arith)
        (omega (arith, many))
    ∙ handle_data-after b rest (reading_host h (255 - length xs) (x ∷ xs))
    ∙ ap (after rest) (past_end b (255 - length xs) (x ∷ xs) h full)

-- A connected handler of SOCKS 5, before the name.
abbrev pub greeted : SocksHandler → SocksHandler
greeted h = record h {
  socksv = 5;
  cmd = 1;
  auth_chosen = 0;
  actions = h.actions ++ (respond_auth (5 ∷ 0 ∷ []) ∷ []);
}

greeting :
    (n : ℕ) (bytes : List ℕ) (v c p ip : ℕ)
    → let h = new_handler v c p ip in
      handle_data (5 ∷ 1 ∷ 0 ∷ 5 ∷ 1 ∷ 0 ∷ 3 ∷ n ∷ bytes) h
      ≡ handle_data bytes (reading_host (greeted h) n [])
unfolding handle_data handle_byte enter_state socks5_choose_auth
greeting n bytes v c p ip = refl

abbrev pub requested : SocksHandler → List ℕ → ℕ → List ℕ → SocksHandler
requested h name port rest = record h {
  state = done;
  parseleft = 1;
  address = dns name;
  port = port;
  remaining_data = rest;
}

port_bytes :
    (hi lo : ℕ) (rest name : List ℕ) (h : SocksHandler)
    → handle_data (hi ∷ lo ∷ rest) (name_read (greeted h) name)
      ≡ validate_socks_request
          (requested (greeted h) name (((h.port * 256 + hi) % 2 ^ 16 * 256 + lo) % 2 ^ 16) rest)
unfolding handle_data handle_byte enter_state
port_bytes hi lo rest name h = refl

validated_name :
    (port : ℕ) (rest name : List ℕ) (h : SocksHandler)
    → is_i2p_name (dns name) ≡ true
    → validate_socks_request (requested (greeted h) name port rest)
      ≡ accepted (requested (greeted h) name port rest)
unfolding validate_socks_request
validated_name port rest name h e = if_false _ _ (ap not e)

-- A new handler gets a request of SOCKS 5 to connect, which offers no authentication as the only
-- method, to a name of 1 to 255 octets with ".i2p" in it, and a port. The parser accepts it, answers
-- the method, and has the name and the port, and the bytes behind the request.
pub handle_data-request :
    (xs rest : List ℕ) (x hi lo v c p ip : ℕ)
    → length xs < 255
    → hi < 256
    → lo < 256
    → is_i2p_name (dns (xs ++ (x ∷ []))) ≡ true
    → let h = new_handler v c p ip in
      handle_data (5 ∷ 1 ∷ 0 ∷ 5 ∷ 1 ∷ 0 ∷ 3 ∷ suc (length xs) ∷ (xs ++ (x ∷ hi ∷ lo ∷ rest))) h
      ≡ accepted (requested (greeted h) (xs ++ (x ∷ [])) (hi * 256 + lo) rest)
handle_data-request xs rest x hi lo v c p ip fits high low name =
    let h = new_handler v c p ip in
    let port : ((p * 256 + hi) % 2 ^ 16 * 256 + lo) % 2 ^ 16 ≡ hi * 256 + lo =
      omega (arith, high, low) in
    greeting (suc (length xs)) (xs ++ (x ∷ hi ∷ lo ∷ rest)) v c p ip
    ∙ host_name xs (hi ∷ lo ∷ rest) x (greeted h) fits
    ∙ port_bytes hi lo rest (xs ++ (x ∷ [])) h
    ∙ validated_name (((p * 256 + hi) % 2 ^ 16 * 256 + lo) % 2 ^ 16) rest (xs ++ (x ∷ [])) h name
    ∙ ap (λ (n : ℕ). accepted (requested (greeted h) (xs ++ (x ∷ [])) n rest)) port
