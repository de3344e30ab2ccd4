-- ===== src/Socks/Examples.antt =====
-- Requests to api/I2PTunnel/SOCKS.cpp, as test data, and the theorems on them.
use kovri.Common.{ℕ, zero, suc, ◌≡◌, refl, List, [], ◌∷◌, ◌++◌, arith}
use kovri.Socks.{
  SocksHandler, fault, accepted, new_handler, get5_host_size, contains_text, is_prefix, is_i2p_name,
}
use kovri.Socks.Parse.{handle_data}
use kovri.Socks.Parse.Requests.{requested, greeted, handle_data-request, empty_name_overflow}

abbrev connecting : SocksHandler
connecting = new_handler 0 0 0 0

-- The name a.i2p but for its last letter.
abbrev name_begin : List ℕ
name_begin = 97 ∷ 46 ∷ 105 ∷ 50 ∷ []

handle_data-request_example :
    handle_data
      (5 ∷ 1 ∷ 0 ∷ 5 ∷ 1 ∷ 0 ∷ 3 ∷ 5 ∷ (name_begin ++ (112 ∷ 0 ∷ 80 ∷ 71 ∷ [])))
      connecting
    ≡ accepted (requested (greeted connecting) (name_begin ++ (112 ∷ [])) 80 (71 ∷ []))
unfolding is_i2p_name contains_text is_prefix
handle_data-request_example =
    handle_data-request name_begin (71 ∷ []) 112 0 80 0 0 0 0 (omega arith) (omega arith)
      (omega arith) refl

abbrev letters : ℕ → List ℕ
letters zero = []
letters (suc n) = 97 ∷ letters n

abbrev sized : SocksHandler
sized = record connecting { state = get5_host_size }

empty_name_overflow_example : handle_data (0 ∷ 98 ∷ (letters 254 ++ (99 ∷ []))) sized ≡ fault
empty_name_overflow_example = empty_name_overflow 98 99 (letters 254) [] sized refl refl
