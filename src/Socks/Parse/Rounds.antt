-- ===== src/Socks/Parse/Rounds.antt =====
-- A round over the bytes of a request, in `HandleData` of api/I2PTunnel/SOCKS.cpp.
use kovri.Common.{ℕ, ◌≡◌, refl, List, ◌∷◌, if◌then◌else◌}
use kovri.Socks.{SocksHandler, Outcome, fault, rejected, accepted, validate_socks_request}
use kovri.Socks.Parse.{handle_byte, handle_data, is_done}

-- What a round comes to, with the rounds behind it.
abbrev pub after : List ℕ → Outcome → Outcome
after bs fault = fault
after bs (rejected h) = rejected h
after bs (accepted h) =
    if is_done h.state
    then validate_socks_request (record h { remaining_data = bs })
    else handle_data bs h

pub handle_data-after :
    (b : ℕ) (bs : List ℕ) (h : SocksHandler)
    → handle_data (b ∷ bs) h ≡ after bs (handle_byte b h h.state)
unfolding handle_data
handle_data-after b bs h = refl
