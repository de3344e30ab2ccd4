-- ===== src/Ssu/RoundTrip/Fragments.antt =====
-- One data packet of `Send` in core/transport/SSUData.cpp, as `ProcessMessage` reads it.
use kovri.Common.{
  ℕ, ◌+◌, ◌*◌, ◌/◌, ◌%◌, ◌^◌, ◌<◌, ◌≡◌, refl, List, [], ◌∷◌, ◌++◌, some, Bool, true, false, arith,
  length, bufbe8toh, bufbe32toh-htobe32buf, read_bytes, ◌>>=◌, leb,
}
use kovri.Ssu.State.{SsuData}
use kovri.Ssu.Send.{data_payload, fragment_info}
use kovri.Ssu.Receive.{
  read_info, skip_extended_data, process_fragment, process_fragments, process_message,
}

read_info-fragment_info :
    (num size : ℕ) (last : Bool) (r : List ℕ)
    → num < 128
    → size < 2 ^ 13
    → read_info (fragment_info num last size ++ r) ≡ some ((num, last, size), r)
unfolding read_info fragment_info
read_info-fragment_info num size true r n h =
    let info = num * 2 ^ 17 + 2 ^ 16 + size in
    let whole : info / 2 ^ 16 % 256 * 2 ^ 16 + info / 2 ^ 8 % 256 * 2 ^ 8 + info % 256 ≡ info =
      omega arith in
    rw (whole) (ground arith)
read_info-fragment_info num size false r n h =
    let info = num * 2 ^ 17 + 0 + size in
    let whole : info / 2 ^ 16 % 256 * 2 ^ 16 + info / 2 ^ 8 % 256 * 2 ^ 8 + info % 256 ≡ info =
      omega arith in
    rw (whole) (ground arith)

read_all : (bytes : List ℕ) → read_bytes (length bytes) bytes ≡ some (bytes, [])
unfolding read_bytes
read_all [] = refl
read_all (b ∷ bs) = rw (read_all bs)

pub process_message-data_payload :
    (now msg_id num : ℕ) (last : Bool) (bytes : List ℕ) (s : SsuData)
    → msg_id < 2 ^ 32
    → num < 128
    → length bytes < 1456
    → process_message now s (data_payload msg_id num last bytes)
      ≡ (process_fragment now msg_id num last bytes s >>= (λ s'. some s'))
unfolding process_message data_payload skip_extended_data process_fragments bufbe8toh
process_message-data_payload now msg_id num last bytes s i n h =
    let small : leb 1456 (length bytes) ≡ false = ground (arith, h) in
    rw (
      bufbe32toh-htobe32buf msg_id (fragment_info num last (length bytes) ++ bytes) i,
      read_info-fragment_info num (length bytes) last bytes n (omega arith),
      small,
      read_all bytes,
    )
