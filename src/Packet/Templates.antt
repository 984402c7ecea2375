-- ===== src/Packet/Templates.antt =====
-- backend/communication/packet-types.c: the packets that the server sends. A C string is the list
-- of its bytes without the zero that ends it, or a null pointer.
use mmo_backend.Base.{
  ℕ, ◌+◌, ◌*◌, leb, if◌then◌else◌, Option, none, some, List, [], ◌∷◌, ◌++◌, length, get_elem?, take,
  ◌-◌, Result, ok, fault, ◌>>=◌, ◌>>◌, guard, or_fault, null_pointer, out_of_bounds, bytes32,
}
use mmo_backend.Base.Int.{ℤ, pos, negsuc, pattern32, ltb_ℤ}
use mmo_backend.Packet.{Packet, packet_create}
use mmo_backend.Packet.Opcode.{
  error, success_packet, failure_packet, bad_state_packet, moved_packet, inspect_player_packet,
  map_packet, leaving_map_packet,
}
use mmo_backend.Maps.{Map}

unfoldable pub packet_template_success : ℕ → Packet
unfolding packet_create
packet_template_success code = packet_create success_packet code none 0

unfoldable pub packet_template_failure : ℕ → Packet
unfolding packet_create
packet_template_failure code = packet_create failure_packet code none 0

unfoldable pub packet_template_bad_state : ℕ → Packet
unfolding packet_create
packet_template_bad_state code = packet_create bad_state_packet code none 0

-- `error_strings` of errors.c, "UNDEFINED ERROR" and "INVALID LOGIN PACKET".
abbrev pub error_strings : List (List ℕ)
error_strings =
    (b'U' ∷ b'N' ∷ b'D' ∷ b'E' ∷ b'F' ∷ b'I' ∷ b'N' ∷ b'E' ∷ b'D' ∷ 32 ∷ b'E' ∷ b'R' ∷ b'R' ∷ b'O'
      ∷ b'R' ∷ [])
    ∷ (b'I' ∷ b'N' ∷ b'V' ∷ b'A' ∷ b'L' ∷ b'I' ∷ b'D' ∷ 32 ∷ b'L' ∷ b'O' ∷ b'G' ∷ b'I' ∷ b'N' ∷ 32
        ∷ b'P' ∷ b'A' ∷ b'C' ∷ b'K' ∷ b'E' ∷ b'T' ∷ [])
    ∷ []

-- `strcpy` into a block of `size` bytes writes the zero byte too.
abbrev pub strcpy : ℕ → List ℕ → Result (List ℕ)
strcpy size source = guard (leb (length source + 1) size) out_of_bounds >> ok source

-- The index into `error_strings`: a code past its end is taken for 0.
abbrev pub error_index : ℤ → ℤ
error_index code = if ltb_ℤ (pos (length error_strings - 1)) code then pos 0 else code

-- The message is copied into a block of `strlen` bytes.
unfoldable pub packet_template_error : ℤ → Result Packet
unfolding packet_create
packet_template_error code = do
  message ← elim (error_index code) [
    | pos i ↦ or_fault (get_elem? error_strings i) out_of_bounds
    | negsuc i ↦ fault out_of_bounds
  ]
  copied ← strcpy (length message) message
  ok (packet_create error (pattern32 (error_index code)) (some copied) (length copied))

-- The two coordinates as they stand in a packet.
abbrev pub position_bytes : ℤ → ℤ → List ℕ
position_bytes x y = bytes32 (pattern32 x) ++ bytes32 (pattern32 y)

-- `none` is the null pointer that is returned for a player without an id.
unfoldable pub packet_template_update_position : Option (List ℕ) → ℤ → ℤ → Option Packet
unfolding packet_create
packet_template_update_position none x y = none
packet_template_update_position (some id) x y =
    some (packet_create moved_packet 0 (some (position_bytes x y ++ id)) (8 + length id))

unfoldable pub packet_template_player : ℕ → Option (List ℕ) → ℤ → ℤ → Result Packet
unfolding packet_create
packet_template_player code name x y = do
  text ← or_fault name null_pointer
  ok (
      packet_create inspect_player_packet code (some (position_bytes x y ++ text ++ 0 ∷ []))
        (8 + (length text + 1)))

-- The packet for a map that is loaded; `map_load`, which the function calls first, is in `World`.
unfoldable pub map_body : Map → Packet
unfolding packet_create
map_body map =
    packet_create map_packet 0
      (some (bytes32 map.width ++ bytes32 map.height ++ take (map.width * map.height) map.decor))
      (8 + map.width * map.height)

unfoldable pub packet_template_leaving_map : Option (List ℕ) → Result Packet
unfolding packet_create
packet_template_leaving_map id = do
  text ← or_fault id null_pointer
  ok (packet_create leaving_map_packet 0 (some (text ++ 0 ∷ [])) (length text))
