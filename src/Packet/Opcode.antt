-- ===== src/Packet/Opcode.antt =====
-- The opcodes of backend/communication/include/packet-types.h.
use mmo_backend.Base.{ℕ}

abbrev pub error : ℕ
error = 0

abbrev pub login_packet : ℕ
login_packet = 1

abbrev pub logout_packet : ℕ
logout_packet = 2

abbrev pub success_packet : ℕ
success_packet = 3

abbrev pub failure_packet : ℕ
failure_packet = 4

abbrev pub move_packet : ℕ
move_packet = 5

abbrev pub moved_packet : ℕ
moved_packet = 6

abbrev pub bad_state_packet : ℕ
bad_state_packet = 7

abbrev pub inspect_player_packet : ℕ
inspect_player_packet = 8

abbrev pub map_packet : ℕ
map_packet = 9

abbrev pub leaving_map_packet : ℕ
leaving_map_packet = 10
