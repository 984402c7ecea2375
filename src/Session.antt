-- ===== src/Session.antt =====
-- backend/player/session.c and state.h: which packets a session takes in which state.
pub mod Accepts
use mmo_backend.Base.{
  ℕ, zero, suc, ◌+◌, ◌==◌, if◌then◌else◌, Bool, true, false, List, [], ◌∷◌, get_elem?, length,
  Result, ok, ◌>>=◌, or_fault, out_of_bounds,
}
use mmo_backend.Packet.{Packet}
use mmo_backend.Packet.Opcode.{login_packet, move_packet, inspect_player_packet}

pub data State : Type 0 where
  disabled roaming footer : State

-- The value of an enumerator.
abbrev pub state_index : State → ℕ
state_index disabled = 0
state_index roaming = 1
state_index footer = 2

pub record StateArray : Type 0 where
  pub size : ℕ
  pub valid_packet_types : List ℕ

abbrev state_array : List ℕ → StateArray
state_array types = record { size = length types; valid_packet_types = types }

-- The table once `session_populate_list` has run: an array for each state before `FOOTER`.
unfoldable pub session_populate_list : List StateArray
session_populate_list =
    state_array (login_packet ∷ []) ∷ state_array (move_packet ∷ inspect_player_packet ∷ []) ∷ []

-- The search at index `i`, with `left` rounds to go.
unfoldable pub find_opcode : List ℕ → ℕ → ℕ → ℕ → Result Bool
find_opcode types opcode zero i = ok false
find_opcode types opcode (suc left) i =
    let rest = find_opcode types opcode left (i + 1) in
    or_fault (get_elem? types i) out_of_bounds >>= λ type. if type == opcode then ok true else rest

unfoldable pub session_verify_packet : List StateArray → State → Packet → Result Bool
unfolding find_opcode
session_verify_packet session_valid_packets state packet = do
  arr ← or_fault (get_elem? session_valid_packets (state_index state)) out_of_bounds
  find_opcode arr.valid_packet_types packet.opcode arr.size 0
