-- ===== src/Session/Accepts.antt =====
-- What the states accept.
use mmo_backend.Base.{
  ℕ, ◌+◌, ◌≡◌, refl, ◌∙◌, ◌==◌, ◌||◌, if◌then◌else◌, Bool, false, List, [], ◌∷◌, ◌++◌, get_elem?,
  length, ok, fault, out_of_bounds, arith, some, subst, append_assoc, length-append,
}
use mmo_backend.Packet.{Packet}
use mmo_backend.Packet.Opcode.{login_packet, move_packet, inspect_player_packet}
use mmo_backend.Session.{
  State, disabled, roaming, footer, state_index, session_populate_list, find_opcode,
  session_verify_packet,
}

abbrev contains : ℕ → List ℕ → Bool
contains a [] = false
contains a (x ∷ xs) = x == a || contains a xs

get_middle : (before xs : List ℕ) (x : ℕ) → get_elem? (before ++ x ∷ xs) (length before) ≡ some x
get_middle [] xs x = refl
get_middle (b ∷ before) xs x = get_middle before xs x

-- The search finds an opcode just when it is in the array.
pub find_opcode-contains :
    (before types : List ℕ) (opcode : ℕ)
    → find_opcode (before ++ types) opcode (length types) (length before)
      ≡ ok (contains opcode types)
unfolding find_opcode
find_opcode-contains before [] opcode = refl
find_opcode-contains before (x ∷ types) opcode =
    let goal =
      λ (z : List ℕ) (i : ℕ). find_opcode z opcode (length types) i ≡ ok (contains opcode types) in
    let rest : goal (before ++ x ∷ types) (length before + 1) =
      subst (λ (z : List ℕ). goal z (length before + 1)) (append_assoc before (x ∷ []) types)
        (subst (goal (before ++ x ∷ [] ++ types)) (length-append before (x ∷ []))
          (find_opcode-contains (before ++ x ∷ []) types opcode)) in
    rw (get_middle before types x) (ground (arith, rest))

-- The protocol: a login before play, moves and inspections during it.
abbrev pub accepts : State → ℕ → Bool
accepts disabled opcode = opcode == login_packet
accepts roaming opcode = opcode == move_packet || opcode == inspect_player_packet
accepts footer opcode = false

-- Against the table that session_populate_list makes, a packet is valid just when its opcode is
-- a login in the state DISABLED, a move or an inspection in the state ROAMING; the state FOOTER
-- reads past the table.
pub session_verify_packet-accepts :
    (state : State) (packet : Packet)
    → session_verify_packet session_populate_list state packet
      ≡ (if state_index state == 2 then fault out_of_bounds else ok (accepts state packet.opcode))
unfolding session_verify_packet session_populate_list
session_verify_packet-accepts disabled packet =
    find_opcode-contains [] (login_packet ∷ []) packet.opcode ∙ ground arith
session_verify_packet-accepts roaming packet =
    find_opcode-contains [] (move_packet ∷ inspect_player_packet ∷ []) packet.opcode ∙ ground arith
session_verify_packet-accepts footer packet = refl
