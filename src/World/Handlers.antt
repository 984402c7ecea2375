-- ===== src/World/Handlers.antt =====
-- backend/communication/packet-handlers.c and `db_player_get_player` of backend/db/db-player.c. The
-- awaiting connections and the database are reached through `Services`.
use mmo_backend.Base.{
  ℕ, ◌+◌, ◌-◌, ◌%◌, ◌^◌, ◌==◌, ltb, if◌then◌else◌, false, Option, none, some, List, [], ◌∷◌, drop,
  no_return, null_pointer, word32, ok,
}
use mmo_backend.Base.Int.{ℤ, pos, negsuc, signed32, pattern32}
use mmo_backend.Socket.{copy_from}
use mmo_backend.Packet.{Packet}
use mmo_backend.Packet.Opcode
use mmo_backend.Packet.Templates.{
  packet_template_failure, packet_template_success, packet_template_player,
}
use mmo_backend.Session.{roaming}
use mmo_backend.World.State.{
  Player, M, pure, fail, ◌>>=◌, ◌>>◌, need, lift, update, load_map, load_player, store_player,
  load_session, store_session,
}
use mmo_backend.World.Loading.{map_load}
use mmo_backend.World.Placement.{player_move, map_spawn_player, move_depth}

-- A field of a player's document, by its key; any other key is passed over.
pub data Field : Type 0 where
  id_field name_field : List ℕ → Field
  map_field x_field y_field max_move_field : ℤ → Field
  other_field : Field

-- Where a token leads, what takes it out of the table, and the documents of the database.
pub record Services : Type 0 where
  pub find_token : List ℕ → M (Option (List ℕ))
  pub remove_token : List ℕ → M (Unit {0})
  pub find_document : List ℕ → Option (List Field)

-- A `short` from an `int`.
abbrev pub to_short : ℤ → ℤ
to_short a =
    let w = pattern32 a % 2 ^ 16 in if ltb w (2 ^ 15) then pos w else negsuc (2 ^ 16 - w - 1)

abbrev pub new_player : Player
new_player = record {
  x = pos 0;
  y = pos 0;
  modified = false;
  max_move = pos 0;
  refs = pos 1;
  map = none;
  session = none;
  name = none;
  id = none;
}

unfoldable pub player_create : M ℕ
player_create w =
    ok (w.next, record w { next = w.next + 1; players = update w.players w.next (some new_player) })

-- A C string ends at the first zero byte.
abbrev pub c_string : List ℕ → List ℕ
c_string [] = []
c_string (b ∷ bytes) = let rest = c_string bytes in if b == 0 then [] else b ∷ rest

-- `bson_get_string` copies a text up to its first zero byte.
unfoldable pub set_field : Player → Field → M Player
set_field p (id_field text) = pure (record p { id = some (c_string text) })
set_field p (name_field text) = pure (record p { name = some (c_string text) })
set_field p (map_field id) = do a ← map_load id; pure (record p { map = a })
set_field p (x_field x) = pure (record p { x = x })
set_field p (y_field y) = pure (record p { y = y })
set_field p (max_move_field n) = pure (record p { max_move = to_short n })
set_field p other_field = pure p

unfoldable pub set_fields : Player → List Field → M Player
unfolding set_field
set_fields p [] = pure p
set_fields p (f ∷ fields) = do q ← set_field p f; set_fields q fields

-- The cache that is asked first is never filled: the call that would is commented out.
unfoldable pub db_player_get_player : Services → List ℕ → M (Option ℕ)
unfolding player_create set_fields
db_player_get_player services id = elim (services.find_document id) [
  | none ↦ pure none
  | some fields ↦ do
    a ← player_create
    p ← load_player a
    q ← set_fields p fields
    store_player a q
    pure (some a)
]

abbrev pub invalid_awaiting_connection : ℤ
invalid_awaiting_connection = pos 2

-- The player that a token leads to is tied to the session, and put on its map.
unfoldable pub enter_world : ℕ → ℕ → M (Unit {0})
enter_world session player = do
  p ← load_player player
  a ← need p.map null_pointer
  m ← load_map a
  spawned ← map_spawn_player (pos m.id) player p.x p.y (pos 1)
  pure tt

unfoldable pub packet_handle_login : Services → Packet → ℕ → M (Option Packet)
unfolding enter_world db_player_get_player
packet_handle_login services packet session = do
  bytes ← need packet.payload null_pointer
  let code = c_string bytes
  found ← services.find_token code
  elim found [
    | none ↦ λ w. ok (none, record w { packet_errno = invalid_awaiting_connection })
    | some id ↦ do
      loaded ← db_player_get_player services id
      s ← load_session session
      store_session session (record s { player = loaded })
      elim loaded [
        | none ↦ pure (some (packet_template_failure packet.id))
        | some player ↦ do
          p ← load_player player
          store_player player (record p { session = some session })
          s' ← load_session session
          store_session session (record s' { state = roaming })
          services.remove_token code
          enter_world session player
          pure (some (packet_template_success packet.id))
      ]
  ]

-- The two coordinates are read from the packet as they stand.
unfoldable pub packet_handle_move : Packet → ℕ → M (Option Packet)
packet_handle_move packet session = do
  x ← lift (copy_from packet.payload 4)
  bytes ← need packet.payload null_pointer
  y ← lift (copy_from (some (drop 4 bytes)) 4)
  s ← load_session session
  player ← need s.player null_pointer
  moved ←
      player_move move_depth player (signed32 (word32 x)) (signed32 (word32 y))
        (record { suppress_events = false; overlap = false; map = none })
  pure (if moved then none else some (packet_template_failure packet.id))

unfoldable pub packet_handle_inspect_player : Services → Packet → M (Option Packet)
unfolding db_player_get_player
packet_handle_inspect_player services packet = do
  bytes ← lift (copy_from packet.payload packet.length)
  found ← db_player_get_player services (c_string bytes)
  elim found [
    | none ↦ pure (some (packet_template_failure packet.id))
    | some a ↦ do
      p ← load_player a
      answer ← lift (packet_template_player packet.id p.name p.x p.y)
      pure (some answer)
  ]

-- The cases of the switch that end without a `return`, and their value, which is used.
unfoldable pub packet_handle_route : Services → Packet → ℕ → M (Option Packet)
unfolding packet_handle_login packet_handle_move packet_handle_inspect_player
packet_handle_route services packet session =
    if packet.opcode == Opcode.error
    then fail no_return
    else if packet.opcode == Opcode.login_packet
    then packet_handle_login services packet session
    else if packet.opcode == Opcode.logout_packet
    then fail no_return
    else if packet.opcode == Opcode.move_packet
    then packet_handle_move packet session
    else if packet.opcode == Opcode.inspect_player_packet
    then packet_handle_inspect_player services packet
    else pure none
