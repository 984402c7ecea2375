-- ===== src/World/Inspections.antt =====
-- A client that asks about a player: `packet_handle_inspect_player` of
-- backend/communication/packet-handlers.c.
use mmo_backend.Base.{
  bytes32, ◌<◌, ◌^◌, ◌++◌, length, u32, leb, le→leb, length-append, ℕ, ◌+◌, ◌≡◌, refl, ap, sym, ◌∙◌,
  true, none, some, List, [], ◌∷◌, ok, arith,
}
use mmo_backend.Base.Int.{ℤ}
use mmo_backend.Socket.{copy_from}
use mmo_backend.Socket.Copy.{copy_all}
use mmo_backend.Packet.{Packet, packet_flatten, packet_create, packet_size}
use mmo_backend.Packet.Opcode
use mmo_backend.Packet.Templates.{packet_template_failure, packet_template_player, position_bytes}
use mmo_backend.Session.{state_index, session_populate_list, session_verify_packet}
use mmo_backend.World.State.{
  World, Player, Session, load_session, load_player, store_player, update,
}
use mmo_backend.World.Sending.{write_packet-sent}
use mmo_backend.World.Handlers.{
  Services, Field, id_field, name_field, map_field, x_field, y_field, max_move_field, other_field,
  to_short, new_player, player_create, set_field, set_fields, db_player_get_player,
  packet_handle_route, packet_handle_inspect_player, c_string,
}
use mmo_backend.World.EventLoop.{event_loop_round, run_packet}
use mmo_backend.World.Rounds.{Plays, verified, send_failure}

-- The player that a document describes.
abbrev pub described : Player → List Field → Player
described p [] = p
described p (id_field text ∷ fields) = described (record p { id = some (c_string text) }) fields
described p (name_field text ∷ fields) = described (record p { name = some (c_string text) }) fields
described p (map_field id ∷ fields) = described p fields
described p (x_field x ∷ fields) = described (record p { x = x }) fields
described p (y_field y ∷ fields) = described (record p { y = y }) fields
described p (max_move_field n ∷ fields) = described (record p { max_move = to_short n }) fields
described p (other_field ∷ fields) = described p fields

-- No field is a map.
abbrev pub NoMap : List Field → Type 0
NoMap [] = Unit {0}
NoMap (map_field id ∷ fields) = ⊥
NoMap (f ∷ fields) = NoMap fields

set_fields-described :
    (fields : List Field) (p : Player) (w : World)
    → NoMap fields
    → set_fields p fields w ≡ ok (described p fields, w)
unfolding set_fields set_field
set_fields-described [] p w h = refl
set_fields-described (id_field text ∷ fields) p w h = set_fields-described fields _ w h
set_fields-described (name_field text ∷ fields) p w h = set_fields-described fields _ w h
set_fields-described (map_field id ∷ fields) p w h = absurd h
set_fields-described (x_field x ∷ fields) p w h = set_fields-described fields _ w h
set_fields-described (y_field y ∷ fields) p w h = set_fields-described fields _ w h
set_fields-described (max_move_field n ∷ fields) p w h = set_fields-described fields _ w h
set_fields-described (other_field ∷ fields) p w h = set_fields-described fields p w h

-- The packet that tells of a player.
abbrev pub telling : ℕ → List ℕ → ℤ → ℤ → Packet
telling code text x y = record {
  opcode = Opcode.inspect_player_packet;
  id = code;
  length = 8 + (length text + 1);
  payload = some (position_bytes x y ++ text ++ 0 ∷ []);
}

-- The server with the record that was made for an answer.
abbrev pub remembering : World → Player → World
remembering w q = record w {
  next = w.next + 1;
  players = update (update w.players w.next (some new_player)) w.next (some q);
}

template_lem :
    (code : ℕ) (text : List ℕ) (x y : ℤ)
    → code < 2 ^ 32
    → length text < 2 ^ 31
    → packet_template_player code (some text) x y ≡ ok (telling code text x y)
unfolding packet_template_player packet_create
template_lem code text x y c h =
    let id_eq : u32 code ≡ code = omega arith in
    let size : u32 (8 + (length text + 1)) ≡ 8 + (length text + 1) = omega arith in
    rw (id_eq, size) refl

telling-flat :
    (code : ℕ) (text : List ℕ) (x y : ℤ)
    → length text < 2 ^ 31
    → (body : List ℕ) × (packet_flatten (telling code text x y) ≡ ok body)
unfolding packet_flatten
telling-flat code text x y h = (
  Opcode.inspect_player_packet ∷ bytes32 code ++ bytes32 (length content) ++ content,
  rw (size, copy_all content, room) refl,
)
  where
    content : List ℕ
    content = position_bytes x y ++ text ++ 0 ∷ []

    size : 8 + (length text + 1) ≡ length content
    size = omega (
      arith,
      length-append text (0 ∷ []),
      length-append (position_bytes x y ++ text) (0 ∷ []),
      length-append (position_bytes x y) text,
    )

    room : leb (packet_size + length content) (u32 (length content + packet_size)) ≡ true
    room = le→leb _ _ (omega (arith, size, h))

-- A packet that asks for the player with this id.
pub record IsInspection (packet : Packet) (id : List ℕ) : Type 0 where
  pub opcode_eq : packet.opcode ≡ Opcode.inspect_player_packet
  pub bytes : List ℕ
  pub copied : copy_from packet.payload packet.length ≡ ok bytes
  pub id_eq : c_string bytes ≡ id

module _ (services : Services) (w : World) (session : ℕ) (s : Session) (player : ℕ)
    (h : Plays w session s player) (packet : Packet) (id : List ℕ)
    (asks : IsInspection packet id) where
  accepted : session_verify_packet session_populate_list s.state packet ≡ ok true
  accepted =
      verified s.state packet true (λ e. omega (arith, ap state_index (sym h.state_eq ∙ e)))
        (rw (h.state_eq, asks.opcode_eq))

  no_document :
      services.find_document id ≡ none
      → packet_handle_inspect_player services packet w
        ≡ ok (some (packet_template_failure packet.id), w)
  unfolding packet_handle_inspect_player db_player_get_player
  no_document e = ground (arith, asks.copied, asks.id_eq, e)

  -- For a playing session without a pending error, a packet that asks for a player that the
  -- database does not have is answered with a failure packet that carries its id, and the round
  -- changes nothing else.
  pub event_loop_round-inspect_nobody :
      services.find_document id ≡ none
      → event_loop_round services session (some packet) w
        ≡ ok (tt, record w { sent = (s.fd, packet_template_failure packet.id) ∷ w.sent })
  unfolding event_loop_round load_session run_packet packet_handle_route
  event_loop_round-inspect_nobody e = ground (
    arith,
    h.here,
    accepted,
    h.no_error,
    asks.opcode_eq,
    no_document e,
    send_failure s.fd packet.id w,
  )

  module _ (fields : List Field) (name : List ℕ)
      (document : services.find_document id ≡ some fields) (no_map : NoMap fields)
      (named : (described new_player fields).name ≡ some name) (name_short : length name < 2 ^ 31)
      (id_fits : packet.id < 2 ^ 32) where
    abbrev q : Player
    q = described new_player fields

    abbrev created : World
    created = record w { next = w.next + 1; players = update w.players w.next (some new_player) }

    made : db_player_get_player services id w ≡ ok (some w.next, remembering w q)
    unfolding db_player_get_player player_create load_player store_player
    made = ground (arith, document, set_fields-described fields new_player created no_map)

    answered : packet_template_player packet.id q.name q.x q.y ≡ ok (telling packet.id name q.x q.y)
    answered =
        ap (λ n. packet_template_player packet.id n q.x q.y) named
        ∙ template_lem packet.id name q.x q.y id_fits name_short

    found :
        packet_handle_inspect_player services packet w
        ≡ ok (some (telling packet.id name q.x q.y), remembering w q)
    unfolding packet_handle_inspect_player load_player
    found = ground (arith, asks.copied, asks.id_eq, made, answered)

    -- For a playing session without a pending error, a packet that asks for a player is answered
    -- with the packet that tells the name, up to a zero byte, and the place that the player's
    -- document gives, and the record made from the document stays with the server, which changes
    -- in nothing else; when the document names no map, the name is shorter than 2^31 bytes, and
    -- the packet's id is an int.
    pub event_loop_round-inspect :
        event_loop_round services session (some packet) w
        ≡ ok (
          tt,
          record (remembering w q) { sent = (s.fd, telling packet.id name q.x q.y) ∷ w.sent },
        )
    unfolding event_loop_round load_session run_packet packet_handle_route
    event_loop_round-inspect = ground (
      arith,
      h.here,
      accepted,
      h.no_error,
      asks.opcode_eq,
      found,
      write_packet-sent s.fd (telling packet.id name q.x q.y)
          (telling-flat packet.id name q.x q.y name_short).0 (remembering w q)
          (telling-flat packet.id name q.x q.y name_short).1,
    )
