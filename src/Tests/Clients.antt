-- ===== src/Tests/Clients.antt =====
-- Clients of the server at concrete inputs: what they send, and who gets a place.
use mmo_backend.Base.{
  ℕ, ◌≡◌, refl, true, false, some, List, [], ◌∷◌, ◌++◌, ok, fault, out_of_bounds, arith,
}
use mmo_backend.Base.Int.{pos}
use mmo_backend.Base.Strings.{ascii}
use mmo_backend.Socket.{Socket}
use mmo_backend.Socket.Stream.{Arrived, Sent}
use mmo_backend.Packet.{Packet, packet_flatten}
use mmo_backend.Packet.Opcode
use mmo_backend.Packet.Templates.{position_bytes}
use mmo_backend.WebSocket.Protocol.{client_frame, key_bytes}
use mmo_backend.Http.Handshake.{response}
use mmo_backend.World.State.{World, ◌>>=◌, pure}
use mmo_backend.World.Placement.{player_move}
use mmo_backend.World.Moves.{walk}
use mmo_backend.World.Walking.{Walked}
use mmo_backend.World.Contested.{player_move-contested}
use mmo_backend.World.Rounds.{IsMove}
use mmo_backend.World.EventLoop.{event_loop_round}
use mmo_backend.World.Handlers.{Services, new_player, Field, name_field, x_field, other_field}
use mmo_backend.World.Inspections.{
  IsInspection, telling, described, remembering, event_loop_round-inspect,
}
use mmo_backend.World.Serving.{event_loop_turn, event_loop_turns}
use mmo_backend.World.Serving.Packets.{Message, IsMessage, stream, received, rounds}
use mmo_backend.World.Serving.Ends.{event_loop_turns-hangup, event_loop_turn-walk}
use mmo_backend.World.Serving.Upgraded.{serve_client, opened, serve_client-rounds}
use mmo_backend.Tests.Fixtures.{
  plain_memory, plain_memory-IsGenerous, client, test_key, all_bytes-IsBytes,
}
use mmo_backend.Tests.Village.{
  field, hero, bot, hero_session, server, no_services, hero-CanWalk, hero-Plays, move_to,
}
use mmo_backend.Tests.Requests.{
  libc, crypto, route, lines, browser, browser-IsRequest, browser-IsScanned, upgrade_header,
  key_header,
}

abbrev walk_body : List ℕ
walk_body = 5 ∷ 7 ∷ 0 ∷ 0 ∷ 0 ∷ 8 ∷ 0 ∷ 0 ∷ 0 ∷ 3 ∷ 0 ∷ 0 ∷ 0 ∷ 2 ∷ 0 ∷ 0 ∷ 0 ∷ []

abbrev message : Message
message = record {
  fin = 1;
  frame_opcode = 2;
  key = test_key;
  packet = move_to (pos 3) (pos 2);
  content = position_bytes (pos 3) (pos 2);
  body = walk_body;
}

message-IsMessage : IsMessage message
unfolding packet_flatten
message-IsMessage = record {
  fits = record {
    opcode_lt = omega arith;
    id_lt = omega arith;
    payload_eq = refl;
    length_eq = refl;
    content_lt = omega arith;
  };
  flat = refl;
  framed = record {
    fin_lt = omega arith;
    opcode_lt = omega arith;
    allowed = refl;
    key_IsBytes = all_bytes-IsBytes (key_bytes test_key) refl;
    body_IsBytes = all_bytes-IsBytes walk_body refl;
  };
  short = omega arith;
}

message-IsMove : IsMove (received message) (pos 3) (pos 2)
message-IsMove = record {
  opcode_eq = refl;
  rest = 0 ∷ [];
  payload_eq = refl;
  fits_x = refl;
  fits_y = refl;
}

abbrev one_frame : List ℕ
one_frame = client_frame 1 2 test_key walk_body

event_loop_turn-walk_example :
    (t : Socket) × (after : World) × Arrived t (9 ∷ [])
    × (event_loop_turn plain_memory no_services 30 (client (one_frame ++ 9 ∷ [])) server
        ≡ ok (t, after))
    × Walked server 20 hero 0 10 field 3 2 hero-CanWalk (ok (true, after))
event_loop_turn-walk_example =
    event_loop_turn-walk plain_memory plain_memory-IsGenerous no_services 30 server hero_session 20
      hero-Plays message 3 2 message-IsMessage message-IsMove hero 0 10 field hero-CanWalk
      (client (one_frame ++ 9 ∷ [])) (9 ∷ []) (refl, λ i. omega arith)

event_loop_turns-hangup_example :
    event_loop_turns plain_memory no_services 1 30 (client []) server ≡ fault out_of_bounds
event_loop_turns-hangup_example =
    event_loop_turns-hangup plain_memory plain_memory-IsGenerous no_services 30 [] (client [])
      server server hero_session tt (refl, λ i. omega arith) refl refl

abbrev admitted : World
admitted = opened libc crypto plain_memory no_services 8 server

abbrev upgraded : Socket
upgraded = client (stream (message ∷ []) ++ 9 ∷ [])

serve_client-rounds_example :
    (u t : Socket) × Sent upgraded (response libc crypto (ascii "dGhl")) u
    × Arrived t (9 ∷ [])
    × (serve_client libc crypto plain_memory no_services 3 2 1 true 8 browser upgraded server
        ≡ (rounds no_services 100 (received message ∷ []) >>= λ _. pure (some t)) admitted)
serve_client-rounds_example =
    serve_client-rounds libc crypto plain_memory no_services 0 8 browser route lines upgraded
      (ascii "dGhl") plain_memory-IsGenerous browser-IsRequest browser-IsScanned (λ i. omega arith)
      upgrade_header key_header (message ∷ []) (9 ∷ []) (message-IsMessage, tt)
      (refl, λ i. omega arith) server

player_move-contested_example :
    (after : World) × (player_move 2 20 (pos 3) (pos 2) (walk false) server ≡ ok (true, after))
    × Walked server 20 hero 0 10 field 3 2 hero-CanWalk (ok (true, after))
    × (player_move 2 21 (pos 3) (pos 2) (walk true) after ≡ ok (false, after))
player_move-contested_example =
    player_move-contested server 20 21 hero bot 0 10 field 3 2 hero-CanWalk
      (record { player_eq = refl; map_eq = refl; near = omega arith; reach = refl })
      (λ e. omega (arith, e)) (λ e. absurd (ground (arith, e))) 1 1 false true

abbrev asking : Packet
asking = record {
  opcode = Opcode.inspect_player_packet;
  id = 9;
  length = 2;
  payload = some (b'7' ∷ b'0' ∷ []);
}

asking-IsInspection : IsInspection asking (b'7' ∷ b'0' ∷ [])
asking-IsInspection = record {
  opcode_eq = refl;
  bytes = b'7' ∷ b'0' ∷ [];
  copied = refl;
  id_eq = refl;
}

abbrev ann : List Field
ann = name_field (ascii "Ann") ∷ x_field (pos 4) ∷ other_field ∷ []

abbrev archive : Services
archive = record no_services { find_document = λ id. some ann }

event_loop_round-inspect_example :
    event_loop_round archive 30 (some asking) server
    ≡ ok (
      tt,
      record (remembering server (described new_player ann)) {
        sent = (4, telling 9 (ascii "Ann") (pos 4) (pos 0)) ∷ [];
      },
    )
event_loop_round-inspect_example =
    event_loop_round-inspect archive server 30 hero_session 20 hero-Plays asking (b'7' ∷ b'0' ∷ [])
      asking-IsInspection ann (ascii "Ann") refl tt refl (omega arith) (omega arith)
