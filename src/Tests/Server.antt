-- ===== src/Tests/Server.antt =====
-- Moves, maps and players at concrete inputs.
use mmo_backend.Base.{◌≡◌, refl, true, false, [], ◌∷◌, ok}
use mmo_backend.Base.Int.{pos, negsuc}
use mmo_backend.Packet.{packet_flatten}
use mmo_backend.Packet.Templates.{packet_template_success}
use mmo_backend.Session.{roaming, session_populate_list, session_verify_packet}
use mmo_backend.Session.Accepts.{session_verify_packet-accepts}
use mmo_backend.World.Loading.{map_loader}
use mmo_backend.World.Placement.{run_events, spawn_by, player_move}
use mmo_backend.World.Moves.{walk, player_move-refused}
use mmo_backend.World.Walking.{Walked}
use mmo_backend.World.Walks.{player_move-Walked}
use mmo_backend.World.Events.{run_events-map_loader}
use mmo_backend.Tests.Village.{
  field, hero, server, hero-StandsOn, hero-CanWalk, move_to, away-Obstacle,
}

player_move-Walked_example :
    Walked server 20 hero 0 10 field 3 2 hero-CanWalk
      (player_move 1 20 (pos 3) (pos 2) (walk false) server)
player_move-Walked_example = player_move-Walked server 20 hero 0 10 field 3 2 hero-CanWalk 0 false

player_move-refused_example :
    player_move 2 20 (negsuc 2) (pos 2) (walk true) server ≡ ok (false, server)
player_move-refused_example =
    player_move-refused server 20 hero 10 field hero-StandsOn 1 (negsuc 2) (pos 2) true
      away-Obstacle

session_verify_packet-accepts_example :
    session_verify_packet session_populate_list roaming (move_to (pos 3) (pos 2)) ≡ ok true
session_verify_packet-accepts_example =
    session_verify_packet-accepts roaming (move_to (pos 3) (pos 2))

answer_flat :
    packet_flatten (packet_template_success 3) ≡ ok (3 ∷ 3 ∷ 0 ∷ 0 ∷ 0 ∷ 0 ∷ 0 ∷ 0 ∷ 0 ∷ [])
unfolding packet_flatten packet_template_success
answer_flat = refl

run_events-map_loader_example :
    run_events (spawn_by (player_move 9)) 20 (pos 31) (pos 5) (map_loader 0).events server
    ≡ run_events (spawn_by (player_move 1)) 20 (pos 31) (pos 5) (map_loader 0).events server
run_events-map_loader_example = run_events-map_loader 8 0 0 20 (pos 31) (pos 5) server
