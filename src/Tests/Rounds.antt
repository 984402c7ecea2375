-- ===== src/Tests/Rounds.antt =====
-- Rounds of the event loop at concrete inputs.
use mmo_backend.Base.{◌≡◌, refl, ap, some, [], ◌∷◌, ok, arith}
use mmo_backend.Base.Int.{pos}
use mmo_backend.Packet.Templates.{packet_template_bad_state}
use mmo_backend.Session.{state_index}
use mmo_backend.World.EventLoop.{event_loop_round}
use mmo_backend.World.Rounds.{event_loop_round-refused}
use mmo_backend.Tests.Village.{new_session, server, no_services, move_to}

event_loop_round-refused_example :
    event_loop_round no_services 31 (some (move_to (pos 3) (pos 2))) server
    ≡ ok (tt, record server { sent = (5, packet_template_bad_state 7) ∷ [] })
event_loop_round-refused_example =
    event_loop_round-refused no_services server 31 new_session refl (move_to (pos 3) (pos 2))
      (λ e. omega (arith, ap state_index e)) refl
