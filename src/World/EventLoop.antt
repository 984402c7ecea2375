-- ===== src/World/EventLoop.antt =====
-- One round of the loop of backend/core/event-loop.c, for the packet that `packet_read` gave.
use mmo_backend.Base.{if◌then◌else◌, Option, none, some, ◌∷◌, ℕ, null_pointer, ok}
use mmo_backend.Base.Int.{ℤ, pos, eqb_ℤ}
use mmo_backend.Packet.{Packet}
use mmo_backend.Packet.Templates.{packet_template_error, packet_template_bad_state}
use mmo_backend.Session.{session_populate_list, session_verify_packet}
use mmo_backend.World.State.{
  M, pure, fail, ◌>>=◌, ◌>>◌, lift, get_world, load_session, write_packet,
}
use mmo_backend.World.Handlers.{Services, packet_handle_route}

abbrev pub bad_packet : ℤ
bad_packet = pos 3

-- The error is sent, and the socket is closed with status 1008.
unfoldable pub event_loop_error : ℕ → ℤ → M (Unit {0})
event_loop_error fd code = do
  packet ← lift (packet_template_error code)
  write_packet fd packet
  λ w. ok (tt, record w { closed = fd ∷ w.closed })

-- The rest of a round, for a packet that the session's state allows.
unfoldable pub run_packet : Services → Packet → ℕ → ℕ → M (Unit {0})
unfolding event_loop_error
run_packet services packet session fd = do
  w ← get_world
  if eqb_ℤ w.packet_errno (pos 0) then pure tt else event_loop_error fd w.packet_errno
  response ← packet_handle_route services packet session
  elim response [ none ↦ pure tt | some answer ↦ write_packet fd answer ]

unfoldable pub event_loop_round : Services → ℕ → Option Packet → M (Unit {0})
unfolding run_packet
event_loop_round services session none = do
  s ← load_session session
  event_loop_error s.fd bad_packet
  fail null_pointer
event_loop_round services session (some packet) = do
  s ← load_session session
  valid ← lift (session_verify_packet session_populate_list s.state packet)
  if valid
      then run_packet services packet session s.fd
      else write_packet s.fd (packet_template_bad_state packet.id)
