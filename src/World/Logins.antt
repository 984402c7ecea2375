-- ===== src/World/Logins.antt =====
-- A login with a token that nobody holds, and what comes after it: `packet_handle_login` of
-- backend/communication/packet-handlers.c, and `packet_errno`.
use mmo_backend.Base.{
  ℕ, ◌≡◌, ◌≢◌, ap, sym, ◌∙◌, true, false, none, some, List, ok, fault, arith, out_of_bounds,
}
use mmo_backend.Base.Int.{pos, eqb_ℤ}
use mmo_backend.Packet.{Packet}
use mmo_backend.Packet.Opcode
use mmo_backend.Session.{disabled, footer, state_index}
use mmo_backend.Session.Accepts.{accepts}
use mmo_backend.World.State.{World, Session, load_session}
use mmo_backend.World.Handlers.{
  Services, packet_handle_route, packet_handle_login, c_string, invalid_awaiting_connection,
}
use mmo_backend.World.EventLoop.{event_loop_error, event_loop_round, run_packet}
use mmo_backend.World.Rounds.{packet_template_error-overflow, verified}

module _ (services : Services) (w : World) (session : ℕ) (s : Session)
    (here : w.sessions session ≡ some s) (packet : Packet) where
  -- While packet_errno is not zero, a round of any session that is there and not in the state
  -- FOOTER ends in an access out of bounds for every packet that its state accepts.
  pub event_loop_round-pending :
      s.state ≢ footer
      → accepts s.state packet.opcode ≡ true
      → eqb_ℤ w.packet_errno (pos 0) ≡ false
      → event_loop_round services session (some packet) w ≡ fault out_of_bounds
  unfolding event_loop_round load_session run_packet event_loop_error
  event_loop_round-pending known accepted pending = ground (
    arith,
    here,
    pending,
    verified s.state packet true known accepted,
    packet_template_error-overflow w.packet_errno,
  )

  -- For a session in the state DISABLED, without a pending error, a login packet whose token is
  -- not found is not answered: the round only sets packet_errno.
  pub event_loop_round-unknown_token :
      (bytes : List ℕ)
      → s.state ≡ disabled
      → w.packet_errno ≡ pos 0
      → packet.opcode ≡ Opcode.login_packet
      → packet.payload ≡ some bytes
      → services.find_token (c_string bytes) w ≡ ok (none, w)
      → event_loop_round services session (some packet) w
        ≡ ok (tt, record w { packet_errno = invalid_awaiting_connection })
  unfolding event_loop_round load_session run_packet packet_handle_route packet_handle_login
  event_loop_round-unknown_token bytes state no_error login payload unknown =
      let known : s.state ≢ footer = λ e. omega (arith, ap state_index (sym state ∙ e)) in
      ground (
        arith,
        here,
        no_error,
        verified s.state packet true known (rw (state, login)),
        login,
        payload,
        unknown,
      )
