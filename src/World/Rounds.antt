-- ===== src/World/Rounds.antt =====
-- Rounds of the event loop: what a client's packet comes to.
use mmo_backend.Base.{
  ℕ, zero, suc, ◌≡◌, ◌≢◌, refl, ap, sym, ◌∙◌, Bool, true, false, none, some, List, ◌∷◌, ◌++◌, ok,
  fault, arith, if◌then◌else◌, out_of_bounds, bytes32, word32, subst,
}
use mmo_backend.Base.Int.{ℤ, pos, negsuc, pattern32, signed32, fits_int}
use mmo_backend.Maps.{Map}
use mmo_backend.Socket.{copy_from}
use mmo_backend.Packet.{Packet, packet_flatten}
use mmo_backend.Packet.Opcode
use mmo_backend.Packet.Templates.{
  packet_template_error, packet_template_failure, packet_template_bad_state, position_bytes,
}
use mmo_backend.Session.{
  State, disabled, roaming, footer, state_index, session_populate_list, session_verify_packet,
}
use mmo_backend.Session.Accepts.{accepts, session_verify_packet-accepts}
use mmo_backend.World.State.{World, Player, Session, ◌>>=◌, pure, load_session, write_packet}
use mmo_backend.World.Sending.{write_packet-sent}
use mmo_backend.World.Placement.{player_move, move_depth}
use mmo_backend.World.Handlers.{Services, packet_handle_route, packet_handle_move}
use mmo_backend.World.EventLoop.{event_loop_error, event_loop_round, run_packet, bad_packet}
use mmo_backend.World.Moves.{walk, StandsOn, Obstacle, player_move-refused}
use mmo_backend.World.Walking.{CanWalk, Walked}
use mmo_backend.World.Walks.{player_move-Walked}

-- For every code, packet_template_error is an access out of bounds: the message is copied into a
-- block that is one byte too short for it.
pub packet_template_error-overflow : (code : ℤ) → packet_template_error code ≡ fault out_of_bounds
unfolding packet_template_error
packet_template_error-overflow (pos zero) = refl
packet_template_error-overflow (pos (suc zero)) = refl
packet_template_error-overflow (pos (suc (suc i))) = ground arith
packet_template_error-overflow (negsuc i) = ground arith

-- The answers that carry an id alone can be flattened.
bare-flat :
    (opcode id : ℕ)
    → (body : List ℕ) × (packet_flatten
          (record { opcode = opcode; id = id; length = 0; payload = none })
        ≡ ok body)
unfolding packet_flatten
bare-flat opcode id = (_, refl)

send_bad_state :
    (fd id : ℕ) (w : World)
    → write_packet fd (packet_template_bad_state id) w
      ≡ ok (tt, record w { sent = (fd, packet_template_bad_state id) ∷ w.sent })
unfolding packet_template_bad_state
send_bad_state fd id w = write_packet-sent fd _ _ w (bare-flat _ _).1

pub send_failure :
    (fd id : ℕ) (w : World)
    → write_packet fd (packet_template_failure id) w
      ≡ ok (tt, record w { sent = (fd, packet_template_failure id) ∷ w.sent })
unfolding packet_template_failure
send_failure fd id w = write_packet-sent fd _ _ w (bare-flat _ _).1

pub verified :
    (state : State) (packet : Packet) (b : Bool)
    → state ≢ footer
    → accepts state packet.opcode ≡ b
    → session_verify_packet session_populate_list state packet ≡ ok b
verified disabled packet b known e = session_verify_packet-accepts disabled packet ∙ ap ok e
verified roaming packet b known e = session_verify_packet-accepts roaming packet ∙ ap ok e
verified footer packet b known e = absurd (known refl)

signed-pattern : (x : ℤ) → fits_int x ≡ true → signed32 (word32 (bytes32 (pattern32 x))) ≡ x
signed-pattern (pos n) h = ground arith
signed-pattern (negsuc n) h = ground arith

copied : (rest : List ℕ) (n : ℕ) → copy_from (some (bytes32 n ++ rest)) 4 ≡ ok (bytes32 n)
copied rest n = ground arith

-- A packet that asks for a move.
pub record IsMove (packet : Packet) (x y : ℤ) : Type 0 where
  pub opcode_eq : packet.opcode ≡ Opcode.move_packet
  pub rest : List ℕ
  pub payload_eq : packet.payload ≡ some (position_bytes x y ++ rest)
  pub fits_x : fits_int x ≡ true
  pub fits_y : fits_int y ≡ true

module _ (services : Services) (w : World) (session : ℕ) (s : Session)
    (here : w.sessions session ≡ some s) where
  -- A round of a session that is there, for which no packet was read, ends in an access out of
  -- bounds.
  pub event_loop_round-none : event_loop_round services session none w ≡ fault out_of_bounds
  unfolding event_loop_round event_loop_error load_session
  event_loop_round-none = ground (arith, here, packet_template_error-overflow bad_packet)

  -- In a state that is not FOOTER, a packet that the state does not accept is answered with a
  -- bad state packet, and the round changes nothing else.
  pub event_loop_round-refused :
      (packet : Packet)
      → s.state ≢ footer
      → accepts s.state packet.opcode ≡ false
      → event_loop_round services session (some packet) w
        ≡ ok (tt, record w { sent = (s.fd, packet_template_bad_state packet.id) ∷ w.sent })
  unfolding event_loop_round load_session
  event_loop_round-refused packet known refused =
      ground
        (arith, here, verified s.state packet false known refused, send_bad_state s.fd packet.id w)

-- A session that plays, with its player, when no error is pending.
pub record Plays (w : World) (session : ℕ) (s : Session) (player : ℕ) : Type 0 where
  pub here : w.sessions session ≡ some s
  pub state_eq : s.state ≡ roaming
  pub player_eq : s.player ≡ some player
  pub no_error : w.packet_errno ≡ pos 0

module _ (services : Services) (w : World) (session : ℕ) (s : Session) (player : ℕ)
    (h : Plays w session s player) (packet : Packet) (x y : ℤ) (is_move : IsMove packet x y) where
  accepted : session_verify_packet session_populate_list s.state packet ≡ ok true
  accepted =
      verified s.state packet true (λ e. omega (arith, ap state_index (sym h.state_eq ∙ e)))
        (rw (h.state_eq, is_move.opcode_eq))

  handled :
      packet_handle_move packet session w
      ≡ (player_move move_depth player x y (walk false) >>= λ moved.
            pure (if moved then none else some (packet_template_failure packet.id)))
          w
  unfolding packet_handle_move load_session
  handled = ground (
    arith,
    is_move.payload_eq,
    copied (bytes32 (pattern32 y) ++ is_move.rest) (pattern32 x),
    copied is_move.rest (pattern32 y),
    h.here,
    h.player_eq,
    signed-pattern x is_move.fits_x,
    signed-pattern y is_move.fits_y,
  )

  -- For a playing session without a pending error, a round with a move packet whose coordinates
  -- are ints is player_move to these coordinates, with events, followed by a failure packet just
  -- when it answers false.
  pub event_loop_round-move :
      event_loop_round services session (some packet) w
      ≡ (player_move move_depth player x y (walk false) >>= λ moved.
            if moved then pure tt else write_packet s.fd (packet_template_failure packet.id))
          w
  unfolding event_loop_round load_session run_packet packet_handle_route
  event_loop_round-move =
      ground (arith, h.here, accepted, h.no_error, is_move.opcode_eq, handled) steps 12000000

  -- For a playing session without a pending error, a move packet whose walk is stopped, in the
  -- sense of player_move-refused, is answered with a failure packet that carries its id, and the
  -- round changes nothing else.
  pub event_loop_round-stopped :
      (p : Player) (a : ℕ) (m : Map)
      → StandsOn w player p a m
      → Obstacle p m x y
      → event_loop_round services session (some packet) w
        ≡ ok (tt, record w { sent = (s.fd, packet_template_failure packet.id) ∷ w.sent })
  event_loop_round-stopped p a m stands obstacle = ground (
    arith,
    event_loop_round-move,
    player_move-refused w player p a m stands 1 x y false obstacle,
    send_failure s.fd packet.id w,
  )

-- For a playing session without a pending error, a round of the event loop with a move packet
-- whose walk can be made, in the sense of player_move-Walked, ends without a fault, sends no
-- answer, and leaves the server as that walk does.
pub event_loop_round-walk :
    (services : Services) (w : World) (session : ℕ) (s : Session) (player : ℕ)
    → Plays w session s player
    → (packet : Packet) (x y : ℕ) → IsMove packet (pos x) (pos y)
    → (p : Player) (i a : ℕ) (m : Map) (c : CanWalk w player p i a m x y)
    → (after : World) × (event_loop_round services session (some packet) w ≡ ok (tt, after))
      × Walked w player p i a m x y c (ok (true, after))
event_loop_round-walk services w session s player h packet x y is_move p i a m c =
    let walked = player_move-Walked w player p i a m x y c 1 false in
    (
      _,
      ground (
        arith,
        event_loop_round-move services w session s player h packet (pos x) (pos y) is_move,
        walked.returns,
      ),
      subst (Walked w player p i a m x y c) walked.returns walked,
    )
