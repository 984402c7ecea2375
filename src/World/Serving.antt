-- ===== src/World/Serving.antt =====
-- The thread of one client: `event_loop_start` of backend/core/event-loop.c, over the socket from
-- which the packets are read.
pub mod Packets
pub mod Ends
pub mod Upgraded
use mmo_backend.Base.{ℕ, zero, suc, Bool, Option, none, some}
use mmo_backend.Packet.{packet_read}
use mmo_backend.Socket.{Memory, Socket}
use mmo_backend.World.State.{M, pure, ◌>>=◌, ◌>>◌, lift, load_session}
use mmo_backend.World.Handlers.{Services}
use mmo_backend.World.Sessions.{session_create}
use mmo_backend.World.EventLoop.{event_loop_round}

module _ (memory : Memory) (services : Services) where
  -- One turn of the loop, once the call of `poll` has returned a positive number; a client that
  -- has left makes it return too, with no input.
  unfoldable pub event_loop_turn : ℕ → Socket → M Socket
  event_loop_turn session s = do
    _ ← load_session session
    (packet, s') ← lift (packet_read memory s)
    event_loop_round services session packet
    pure s'

  -- The loop has no end of its own; this is as many turns of it.
  unfoldable pub event_loop_turns : ℕ → ℕ → Socket → M Socket
  event_loop_turns zero session s = pure s
  event_loop_turns (suc turns) session s = do
    s' ← event_loop_turn session s
    event_loop_turns turns session s'

  unfoldable pub loop_if : ℕ → Socket → Option ℕ → M (Option Socket)
  loop_if turns s none = pure none
  loop_if turns s (some session) = do s' ← event_loop_turns turns session s; pure (some s')

  -- `none` is the return without a session.
  unfoldable pub event_loop_start : Bool → ℕ → ℕ → Socket → M (Option Socket)
  event_loop_start connected turns fd s = do
    session ← session_create connected fd
    loop_if turns s session
