-- ===== src/World/Sessions.antt =====
-- `session_create` and `session_destroy` of backend/player/session.c.
use mmo_backend.Base.{ℕ, ◌+◌, if◌then◌else◌, Bool, Option, none, some, ok}
use mmo_backend.Session.{disabled}
use mmo_backend.World.State.{Session, M, pure, ◌>>=◌, ◌>>◌, update, load_session}
use mmo_backend.World.Loading.{player_free, free_depth}

-- The session's player is given up first, if it has one.
unfoldable pub give_up : Option ℕ → M (Unit {0})
give_up none = pure tt
give_up (some player) = player_free free_depth player

unfoldable pub session_destroy : Option ℕ → M (Unit {0})
unfolding give_up
session_destroy none = pure tt
session_destroy (some session) = do
  s ← load_session session
  give_up s.player
  λ w. ok (tt, record w { sessions = update w.sessions session none })

abbrev pub new_session : ℕ → Session
new_session fd = record { fd = fd; state = disabled; player = none }

-- A block for the session, in which everything is zero but what is set.
unfoldable pub session_alloc : ℕ → M ℕ
session_alloc fd w = ok (
  w.next,
  record w { next = w.next + 1; sessions = update w.sessions w.next (some (new_session fd)) },
)

-- `connected` says whether `db_connect` gave a connection.
unfoldable pub session_create : Bool → ℕ → M (Option ℕ)
unfolding session_alloc session_destroy
session_create connected fd = do
  session ← session_alloc fd
  if connected then pure (some session) else (do session_destroy (some session); pure none)
