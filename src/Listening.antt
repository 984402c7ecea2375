-- ===== src/Listening.antt =====
-- Where clients are accepted: `open_listenfd` of backend/authentication/auth-reciever.c and
-- `web_server_start` of backend/networking/web-server.c. The kernel is outside the program: the
-- records hold what its calls answer.
pub mod Client
pub mod Sockets
pub mod Kept
use mmo_backend.Base.{ℕ, Bool, true, false, ◌&&◌, Option, none, some, List, [], ◌∷◌, ok, fault}
use mmo_backend.Base.Actions.{Action, pure, ◌>>=◌, ◌>>◌}
use mmo_backend.Base.Handles.{Handles, acquire, release}

-- An address that `getaddrinfo` lists: whether there is a socket for it, and whether it is bound.
pub record Address : Type 0 where
  pub opens : Bool
  pub binds : Bool

-- The socket that the loop over the addresses breaks out with.
unfoldable pub bind_first : List Address → Action Handles (Option ℕ)
bind_first [] = pure none
bind_first (p ∷ rest) = do
  socket ← acquire p.opens
  elim socket [
    | none ↦ bind_first rest
    | some listen_fd ↦ elim p.binds [
      | true ↦ pure (some listen_fd)
      | false ↦ release (some listen_fd) >> bind_first rest
    ]
  ]

unfoldable pub listen_on : Bool → Option ℕ → Action Handles (Option ℕ)
listen_on listens none = pure none
listen_on true (some listen_fd) = pure (some listen_fd)
listen_on false (some listen_fd) = do release (some listen_fd); pure none

-- `none` is -1.
unfoldable pub open_listenfd : List Address → Bool → Action Handles (Option ℕ)
open_listenfd addresses listens = do socket ← bind_first addresses; listen_on listens socket

-- The descriptors that are open, and the blocks of memory that are not freed.
pub record Resources : Type 0 where
  pub fds : Handles
  pub blocks : Handles

abbrev pub on_fds : {A : Type 0} → Action Handles A → Action Resources A
on_fds m r = elim (m r.fds) [ ok (a, fds) ↦ ok (a, record r { fds = fds }) | fault e ↦ fault e ]

abbrev pub on_blocks : {A : Type 0} → Action Handles A → Action Resources A
on_blocks m r = elim (m r.blocks) [
  | ok (a, blocks) ↦ ok (a, record r { blocks = blocks })
  | fault e ↦ fault e
]

-- One turn of the accept loop: whether a client is accepted, memory for its `ConnInfo` is there, and
-- its thread can be created.
pub record Visit : Type 0 where
  pub accepts : Bool
  pub allocates : Bool
  pub creates : Bool

-- What a client's thread is given.
pub record ConnInfo : Type 0 where
  pub block : ℕ
  pub fd : ℕ

unfoldable pub start_thread : Bool → ConnInfo → Action Resources (Option ConnInfo)
start_thread true ci = pure (some ci)
start_thread false ci = do on_fds (release (some ci.fd)); pure none

unfoldable pub with_info : Visit → ℕ → Option ℕ → Action Resources (Option ConnInfo)
with_info visit conn_fd none = do on_fds (release (some conn_fd)); pure none
with_info visit conn_fd (some ci) = start_thread visit.creates (record { block = ci; fd = conn_fd })

unfoldable pub with_client : Visit → Option ℕ → Action Resources (Option ConnInfo)
with_client visit none = pure none
with_client visit (some conn_fd) = do
  ci ← on_blocks (acquire visit.allocates)
  with_info visit conn_fd ci

-- `accept` fails on a descriptor that is not open.
abbrev pub is_open : Option ℕ → Bool
is_open none = false
is_open (some fd) = true

unfoldable pub accept_round : Option ℕ → Visit → Action Resources (Option ConnInfo)
accept_round listen_fd visit = do
  conn_fd ← on_fds (acquire (is_open listen_fd && visit.accepts))
  with_client visit conn_fd

abbrev pub add_thread : Option ConnInfo → List ConnInfo → List ConnInfo
add_thread none threads = threads
add_thread (some ci) threads = ci ∷ threads

-- As many turns of the loop as there are visits, and the threads that it starts.
unfoldable pub accept_rounds : Option ℕ → List Visit → Action Resources (List ConnInfo)
accept_rounds listen_fd [] = pure []
accept_rounds listen_fd (visit ∷ visits) = do
  thread ← accept_round listen_fd visit
  threads ← accept_rounds listen_fd visits
  pure (add_thread thread threads)

-- `none` is `exit(1)`.
unfoldable pub web_server_start :
    Bool → List Address → Bool → List Visit → Action Resources (Option (List ConnInfo))
web_server_start false addresses listens visits = pure none
web_server_start true addresses listens visits = do
  listen_fd ← on_fds (open_listenfd addresses listens)
  threads ← accept_rounds listen_fd visits
  pure (some threads)
