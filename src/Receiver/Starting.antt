-- ===== src/Receiver/Starting.antt =====
-- `start_auth_reciever` of backend/authentication/auth-reciever.c, from its start on: its table,
-- its listening socket, the one connection that it accepts, and its loop.
pub mod Registers
use mmo_backend.Base.{
  ℕ, ◌≡◌, refl, sym, Bool, true, false, ◌&&◌, Option, none, some, List, ok, fault, arith, Result,
}
use mmo_backend.Base.Actions.{Action, pure, ◌>>=◌}
use mmo_backend.Base.Handles.{Handles, acquire}
use mmo_backend.Listening.{Address, open_listenfd, is_open}
use mmo_backend.Tables.{HashTable}
use mmo_backend.Awaiting.{Entry, Registry, awaiting_connections_table_init}
use mmo_backend.Awaiting.Shows.{Waiting, Shows}
use mmo_backend.Receiver.{Peer, receive_rounds}
use mmo_backend.Receiver.Arrivals.{IsPrompt}
use mmo_backend.Receiver.Registering.{IsFresh}
use mmo_backend.Receiver.Rounds.{AllNew, AllRegistered, receive_rounds-AllRegistered}

-- Which calls succeed at the start; the peer is there when a connection is accepted.
pub record Opening : Type 0 where
  pub detached : Bool
  pub locked : Bool
  pub made : Bool
  pub cleaner : Bool
  pub addresses : List Address
  pub listens : Bool
  pub peer : Option Peer

module _ (h : HashTable Entry) where
  pub record Receiver : Type 0 where
    pub fds : Handles
    pub registry : Registry h

  abbrev on_fds : {A : Type 0} → Action Handles A → Action Receiver A
  on_fds m r = elim (m r.fds) [ ok (a, fds) ↦ ok (a, record r { fds = fds }) | fault e ↦ fault e ]

  abbrev on_registry : {A : Type 0} → Action (Registry h) A → Action Receiver A
  on_registry m r = elim (m r.registry) [
    | ok (a, registry) ↦ ok (a, record r { registry = registry })
    | fault e ↦ fault e
  ]

  -- `accept` fails on a descriptor that is not open; `none` is `exit(1)`.
  unfoldable pub accept_peer : List ℕ → Option ℕ → Option Peer → Action Receiver (Option Peer)
  accept_peer nows listen_fd none = pure none
  accept_peer nows none (some peer) = pure none
  accept_peer nows (some listen_fd) (some peer) = do
    conn_fd ← on_fds (acquire true)
    on_registry (receive_rounds h nows peer)

  unfoldable pub receive_from : Opening → List ℕ → Bool → Action Receiver (Option Peer)
  receive_from o nows false = pure none
  receive_from o nows true = do
    listen_fd ← on_fds (open_listenfd o.addresses o.listens)
    accept_peer nows listen_fd o.peer

  -- As many turns of the loop as there are times, unless the process exits.
  unfoldable pub start_auth_reciever : Opening → List ℕ → Action Receiver (Option Peer)
  start_auth_reciever o nows = elim o.detached [
    | false ↦ pure none
    | true ↦ (do
      ready ← on_registry (awaiting_connections_table_init h o.locked o.made o.cleaner)
      receive_from o nows ready)
  ]
