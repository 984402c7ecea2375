-- ===== src/Receiver/Starting/Registers.antt =====
-- The receiver of tokens, from its start on.
use mmo_backend.Base.{
  subst, sym, ap, ◌∷◌, ◌+◌, ◌∙◌, ℕ, ◌≡◌, refl, true, Option, none, some, List, ok, arith, Result,
}
use mmo_backend.Base.Handles.{Handles, acquire}
use mmo_backend.Listening.{is_open}
use mmo_backend.Listening.Sockets.{usable, with_socket, open_listenfd-Opens}
use mmo_backend.Tables.{HashTable}
use mmo_backend.Awaiting.{Entry, Registry, awaiting_connections_table_init}
use mmo_backend.Awaiting.Shows.{Waiting, Shows}
use mmo_backend.Receiver.{Peer, receive_rounds}
use mmo_backend.Receiver.Arrivals.{IsPrompt}
use mmo_backend.Receiver.Rounds.{AllNew, registered, receive_rounds-AllRegistered}
use mmo_backend.Receiver.Tickets.{
  Ticket, AllTickets, sent_by, awaited, times, tickets-AllNew, registered-awaited,
}
use mmo_backend.Receiver.Starting.{
  Opening, Receiver, start_auth_reciever, receive_from, accept_peer,
}

-- Everything that the start asks for is there.
pub record IsReady (o : Opening) (peer : Peer) : Type 0 where
  pub detached : o.detached ≡ true
  pub locked : o.locked ≡ true
  pub made : o.made ≡ true
  pub cleaner : o.cleaner ≡ true
  pub address : usable o.addresses ≡ true
  pub listens : o.listens ≡ true
  pub peer_eq : o.peer ≡ some peer

abbrev nobody : Waiting
nobody k = none

module _ (h : HashTable Entry) where
  -- The receiver that the turns left: its table shows the tokens that were sent.
  pub record Registers (ts : List Ticket) (result : Result (Option Peer × Receiver h))
      : Type 0 where
    pub peer : Peer
    pub registry : Registry h
    pub fds : Handles
    pub owner : ℕ → Option (List ℕ)
    pub returns : result ≡ ok (some peer, record { fds = fds; registry = registry })
    pub shows : Shows h registry owner (awaited ts nobody)

  module _ (o : Opening) (ts : List Ticket) (peer : Peer) (r : Receiver h)
      (ready : IsReady o peer) where
    abbrev nows : List ℕ
    nows = times ts

    abbrev emptied : Registry h
    emptied = record r.registry { table = h.empty }

    emptied-Shows : Shows h emptied (λ p. none) nobody
    emptied-Shows = record {
      vacant = λ k e. h.lookup-empty k;
      placed = λ k text due e. absurd (ground (arith, e));
    }

    accepted :
        (socket : Option ℕ) (fds : Handles) (q : Peer) (registry : Registry h)
        → is_open socket ≡ true
        → receive_rounds h nows peer emptied ≡ ok (some q, registry)
        → accept_peer h nows socket (some peer) (record { fds = fds; registry = emptied })
          ≡ ok (
            some q,
            record {
              fds = record { next = fds.next + 1; live = fds.next ∷ fds.live };
              registry = registry;
            },
          )
    unfolding accept_peer acquire
    accepted none fds q registry e f = absurd (ground (arith, e))
    accepted (some fd) fds q registry e f = ground (arith, f)

    -- A receiver whose start gets all that it asks for, to which an authentication server
    -- connects that sends tokens of 255 bytes, each with an id of 21 bytes behind it, no two of
    -- the tokens the same, none of these bytes zero, and all there when they are read, ends its
    -- turns for them without a fault or an exit; and its table then shows just these tokens,
    -- each with its id, until 300 seconds from its turn.
    pub start_auth_reciever-Registers :
        IsPrompt peer
        → AllTickets ts nobody
        → peer.input ≡ sent_by ts
        → Registers ts (start_auth_reciever h o (times ts) r)
    unfolding start_auth_reciever receive_from awaiting_connections_table_init
    start_auth_reciever-Registers prompt tickets sent =
        let new =
          subst (λ (i : List ℕ). AllNew nows i nobody) (sym sent)
            (tickets-AllNew ts nobody tickets) in
        let all =
          receive_rounds-AllRegistered h nows emptied (λ p. none) nobody emptied-Shows (λ p l. refl)
            peer prompt new in
        let s = open_listenfd-Opens o.addresses o.listens r.fds in
        let is_there : is_open s.socket ≡ true =
          s.found ∙ ground (arith, ready.address, ready.listens) in
        record {
          peer = all.peer;
          registry = all.registry;
          fds = record { next = s.next + 1; live = s.next ∷ with_socket s.socket r.fds.live };
          owner = all.new_owner;
          returns = ground (
            arith,
            ready.detached,
            ready.locked,
            ready.made,
            ready.cleaner,
            ready.peer_eq,
            s.returns,
            accepted s.socket (record { next = s.next; live = with_socket s.socket r.fds.live })
                all.peer all.registry is_there all.returns,
          );
          shows =
              subst (λ (v : Waiting). Shows h all.registry all.new_owner v)
                (ap (λ (i : List ℕ). registered nows i nobody) sent
                  ∙ registered-awaited ts nobody tickets)
                all.shows;
        }
