-- ===== src/Tests/Starts.antt =====
-- The start of the program, what it takes and gives back, and readers of lines, at concrete inputs.
use mmo_backend.Base.{
  ℕ, ◌≡◌, refl, true, false, some, none, List, [], ◌∷◌, ok, arith, replicate, ◌≢◌, zero, suc,
  length-replicate,
}
use mmo_backend.Base.Actions.{pure, ◌>>=◌}
use mmo_backend.Base.Handles.{Handles}
use mmo_backend.Tables.Assoc.{assoc}
use mmo_backend.Db.{Driver, db_connect, db_free}
use mmo_backend.Db.Leftovers.{db_connect-failed, db_free-db_connect}
use mmo_backend.Listening.{Address, Resources, Visit, web_server_start}
use mmo_backend.Listening.Kept.{Serves, web_server_start-Serves}
use mmo_backend.Listening.Client.{Calls}
use mmo_backend.Awaiting.{Registry}
use mmo_backend.Receiver.{Peer}
use mmo_backend.Receiver.Tickets.{Ticket, IsTicket, NoZero, sent_by}
use mmo_backend.Receiver.Starting.{Opening, start_auth_reciever}
use mmo_backend.Receiver.Starting.Registers.{Registers, start_auth_reciever-Registers}
use mmo_backend.World.State.{World}
use mmo_backend.World.Keeps.{IsWellFormed}
use mmo_backend.World.Runs.{Reach}
use mmo_backend.World.Startup.{Process, main}
use mmo_backend.World.Startup.Serves.{loaded, main-Reach}
use mmo_backend.World.Counting.{Counted, IsCounted, takes, gives_up, run_uses, run_uses-IsCounted}
use mmo_backend.Http.Reader.{br_init, br_read_line}
use mmo_backend.Http.Buffers.{br_init-IsReader}
use mmo_backend.Http.Bounds.{StaysIn, br_read_line-StaysIn}
use mmo_backend.Tests.Village.{server, no_services}
use mmo_backend.Tests.Runs.{no_services-KeepsState}
use mmo_backend.Tests.Requests.{browser}

-- A driver whose ping fails, and one that answers all.
abbrev silent : Driver
silent = record {
  client_new = true;
  server_api_new = true;
  get_database = true;
  command_simple = false;
  get_collection = true;
}

abbrev willing : Driver
willing = record silent { command_simple = true }

abbrev some_handles : Handles
some_handles = record { next = 7; live = 3 ∷ [] }

db_connect-failed_example :
    (n : ℕ) × (db_connect silent some_handles
      ≡ ok (none, record { next = n; live = 12 ∷ 11 ∷ 3 ∷ [] }))
db_connect-failed_example = db_connect-failed silent some_handles refl

db_free-db_connect_example :
    ((db_connect willing >>= λ conn. elim conn [ none ↦ pure tt | some conn ↦ db_free conn ])
      some_handles)
    ≡ ok (tt, record { next = 14; live = 11 ∷ 3 ∷ [] })
db_free-db_connect_example = db_free-db_connect willing some_handles refl

-- An address that cannot be bound, and one that can.
abbrev addresses : List Address
addresses = record { opens = true; binds = false } ∷ record { opens = true; binds = true } ∷ []

abbrev resources : Resources
resources = record { fds = some_handles; blocks = record { next = 20; live = 19 ∷ [] } }

-- A client that is served, and one whose thread cannot be created.
abbrev visits : List Visit
visits =
    record { accepts = true; allocates = true; creates = true }
    ∷ record { accepts = true; allocates = true; creates = false }
    ∷ []

web_server_start-Serves_example :
    Serves true 1 resources (web_server_start true addresses true visits resources)
web_server_start-Serves_example = web_server_start-Serves addresses true visits resources

abbrev calls : Calls
calls = record {
  reader = true;
  buffer = true;
  named = true;
  detached = true;
  method = true;
  route = true;
  args = false;
  too_long = false;
  lower = true;
  upgraded = false;
}

abbrev tickets : List Ticket
tickets =
    record { token = replicate 255 b'a'; id = replicate 21 b'1'; now = 100 }
    ∷ record { token = replicate 255 b'b'; id = replicate 21 b'2'; now = 200 }
    ∷ []

replicate-NoZero : (n b : ℕ) → b ≢ 0 → NoZero (replicate n b)
replicate-NoZero zero b h = tt
replicate-NoZero (suc n) b h = (h, replicate-NoZero n b h)

uniform-IsTicket :
    (a b now : ℕ)
    → a ≢ 0
    → b ≢ 0
    → IsTicket (record { token = replicate 255 a; id = replicate 21 b; now = now })
uniform-IsTicket a b now ha hb = record {
  token_size = length-replicate 255 a;
  id_size = length-replicate 21 b;
  token_text = replicate-NoZero 255 a ha;
  id_text = replicate-NoZero 21 b hb;
}

abbrev peer : Peer
peer = record { arrived = λ i. 7; reads = 0; input = sent_by tickets }

abbrev opening : Opening
opening = record {
  detached = true;
  locked = true;
  made = true;
  cleaner = true;
  addresses = addresses;
  listens = true;
  peer = some peer;
}

abbrev no_tokens : Registry assoc
no_tokens = record { next = 0; strings = λ p. none; connections = λ p. none; table = [] }

start_auth_reciever-Registers_example : Registers assoc tickets (
    start_auth_reciever assoc opening
      (100 ∷ 200 ∷ [])
      (record { fds = some_handles; registry = no_tokens }))
start_auth_reciever-Registers_example =
    start_auth_reciever-Registers assoc opening tickets peer
      (record { fds = some_handles; registry = no_tokens })
      (record {
        detached = refl;
        locked = refl;
        made = refl;
        cleaner = refl;
        address = refl;
        listens = refl;
        peer_eq = refl;
      })
      (λ i. omega arith)
      (
        uniform-IsTicket b'a' b'1' 100 (λ e. omega (arith, e)) (λ e. omega (arith, e)),
        refl,
        (uniform-IsTicket b'b' b'2' 200 (λ e. omega (arith, e)) (λ e. omega (arith, e)), refl, tt),
      )
      refl

main-Reach_example :
    (p : Process assoc) × (main assoc silent true (loaded assoc (true ∷ false ∷ []) [] some_handles)
      ≡ ok (true, p))
    × ((v : World) → Reach no_services p.served.world v → IsWellFormed v)
main-Reach_example =
    main-Reach assoc silent true (true ∷ false ∷ []) [] some_handles refl no_services
      no_services-KeepsState

br_read_line-StaysIn_example :
    StaysIn 64 false (br_init 64) browser (br_read_line 3 (br_init 64) browser)
br_read_line-StaysIn_example =
    br_read_line-StaysIn 64 false 3 (br_init 64) browser (br_init-IsReader 64 (omega arith))

-- The second map is not loaded on the server.
idle : IsCounted server 1 0
idle = record { unlocked = refl; counted = Counted.absent refl }

run_uses-IsCounted_example :
    (after : World) × (run_uses 1
        (takes ∷ takes ∷ gives_up ∷ takes ∷ gives_up ∷ gives_up ∷ [])
        server
      ≡ ok (tt, after))
    × IsCounted after 1 0
run_uses-IsCounted_example =
    run_uses-IsCounted 1 (omega arith) (takes ∷ takes ∷ gives_up ∷ takes ∷ gives_up ∷ gives_up ∷ [])
      server 0 idle
