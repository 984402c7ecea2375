-- ===== src/Listening/Client/Closes.antt =====
-- A client's thread closes its descriptor.
use mmo_backend.Base.{
  Bool, ℕ, ◌+◌, ◌<◌, ◌≡◌, true, some, List, [], ◌∷◌, ◌++◌, if◌then◌else◌, ◌&&◌, not,
}
use mmo_backend.Base.Handles.{take_out}
use mmo_backend.Listening.{Resources, ConnInfo}
use mmo_backend.Listening.Client.{Calls, Reader}

-- The thread gets to the handshake.
abbrev pub goes_over : Calls → Bool
goes_over c = c.named && c.detached && c.method && c.route && c.args && not c.too_long && c.upgraded

-- What is left: of the method, the route and the arguments on an error, and else the name in lower case;
-- and the reader, when the thread goes over to the handshake.
abbrev pub leaked : Calls → ℕ → List ℕ
leaked c next =
    if not (c.named && c.detached && c.method)
    then []
    else if not c.route
    then (next + 2) ∷ []
    else if not c.args
    then (next + 3) ∷ (next + 2) ∷ []
    else if c.too_long
    then (next + 4) ∷ (next + 3) ∷ (next + 2) ∷ []
    else if c.upgraded
    then (next + 5) ∷ (next + 1) ∷ next ∷ []
    else (next + 5) ∷ []

-- A thread that has its descriptor and its block, with memory for a reader.
pub record HasClient (c : Calls) (ci : ConnInfo) (r : Resources) (fds blocks : List ℕ)
    : Type 0 where
  pub reader : c.reader ≡ true
  pub buffer : c.buffer ≡ true
  pub lower : c.lower ≡ true
  pub fd_open : take_out ci.fd r.fds.live ≡ some fds
  pub block_live : take_out ci.block r.blocks.live ≡ some blocks
  pub block_old : ci.block < r.blocks.next

module _ (c : Calls) (ci : ConnInfo) (r : Resources) (fds blocks : List ℕ)
    (h : HasClient c ci r fds blocks) where
  abbrev n : ℕ
  n = r.blocks.next

  abbrev br : Reader
  br = record { block = n; buf = n + 1; fd = ci.fd }

  -- The reader is made, and the block of the client's data freed.
  abbrev begun : Resources
  begun = record r { blocks = record { next = n + 2; live = (n + 1) ∷ n ∷ blocks } }

  abbrev ended : ℕ → List ℕ → Resources
  ended next left = record {
    fds = record { next = r.fds.next; live = fds };
    blocks = record { next = next; live = left ++ blocks };
  }

  -- The thread has its descriptor still when it goes over to the handshake.
  abbrev over : Resources
  over = record {
    fds = r.fds;
    blocks = record { next = n + 6; live = (n + 5) ∷ (n + 1) ∷ n ∷ blocks };
  }

  abbrev left_by : ℕ → Resources
  left_by next = record {
    fds = record { next = r.fds.next; live = if goes_over c then r.fds.live else fds };
    blocks = record { next = next; live = leaked c n ++ blocks };
  }
