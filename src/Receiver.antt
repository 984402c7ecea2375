-- ===== src/Receiver.antt =====
-- The thread that takes tokens and ids from the authentication server
-- (backend/authentication/auth-reciever.c). The kernel is outside the program: `Peer` holds what
-- its calls find.
pub mod Arrivals
pub mod Turns
pub mod Registering
pub mod Rounds
pub mod Tickets
pub mod Starting
use mmo_backend.Base.{
  ℕ, zero, suc, ◌+◌, ◌-◌, min, ◌==◌, Bool, true, false, Option, none, some, List, [], ◌∷◌, ◌++◌,
  length, take, drop, ok,
}
use mmo_backend.Base.Actions.{Action, pure, modify, ◌>>=◌, ◌>>◌}
use mmo_backend.Tables.{HashTable}
use mmo_backend.World.State.{update}
use mmo_backend.Awaiting.{
  Entry, Registry, R, awaiting_connections_table_insert, awaiting_connections_table_print_all,
}

-- The `i`th call of `read` on the socket, which does not block, finds up to `arrived i` bytes of
-- what is left of the input.
pub record Peer : Type 0 where
  pub arrived : ℕ → ℕ
  pub reads : ℕ
  pub input : List ℕ

abbrev pub token_size : ℕ
token_size = 255

abbrev pub id_size : ℕ
id_size = 21

-- Each turn but the last moves a byte, so one turn more than `read_size` is enough.
unfoldable pub read_socket_loop : ℕ → Peer → ℕ → List ℕ → List ℕ × Peer
read_socket_loop zero p left got = (got, p)
read_socket_loop (suc fuel) p left got =
    let amount = min (p.arrived p.reads) (min left (length p.input)) in
    let p' : Peer = record p { reads = p.reads + 1; input = drop amount p.input } in
    elim (amount == 0) [
      | true ↦ (got, p')
      | false ↦ read_socket_loop fuel p' (left - amount) (got ++ take amount p.input)
    ]

-- The bytes that were read; their number is what the function returns.
unfoldable pub read_socket : Peer → ℕ → List ℕ × Peer
unfolding read_socket_loop
read_socket p read_size = read_socket_loop (suc read_size) p read_size []

-- The string in a block of zeros into which bytes were read, one more than fit.
abbrev pub c_string : List ℕ → List ℕ
c_string [] = []
c_string (zero ∷ bytes) = []
c_string (suc b ∷ bytes) = suc b ∷ c_string bytes

module _ (h : HashTable Entry) where
  -- A block of zeros, which holds the empty string.
  unfoldable pub alloc_string : R h ℕ
  alloc_string s =
      ok (s.next, record s { next = s.next + 1; strings = update s.strings s.next (some []) })

  unfoldable pub store_string : ℕ → List ℕ → R h (Unit {0})
  store_string p text =
      modify (λ (s : Registry h). record s { strings = update s.strings p (some text) })

  -- The rest of a turn once the id was read, and once the token was; `none` is `exit(1)`.
  unfoldable pub take_id : ℕ → ℕ → ℕ → List ℕ × Peer → R h (Option Peer)
  take_id now token id ([], p) = pure none
  take_id now token id (b ∷ name, p) = do
    store_string id (c_string (b ∷ name))
    _ ← awaiting_connections_table_insert h now token id
    awaiting_connections_table_print_all h
    pure (some p)

  unfoldable pub take_token : ℕ → ℕ → ℕ → List ℕ × Peer → R h (Option Peer)
  take_token now token id ([], p) = pure none
  take_token now token id (b ∷ code, p) = do
    store_string token (c_string (b ∷ code))
    take_id now token id (read_socket p id_size)

  -- One turn of the loop of `start_auth_reciever`, at the time `now`.
  unfoldable pub receive_round : ℕ → Peer → R h (Option Peer)
  receive_round now p = do
    id ← alloc_string
    token ← alloc_string
    take_token now token id (read_socket p token_size)

  -- As many turns of the loop as there are times, unless the process exits.
  unfoldable pub receive_rounds : List ℕ → Peer → R h (Option Peer)
  receive_rounds [] p = pure (some p)
  receive_rounds (now ∷ nows) p = do
    left ← receive_round now p
    elim left [ none ↦ pure none | some q ↦ receive_rounds nows q ]
