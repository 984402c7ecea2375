-- ===== src/Awaiting.antt =====
-- The connections that wait for their client: a table from tokens to ids and times
-- (backend/authentication/awaiting-connections.c). A token and an id are blocks that the caller
-- allocated, and the table keeps the pointers.
pub mod Shows
pub mod Inserting
pub mod Removing
pub mod Cleaning
pub mod Printing
use mmo_backend.Base.{
  ℕ, ◌+◌, ◌*◌, ◌==◌, leb, if◌then◌else◌, ◌&&◌, Bool, true, false, Option, none, some, List, [], ◌∷◌,
  Result, ok, fault, Fault, dangling, invalid_iteration,
}
use mmo_backend.Base.Actions.{Action, pure, fail, gets, need, modify, ◌>>=◌, ◌>>◌}
use mmo_backend.Tables.{HashTable}
use mmo_backend.World.State.{update}

-- The times are seconds of `time`, far below the greatest `time_t`.
pub record AwaitingConnection : Type 0 where
  pub id : ℕ
  pub expiration : ℕ

-- What the table holds at a key: the pointer to the token it was inserted under, and the pointer
-- to the connection.
pub record Entry : Type 0 where
  pub token : ℕ
  pub connection : ℕ

abbrev pub time_to_live : ℕ
time_to_live = 5 * 60

module _ (h : HashTable Entry) where
  -- `strings` and `connections` are the blocks of the heap; what was freed is `none`.
  pub record Registry : Type 0 where
    pub next : ℕ
    pub strings : ℕ → Option (List ℕ)
    pub connections : ℕ → Option AwaitingConnection
    pub table : h.Table

  abbrev pub R : Type 0 → Type 0
  R A = Action Registry A

  unfoldable pub load_string : ℕ → R (List ℕ)
  load_string p = gets (λ (s : Registry). s.strings p) >>= λ found. need found dangling

  unfoldable pub free_string : ℕ → R (Unit {0})
  unfolding load_string
  free_string p = do
    _ ← load_string p
    modify (λ (s : Registry). record s { strings = update s.strings p none })

  unfoldable pub load_connection : ℕ → R AwaitingConnection
  load_connection p = gets (λ (s : Registry). s.connections p) >>= λ found. need found dangling

  unfoldable pub free_connection : ℕ → R (Unit {0})
  unfolding load_connection
  free_connection p = do
    _ ← load_connection p
    modify (λ (s : Registry). record s { connections = update s.connections p none })

  unfoldable pub awaiting_connection_destroy : ℕ → R (Unit {0})
  unfolding load_connection free_string
  awaiting_connection_destroy p = do conn ← load_connection p; free_string conn.id

  abbrev awaiting_connection : ℕ → ℕ → AwaitingConnection
  awaiting_connection id now = record { id = id; expiration = now + time_to_live }

  -- The block for the new connection, filled in.
  unfoldable pub new_connection : ℕ → ℕ → R ℕ
  new_connection id now s = ok (
    s.next,
    record s {
      next = s.next + 1;
      connections = update s.connections s.next (some (awaiting_connection id now));
    },
  )

  unfoldable pub lookup_key : List ℕ → R (Option Entry)
  lookup_key key = gets (λ (s : Registry). h.lookup s.table key)

  unfoldable pub put_entry : List ℕ → ℕ → ℕ → R (Unit {0})
  put_entry key token conn = modify (λ (s : Registry). record s {
    table = h.insert s.table key (record { token = token; connection = conn });
  })

  -- Under a key that is taken the table keeps the token it has and destroys the value it had.
  unfoldable pub replace_entry : List ℕ → ℕ → Option Entry → ℕ → R (Unit {0})
  unfolding put_entry awaiting_connection_destroy
  replace_entry key token none conn = put_entry key token conn
  replace_entry key token (some old) conn = do
    put_entry key old.token conn
    awaiting_connection_destroy old.connection

  -- What is freed when the token was taken already.
  unfoldable pub tear_down : ℕ → ℕ → Option Entry → R Bool
  unfolding free_string free_connection awaiting_connection_destroy
  tear_down token conn none = pure true
  tear_down token conn (some old) = do
    free_string token
    awaiting_connection_destroy conn
    free_connection conn
    pure false

  -- The last message reads the token, freed or not.
  unfoldable pub awaiting_connections_table_insert : ℕ → ℕ → ℕ → R Bool
  unfolding new_connection load_string lookup_key replace_entry tear_down
  awaiting_connections_table_insert now token id = do
    conn ← new_connection id now
    key ← load_string token
    old ← lookup_key key
    replace_entry key token old conn
    success ← tear_down token conn old
    _ ← load_string token
    pure success

  -- `g_hash_table_remove`, and whether the key was there.
  unfoldable pub remove_entry : List ℕ → Option Entry → R Bool
  unfolding awaiting_connection_destroy
  remove_entry key none = pure false
  remove_entry key (some old) = do
    modify (λ (s : Registry). record s { table = h.remove s.table key })
    awaiting_connection_destroy old.connection
    pure true

  unfoldable pub awaiting_connections_table_remove : ℕ → Bool → R Bool
  unfolding load_string lookup_key remove_entry free_string
  awaiting_connections_table_remove token remove_token = do
    key ← load_string token
    old ← lookup_key key
    success ← remove_entry key old
    elim success [
      | true ↦ elim remove_token [ true ↦ (do free_string token; pure true) | false ↦ pure true ]
      | false ↦ pure false
    ]

  unfoldable pub entry_id : Option Entry → R (Option ℕ)
  unfolding load_connection
  entry_id none = pure none
  entry_id (some found) = do conn ← load_connection found.connection; pure (some conn.id)

  unfoldable pub awaiting_connections_table_find : ℕ → R (Option ℕ)
  unfolding load_string lookup_key entry_id
  awaiting_connections_table_find key = do
    text ← load_string key
    found ← lookup_key text
    entry_id found

  -- `awaiting_connections_table_init`; `false` is `exit(1)`. The arguments say whether the lock, the table
  -- and the thread could be made.
  unfoldable pub awaiting_connections_table_init : Bool → Bool → Bool → R Bool
  awaiting_connections_table_init locked made started =
      if locked && made
      then (do modify (λ (s : Registry). record s { table = h.empty }); pure started)
      else pure false

  -- The table's values are destroyed, and the table with them.
  unfoldable pub destroy_each : List (List ℕ × Entry) → R (Unit {0})
  unfolding awaiting_connection_destroy
  destroy_each [] = pure tt
  destroy_each ((key, entry) ∷ rest) = do
    awaiting_connection_destroy entry.connection
    destroy_each rest

  unfoldable pub awaiting_connections_table_destroy : R (Unit {0})
  unfolding destroy_each
  awaiting_connections_table_destroy = do
    entries ← gets (λ (s : Registry). h.entries s.table)
    destroy_each entries
    modify (λ (s : Registry). record s { table = h.empty })

  -- What is printed is the token and the id of each entry.
  unfoldable pub awaiting_connections_print_connection : Entry → R (Unit {0})
  unfolding load_string load_connection
  awaiting_connections_print_connection entry = do
    _ ← load_string entry.token
    conn ← load_connection entry.connection
    _ ← load_string conn.id
    pure tt

  unfoldable pub print_each : List (List ℕ × Entry) → R (Unit {0})
  print_each [] = pure tt
  print_each ((key, entry) ∷ rest) = do awaiting_connections_print_connection entry; print_each rest

  unfoldable pub awaiting_connections_table_print_all : R (Unit {0})
  awaiting_connections_table_print_all s = print_each (h.entries s.table) s

  -- The answer says whether the entry was removed.
  unfoldable pub awaiting_connections_table_check_if_expired : ℕ → Entry → R Bool
  unfolding load_connection awaiting_connections_table_remove
  awaiting_connections_table_check_if_expired now entry = do
    conn ← load_connection entry.connection
    (if leb conn.expiration now
        then awaiting_connections_table_remove entry.token true
        else pure false)

  -- `g_hash_table_foreach` with that function: the table must not change on the way.
  unfoldable pub check_each : ℕ → List (List ℕ × Entry) → R (Unit {0})
  unfolding awaiting_connections_table_check_if_expired
  check_each now [] = pure tt
  check_each now ((key, entry) ∷ rest) = do
    removed ← awaiting_connections_table_check_if_expired now entry
    elim removed [ true ↦ fail invalid_iteration | false ↦ check_each now rest ]

  -- One turn of the thread `awaiting_connections_table_cleaner`, `now` being what `time` says.
  unfoldable pub cleaner_turn : ℕ → R (Unit {0})
  unfolding check_each
  cleaner_turn now s = check_each now (h.entries s.table) s
