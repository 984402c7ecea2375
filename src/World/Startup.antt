-- ===== src/World/Startup.antt =====
-- backend/main.c, up to where the web server starts, and `map_lock_init` of backend/maps/map.c.
pub mod Serves
use mmo_backend.Base.{
  ℕ, zero, suc, ◌+◌, ltb, if◌then◌else◌, Bool, true, false, Option, none, some, List, set, length,
  replicate, Result, ok, fault, out_of_bounds, null_pointer,
}
use mmo_backend.Base.Int.{pos}
use mmo_backend.Base.Actions.{Action, pure, fail, gets, ◌>>=◌, ◌>>◌}
use mmo_backend.Maps.{map_count}
use mmo_backend.Tables.{HashTable}
use mmo_backend.Base.Handles.{Handles}
use mmo_backend.Db.{Driver, MongoConnection, db_connect, db_free}
use mmo_backend.World.State.{World, M}
use mmo_backend.World.Cache.{Cached, player_cache_init}

-- The loop of `map_lock_init` at index `i`, with `left` rounds to go.
unfoldable pub lock_init_loop : ℕ → ℕ → List Bool → Result (List Bool)
lock_init_loop zero i locks = ok locks
lock_init_loop (suc left) i locks =
    if ltb i (length locks)
    then lock_init_loop left (i + 1) (set locks i false)
    else fault out_of_bounds

unfoldable pub map_lock_init : M (Unit {0})
map_lock_init w = elim (lock_init_loop map_count 0 w.map_locks) [
  | ok locks ↦ ok (tt, record w { map_locks = locks })
  | fault e ↦ fault e
]

-- What the loader leaves: static storage that is zero, and locks in whatever state.
abbrev pub static_world : List Bool → World
static_world locks = record {
  next = 0;
  maps = λ a. none;
  players = λ a. none;
  sessions = λ a. none;
  tiles = replicate map_count none;
  map_locks = locks;
  cache_lock = false;
  database = false;
  sent = List.[];
  saved = List.[];
  closed = List.[];
  packet_errno = pos 0;
}

module _ (h : HashTable ℕ) where
  -- The process: the server with its cache, the objects of the driver, and `GLOBAL_CONNECTION`.
  pub record Process : Type 0 where
    pub served : Cached h
    pub handles : Handles
    pub global_connection : Option MongoConnection

  abbrev in_served : {A : Type 0} → Action (Cached h) A → Action Process A
  in_served m p = elim (m p.served) [
    | ok (a, s) ↦ ok (a, record p { served = s })
    | fault e ↦ fault e
  ]

  abbrev with_driver : {A : Type 0} → Action Handles A → Action Process A
  with_driver m p = elim (m p.handles) [
    | ok (a, s) ↦ ok (a, record p { handles = s })
    | fault e ↦ fault e
  ]

  unfoldable pub init_locks : Action (Cached h) (Unit {0})
  init_locks s = elim (map_lock_init s.world) [
    | ok (_, w) ↦ ok (tt, record s { world = w })
    | fault e ↦ fault e
  ]

  abbrev pub is_connected : Option MongoConnection → Bool
  is_connected none = false
  is_connected (some conn) = true

  unfoldable pub keep_connection : Option MongoConnection → Action Process (Unit {0})
  keep_connection conn p = ok (
    tt,
    record p {
      global_connection = conn;
      served = record p.served { world = record p.served.world { database = is_connected conn } };
    },
  )

  -- Whether the web server starts, which it does when the thread of the authentication receiver
  -- could be created.
  unfoldable pub main : Driver → Bool → Action Process Bool
  main driver created = do
    in_served init_locks
    in_served (player_cache_init h)
    conn ← with_driver (db_connect driver)
    keep_connection conn
    pure created

  unfoldable pub free_global : Option MongoConnection → Action Process (Unit {0})
  free_global none = fail null_pointer
  free_global (some conn) = with_driver (db_free conn)

  unfoldable pub cleanup : Action Process (Unit {0})
  cleanup = do conn ← gets (λ (p : Process). p.global_connection); free_global conn
