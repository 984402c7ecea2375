-- ===== src/World/Startup/Serves.antt =====
-- What the server starts with, and what that gives all that follows.
use mmo_backend.Base.{
  ℕ, ◌≡◌, refl, Bool, false, Option, none, List, [], ◌∷◌, length, replicate, ok, fault,
  null_pointer, arith,
}
use mmo_backend.Base.Actions.{◌>>=◌}
use mmo_backend.Maps.{map_count}
use mmo_backend.Tables.{HashTable}
use mmo_backend.Base.Handles.{Handles}
use mmo_backend.Db.{Driver, MongoConnection, db_connect}
use mmo_backend.Db.Leftovers.{all_answered, db_connect-total, db_connect-failed}
use mmo_backend.World.State.{World}
use mmo_backend.World.Cache.{player_cache_init}
use mmo_backend.World.Handlers.{Services}
use mmo_backend.World.Keeps.{IsWellFormed}
use mmo_backend.World.Keeps.Handling.{KeepsState}
use mmo_backend.World.Runs.{Reach, Reach-IsWellFormed}
use mmo_backend.World.Startup.{
  lock_init_loop, map_lock_init, static_world, Process, main, cleanup, init_locks, keep_connection,
  free_global, is_connected,
}

two : (locks : List Bool) → length locks ≡ map_count → (a b : Bool) × (locks ≡ a ∷ b ∷ [])
two [] e = absurd (omega arith)
two (a ∷ []) e = absurd (omega arith)
two (a ∷ b ∷ []) e = (a, b, refl)
two (a ∷ b ∷ c ∷ locks) e = absurd (omega arith)

all_free :
    (locks : List Bool)
    → length locks ≡ map_count
    → lock_init_loop map_count 0 locks ≡ ok (replicate map_count false)
unfolding lock_init_loop
all_free locks e = let (a, b, same) = two locks e in rw same refl

-- The server with its locks free, and a connection or none.
abbrev pub ready : Bool → World
ready database = record (static_world (replicate map_count false)) { database = database }

ready-IsWellFormed : (database : Bool) → IsWellFormed (ready database)
ready-IsWellFormed database = record {
  sound = λ a m e. absurd (ground (arith, e));
  locks = refl;
  tiles = refl;
}

module _ (h : HashTable ℕ) where
  -- The process before `main`.
  abbrev pub loaded : List Bool → h.Table → Handles → Process h
  loaded locks cache handles = record {
    served = record { world = static_world locks; cache = cache };
    handles = handles;
    global_connection = none;
  }

  abbrev pub started : Handles → Option MongoConnection → Process h
  started handles conn = record {
    served = record { world = ready (is_connected h conn); cache = h.empty };
    handles = handles;
    global_connection = conn;
  }

  module _ (driver : Driver) (created : Bool) (locks : List Bool) (cache : h.Table)
      (handles : Handles) (size : length locks ≡ map_count) where
    main-started :
        (conn : Option MongoConnection) (left : Handles)
        → db_connect driver handles ≡ ok (conn, left)
        → main h driver created (loaded locks cache handles) ≡ ok (created, started left conn)
    unfolding main init_locks map_lock_init player_cache_init keep_connection
    main-started conn left e = ground (arith, all_free locks size, e)

    -- From the state that the loader leaves, main ends its preparation without a fault, whatever
    -- the driver answers, and from then on, with services that keep the server well formed,
    -- every state that is reached by sessions that are created, served packets and destroyed is
    -- well formed.
    pub main-Reach :
        (services : Services)
        → KeepsState services
        → (p : Process h) × (main h driver created (loaded locks cache handles) ≡ ok (created, p))
          × ((v : World) → Reach services p.served.world v → IsWellFormed v)
    main-Reach services k =
        let (conn, left, e) = db_connect-total driver handles in
        (
          started left conn,
          main-started conn left e,
          λ v r. Reach-IsWellFormed services k r (ready-IsWellFormed (is_connected h conn)),
        )

    -- When a call of the driver fails at the start, the server starts all the same, and the
    -- cleanup of it reads a null pointer.
    pub cleanup-unconnected :
        all_answered driver ≡ false
        → ((main h driver created >>= λ _. cleanup h) (loaded locks cache handles))
          ≡ fault null_pointer
    unfolding cleanup free_global
    cleanup-unconnected e =
        ground (arith, main-started none _ (db_connect-failed driver handles e).1)
