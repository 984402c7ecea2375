-- ===== src/World/Loading.antt =====
-- Loading and unloading maps, and letting go of players: `map_load`, `map_unload` and `map_free` of
-- backend/maps/map.c, `player_free` and `player_ref` of backend/player/player.c.
use mmo_backend.Base.{
  ℕ, zero, suc, ◌+◌, ltb, if◌then◌else◌, true, false, not, Option, none, some, List, [], ◌∷◌,
  get_elem?, set, ok, fault, out_of_fuel, deadlock, out_of_bounds, null_pointer,
}
use mmo_backend.Base.Int.{ℤ, pos, negsuc, ◌+ℤ◌, ◌-ℤ◌, ltb_ℤ, eqb_ℤ}
use mmo_backend.Maps.{Map, map_count, map_def_test_tile, map_def_test_tile_2}
use mmo_backend.World.State.{
  Player, M, pure, fail, ◌>>=◌, ◌>>◌, need, guard, get_world, update, load_map, store_map,
  load_player, store_player,
}

-- `map_loaders`
unfoldable pub map_loader : ℕ → Map
map_loader zero = map_def_test_tile
map_loader (suc i) = map_def_test_tile_2

-- The locks of `map_locks` and of the player cache: taking one that is held never returns.
unfoldable pub lock_map : ℕ → M (Unit {0})
lock_map i = do
  w ← get_world
  held ← need (get_elem? w.map_locks i) out_of_bounds
  guard (not held) deadlock
  λ v. ok (tt, record v { map_locks = set v.map_locks i true })

unfoldable pub unlock_map : ℕ → M (Unit {0})
unlock_map i w = ok (tt, record w { map_locks = set w.map_locks i false })

unfoldable pub player_cache_lock : M (Unit {0})
player_cache_lock w =
    if w.cache_lock then fault deadlock else ok (tt, record w { cache_lock = true })

unfoldable pub player_cache_unlock : M (Unit {0})
player_cache_unlock w = ok (tt, record w { cache_lock = false })

-- The address at `tiles[i]`; a map that is not there is made and put there.
unfoldable pub load_tile : ℕ → M ℕ
load_tile i = do
  w ← get_world
  tile ← need (get_elem? w.tiles i) out_of_bounds
  elim tile [
    | some a ↦ pure a
    | none ↦ λ v. ok (
      v.next,
      record v {
        next = v.next + 1;
        maps = update v.maps v.next (some (map_loader i));
        tiles = set v.tiles i (some v.next);
      },
    )
  ]

-- The test on a map's number, which lets `MAP_COUNT` itself pass.
abbrev pub map_number : ℤ → Option ℕ
map_number (pos i) = if ltb map_count i then none else some i
map_number (negsuc i) = none

unfoldable pub map_load : ℤ → M (Option ℕ)
unfolding lock_map unlock_map load_tile
map_load id = elim (map_number id) [
  | none ↦ pure none
  | some i ↦ do
    lock_map i
    a ← load_tile i
    m ← load_map a
    store_map a (record m { refs = m.refs +ℤ pos 1 })
    unlock_map i
    pure (some a)
]

-- `map_free` gives each player up by `free_player`.
unfoldable pub free_players : (ℕ → M (Unit {0})) → List ℕ → M (Unit {0})
free_players free_player [] = pure tt
free_players free_player (p ∷ ps) = do free_player p; free_players free_player ps

unfoldable pub map_free : (ℕ → M (Unit {0})) → ℕ → M (Unit {0})
unfolding free_players
map_free free_player a = do
  m ← load_map a
  free_players free_player m.players
  λ w. ok (tt, record w { maps = update w.maps a none })

-- The reference that is given up, and the map with the last one.
unfoldable pub drop_ref : (ℕ → M (Unit {0})) → ℕ → ℕ → M (Unit {0})
unfolding map_free
drop_ref free_player i a = do
  lock_map i
  m ← load_map a
  let left = m.refs -ℤ pos 1
  store_map a (record m { refs = left })
  if eqb_ℤ left (pos 0)
      then (do map_free free_player a; λ w. ok (tt, record w { tiles = set w.tiles i none }))
      else pure tt
  unlock_map i

unfoldable pub map_unload_by : (ℕ → M (Unit {0})) → ℤ → M (Unit {0})
unfolding drop_ref
map_unload_by free_player id = elim (map_number id) [
  | none ↦ pure tt
  | some i ↦ do
    w ← get_world
    tile ← need (get_elem? w.tiles i) out_of_bounds
    elim tile [ none ↦ pure tt | some a ↦ drop_ref free_player i a ]
]

-- The update that is sent to the database reads the player's id and name, and its map; it is sent over
-- `GLOBAL_CONNECTION`.
unfoldable pub db_player_write_player : Player → M (Unit {0})
db_player_write_player p = do
  a ← need p.map null_pointer
  m ← load_map a
  w ← get_world
  guard w.database null_pointer
  λ w. ok (tt, record w { saved = p ∷ w.saved })

-- What `player_free` does with the last reference, before the cache lock is released.
unfoldable pub release_player : (ℕ → M (Unit {0})) → Player → M (Unit {0})
unfolding map_unload_by
release_player free_player p = do
  (if p.modified then db_player_write_player p else pure tt)
  elim p.map [ none ↦ pure tt | some a ↦ do m ← load_map a; map_unload_by free_player (pos m.id) ]

-- `player_free` on fuel, which bounds how deep it calls itself through `map_unload`.
unfoldable pub player_free : ℕ → ℕ → M (Unit {0})
player_free zero a = fail out_of_fuel
player_free (suc fuel) a = do
  player_cache_lock
  p ← load_player a
  let left = p.refs -ℤ pos 1
  store_player a (record p { refs = left })
  if ltb_ℤ (pos 0) left then player_cache_unlock else (do
    release_player (player_free fuel) p
    player_cache_unlock
    λ w. ok (tt, record w { players = update w.players a none }))

-- A call of `player_free` inside another meets the cache lock: more fuel changes nothing.
abbrev pub free_depth : ℕ
free_depth = 2

unfoldable pub map_unload : ℤ → M (Unit {0})
map_unload = map_unload_by (player_free free_depth)

unfoldable pub player_ref : ℕ → M (Unit {0})
player_ref a = do p ← load_player a; store_player a (record p { refs = p.refs +ℤ pos 1 })
