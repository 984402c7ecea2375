-- ===== src/World/Events.antt =====
-- How deep a move can set off moves: the events of backend/maps/map-definitions.c.
use mmo_backend.Base.{ℕ, zero, suc, ◌≡◌, refl, true, Option, arith}
use mmo_backend.Base.Int.{ℤ, pos}
use mmo_backend.Maps.{map_def_test_tile, map_def_test_tile_2}
use mmo_backend.World.State.{World}
use mmo_backend.World.Loading.{map_loader}
use mmo_backend.World.Placement.{
  move_by, arrive, player_move, spawn_by, change_map_by, run_event, run_events,
}

module _ (f g : ℕ) where
  -- A move that suppresses events needs no fuel for them.
  suppressed :
      (player : ℕ) (x y : ℤ) (overlap : _) (map : Option ℕ) (w : World)
      → player_move
          (suc f)
          player
          x
          y
          (record { suppress_events = true; overlap = overlap; map = map })
          w
        ≡ player_move
            (suc g)
            player
            x
            y
            (record { suppress_events = true; overlap = overlap; map = map })
            w
  unfolding player_move move_by arrive
  suppressed player x y overlap map w = refl

  -- So does a spawn with an odd `suppress`.
  spawn_suppressed :
      (id : ℤ) (player : ℕ) (x y : ℤ) (w : World)
      → spawn_by (player_move (suc f)) id player x y (pos 5) w
        ≡ spawn_by (player_move (suc g)) id player x y (pos 5) w
  unfolding spawn_by player_move move_by arrive
  spawn_suppressed id player x y w = refl

  -- The events of either map of map-definitions.c, run for any player at any place, do the same
  -- whatever the fuel of the moves that they set off, if it is not zero: no such move sets off
  -- another.
  pub run_events-map_loader :
      (i : ℕ) (player : ℕ) (x y : ℤ) (w : World)
      → run_events (spawn_by (player_move (suc f))) player x y (map_loader i).events w
        ≡ run_events (spawn_by (player_move (suc g))) player x y (map_loader i).events w
  unfolding run_events run_event change_map_by map_loader map_def_test_tile map_def_test_tile_2
  run_events-map_loader zero player x y w =
      ground (arith, spawn_suppressed (pos 1) player (pos 0) (pos 5) w)
  run_events-map_loader (suc i) player x y w =
      ground (arith, spawn_suppressed (pos 0) player (pos 31) (pos 5) w)
