-- ===== src/World/Moves.antt =====
-- What a walk on one map does: `player_move` without a change of map.
use mmo_backend.Base.{
  ℕ, suc, ◌<◌, ◌≡◌, ◌∙◌, Bool, true, false, none, some, ok, arith, if◌then◌else◌, ◌^◌, lt→ltb,
}
use mmo_backend.Base.Int.{ℤ, pos, leb_ℤ}
use mmo_backend.Movement.{movement_check_valid}
use mmo_backend.Movement.Distance.{taxicab, movement_check_valid-taxicab}
use mmo_backend.Maps.{Map}
use mmo_backend.Maps.Collision.{map_check_bounds, map_coord_is_walkable, map_toggle_coord}
use mmo_backend.Maps.Collision.Grid.{IsGrid, map_toggle_coord-taken, check_bounds_inside}
use mmo_backend.World.State.{World, Player, M, load_map, store_map, load_player, update}
use mmo_backend.World.Placement.{MoveArgs, player_move, move_by, within_reach, toggle_at}

-- The arguments of a move packet.
abbrev pub walk : Bool → MoveArgs
walk suppress = record { suppress_events = suppress; overlap = false; map = none }

-- A player that stands on a map.
pub record StandsOn (w : World) (player : ℕ) (p : Player) (a : ℕ) (m : Map) : Type 0 where
  pub player_eq : w.players player ≡ some p
  pub map_eq : p.map ≡ some a
  pub tile_eq : w.maps a ≡ some m
  pub grid : IsGrid m

module _ (w : World) (player : ℕ) (p : Player) (a : ℕ) (m : Map) (h : StandsOn w player p a m) where
  pub reach_eq :
      (x y : ℤ) (s b : Bool)
      → movement_check_valid p.max_move p.x p.y x y ≡ ok b
      → within_reach player x y (walk s) w ≡ ok (b, w)
  unfolding within_reach load_player
  reach_eq x y s b e = ground (arith, h.player_eq)

  pub toggle_eq :
      (x y : ℤ) (d : Bool) (answer : Bool) (m' : Map)
      → map_toggle_coord m x y d ≡ ok (answer, m')
      → toggle_at (some a) x y d w
        ≡ ok (answer, if answer then record w { maps = update w.maps a (some m') } else w)
  unfolding toggle_at load_map store_map
  toggle_eq x y d true m' e = ground (arith, h.tile_eq)
  toggle_eq x y d false m' e = ground (arith, h.tile_eq)

module _ (w : World) (player : ℕ) (p : Player) (a : ℕ) (m : Map) (h : StandsOn w player p a m)
    (activate : ℕ → ℤ → ℤ → ℕ → M (Unit {0})) where
  too_far :
      (x y : ℤ) (s : Bool)
      → movement_check_valid p.max_move p.x p.y x y ≡ ok false
      → move_by activate player x y (walk s) w ≡ ok (false, w)
  unfolding move_by load_player
  too_far x y s e = ground (arith, h.player_eq, reach_eq w player p a m h x y s false)

  outside :
      (x y : ℤ) (s : Bool)
      → movement_check_valid p.max_move p.x p.y x y ≡ ok true
      → map_check_bounds m x y ≡ false
      → move_by activate player x y (walk s) w ≡ ok (false, w)
  unfolding move_by load_player load_map
  outside x y s e b =
      ground (arith, h.player_eq, h.map_eq, h.tile_eq, reach_eq w player p a m h x y s true)

  occupied :
      (x y : ℤ) (s : Bool)
      → movement_check_valid p.max_move p.x p.y x y ≡ ok true
      → map_check_bounds m x y ≡ true
      → map_toggle_coord m x y true ≡ ok (false, m)
      → move_by activate player x y (walk s) w ≡ ok (false, w)
  unfolding move_by load_player load_map
  occupied x y s e b t = ground (
    arith,
    h.player_eq,
    h.map_eq,
    h.tile_eq,
    reach_eq w player p a m h x y s true,
    toggle_eq w player p a m h x y true false m,
  )

-- What may stop a walk from a player's place to a target on its map.
pub data Obstacle (p : Player) (m : Map) (x y : ℤ) : Type 0 where
  far :
      taxicab p.x p.y x y < 2 ^ 31
      → leb_ℤ (pos (taxicab p.x p.y x y)) p.max_move ≡ false
      → Obstacle p m x y
  off_map :
      taxicab p.x p.y x y < 2 ^ 31
      → leb_ℤ (pos (taxicab p.x p.y x y)) p.max_move ≡ true
      → map_check_bounds m x y ≡ false
      → Obstacle p m x y
  taken :
      (u v : ℕ)
      → x ≡ pos u
      → y ≡ pos v
      → u < m.width
      → v < m.height
      → taxicab p.x p.y x y < 2 ^ 31
      → leb_ℤ (pos (taxicab p.x p.y x y)) p.max_move ≡ true
      → map_coord_is_walkable m (pos u) (pos v) ≡ ok false
      → Obstacle p m x y

pub valid_eq :
    (p : Player) (x y : ℤ) (b : Bool)
    → taxicab p.x p.y x y < 2 ^ 31
    → leb_ℤ (pos (taxicab p.x p.y x y)) p.max_move ≡ b
    → movement_check_valid p.max_move p.x p.y x y ≡ ok b
valid_eq p x y b near e =
    movement_check_valid-taxicab p.max_move p.x p.y x y
    ∙ rw (lt→ltb (taxicab p.x p.y x y) (2 ^ 31) near, e)

module _ (w : World) (player : ℕ) (p : Player) (a : ℕ) (m : Map) (h : StandsOn w player p a m) where
  -- A walk by a player that stands on a map, to a target that is out of reach, off the map or
  -- taken, its distance an int, is refused without a fault and leaves the whole server as it
  -- was.
  pub player_move-refused :
      (fuel : ℕ) (x y : ℤ) (suppress : Bool)
      → Obstacle p m x y
      → player_move (suc fuel) player x y (walk suppress) w ≡ ok (false, w)
  unfolding player_move
  player_move-refused fuel x y s (far near e) =
      too_far w player p a m h _ x y s (valid_eq p x y false near e)
  player_move-refused fuel x y s (off_map near e b) =
      outside w player p a m h _ x y s (valid_eq p x y true near e) b
  player_move-refused fuel x y s (taken u v ex ey hu hv near e c) =
      occupied w player p a m h _ x y s (valid_eq p x y true near e)
        (rw (ex, ey, check_bounds_inside m u v h.grid hu hv))
        (rw (ex, ey, map_toggle_coord-taken m u v h.grid hu hv c))
