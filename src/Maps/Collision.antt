-- ===== src/Maps/Collision.antt =====
-- The collision bitmap of backend/maps/map.c: one bit for each coordinate, eight to a segment.
pub mod Segments
pub mod Grid
pub mod Refinement
pub mod Create
use mmo_backend.Base.{
  ℕ, ◌-◌, ◌^◌, ◌%◌, bit_and, bit_or, ◌==◌, if◌then◌else◌, ltb, Bool, true, false, not, ◌&&◌, ◌||◌,
  Option, none, some, List, [], ◌∷◌, get_elem?, set, Result, ok, fault, ◌>>=◌, or_fault,
  out_of_bounds, u8, u32,
}
use mmo_backend.Base.Int.{ℤ, pos, negsuc, ltb_ℤ, leb_ℤ}
use mmo_backend.Maps.{Map, map_get_segments}

-- An array is read and written at a signed index; outside the array that is a fault.
module _ {A : Type 0} where
  abbrev pub load_at : List A → ℤ → Result A
  load_at xs (pos i) = or_fault (get_elem? xs i) out_of_bounds
  load_at xs (negsuc i) = fault out_of_bounds

  abbrev pub store_at : List A → ℤ → A → List A
  store_at xs (pos i) a = set xs i a
  store_at xs (negsuc i) a = xs

-- `1 << (x & 7)`; the low bits of a negative number are those of its two's complement.
unfoldable pub bit_of : ℤ → ℕ
bit_of (pos n) = 2 ^ (n % 8)
bit_of (negsuc n) = 2 ^ (7 - n % 8)

unfoldable pub map_coord_is_walkable : Map → ℤ → ℤ → Result Bool
map_coord_is_walkable map x y = do
  row ← load_at map.collision y
  segment ← load_at row (map_get_segments x)
  ok (bit_and segment (bit_of x) == 0)

unfoldable pub map_check_bounds : Map → ℤ → ℤ → Bool
map_check_bounds map x y =
    leb_ℤ (pos 0) x && ltb_ℤ x (pos map.width) && leb_ℤ (pos 0) y && ltb_ℤ y (pos map.height)

-- `|= bit`, or `&= ~bit` where `~` is that of an `int`; the segment is an unsigned char.
unfoldable pub toggle_bit : Bool → ℕ → ℕ → ℕ
toggle_bit true segment bit = u8 (bit_or segment bit)
toggle_bit false segment bit = u8 (bit_and segment (2 ^ 32 - 1 - bit))

-- Setting the bit of a coordinate that passed the tests.
unfoldable pub toggle_segment : Map → ℤ → ℤ → Bool → Result Map
unfolding toggle_bit
toggle_segment map x y disable = do
  row ← load_at map.collision y
  let i = map_get_segments x
  segment ← load_at row i
  ok (record map {
    collision = store_at map.collision y (store_at row i (toggle_bit disable segment (bit_of x)));
  })

-- Returns whether the coordinate was changed, and the map.
unfoldable pub map_toggle_coord : Map → ℤ → ℤ → Bool → Result (Bool × Map)
unfolding toggle_segment
map_toggle_coord map x y disable =
    if leb_ℤ (pos map.height) y || ltb_ℤ y (pos 0) || leb_ℤ (pos map.width) x || ltb_ℤ x (pos 0)
    then ok (false, map)
    else do
      walkable ← map_coord_is_walkable map x y
      if disable && not walkable
          then ok (false, map)
          else (do map' ← toggle_segment map x y disable; ok (true, map'))

unfoldable pub map_enable_coord : Map → ℤ → ℤ → Result (Bool × Map)
unfolding map_toggle_coord
map_enable_coord map x y = map_toggle_coord map x y false

unfoldable pub map_disable_coord : Map → ℤ → ℤ → Result (Bool × Map)
unfolding map_toggle_coord
map_disable_coord map x y = map_toggle_coord map x y true
