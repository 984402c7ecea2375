-- ===== src/Maps.antt =====
-- The tile map of backend/maps: its record, its construction (map.c) and the two maps of
-- map-definitions.c. A player or session pointer is an address, a number; a linked list is the
-- list of its payloads. The locks of a map and of its rows are not fields: `World` says why.
pub mod Collision
use mmo_backend.Base.{
  ℕ, ◌+◌, ◌-◌, ◌*◌, ◌/◌, Bool, true, false, Option, none, some, List, [], ◌∷◌, set, replicate,
}
use mmo_backend.Base.Int.{ℤ, pos, negsuc}

-- The function pointer of an event.
pub data EventFunc : Type 0 where
  hello goodbye change_map : EventFunc

pub record MapEvent : Type 0 where
  pub x : ℤ
  pub y : ℤ
  pub static_args : Option (List ℤ)
  pub func : EventFunc

pub record Map : Type 0 where
  pub width : ℕ
  pub height : ℕ
  pub id : ℕ
  pub refs : ℤ
  pub collision : List (List ℕ)
  pub decor : List ℕ
  pub players : List ℕ
  pub events : List MapEvent

-- `width >> 3`, which rounds down.
unfoldable pub map_get_segments : ℤ → ℤ
map_get_segments (pos n) = pos (n / 8)
map_get_segments (negsuc n) = negsuc (n / 8)

-- The segments of a fresh row, all zero.
unfoldable pub map_row_create : ℕ → List ℕ
map_row_create width = replicate (width / 8) 0

abbrev pub grass : ℕ
grass = b'-'

unfoldable pub map_create : ℕ → ℕ → ℕ → Map
unfolding map_row_create
map_create id width height = record {
  width = width;
  height = height;
  id = id;
  refs = pos 0;
  collision = replicate height (map_row_create width);
  decor = replicate (height * width) grass;
  players = [];
  events = [];
}

unfoldable pub map_event_create : ℤ → ℤ → Option (List ℤ) → EventFunc → MapEvent
map_event_create x y args func = record { x = x; y = y; static_args = args; func = func }

unfoldable pub map_add_event : Map → MapEvent → Map
map_add_event map event = record map { events = event ∷ map.events }

abbrev pub map_count : ℕ
map_count = 2

abbrev pub map_test : ℕ
map_test = 0

abbrev pub map_test_2 : ℕ
map_test_2 = 1

abbrev pub door : ℕ
door = b'x'

-- `map_change_args`: the target map, its coordinates, and whether events are suppressed there.
abbrev change_map_args : ℕ → ℕ → ℕ → ℕ → Option (List ℤ)
change_map_args id x y suppress = some (pos id ∷ pos x ∷ pos y ∷ pos suppress ∷ [])

unfoldable pub map_def_test_tile : Map
unfolding map_create map_add_event map_event_create
map_def_test_tile =
    let map = map_create map_test 32 8 in
    let map' : Map = record map { decor = set map.decor (32 * 6 - 1) door } in
    let with_hello = map_add_event map' (map_event_create (pos 5) (pos 5) none hello) in
    let with_goodbye = map_add_event with_hello (map_event_create (pos 5) (pos 5) none goodbye) in
    map_add_event with_goodbye
      (map_event_create (pos 31) (pos 5) (change_map_args map_test_2 0 5 1) change_map)

-- The last column from row 1 to the bottom is set by `width*i-1`, for i from 1 to the height.
doors_2 : List ℕ → ℕ → List ℕ
doors_2 decor ℕ.zero = decor
doors_2 decor (ℕ.suc i) = set (doors_2 decor i) (24 * (i + 1) - 1) door

unfoldable pub map_def_test_tile_2 : Map
unfolding map_create map_add_event map_event_create doors_2
map_def_test_tile_2 =
    let map = map_create map_test_2 24 6 in
    let map' : Map = record map { decor = set (doors_2 map.decor 6) (24 * 5) door } in
    let with_hello = map_add_event map' (map_event_create (pos 5) (pos 5) none hello) in
    let with_goodbye = map_add_event with_hello (map_event_create (pos 5) (pos 5) none goodbye) in
    map_add_event with_goodbye
      (map_event_create (pos 0) (pos 5) (change_map_args map_test 31 5 1) change_map)
