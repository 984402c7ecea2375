-- ===== src/Tests/Village.antt =====
-- A server with two players on a map, for the tests.
use mmo_backend.Base.{◌≡◌, refl, true, false, if◌then◌else◌, ◌==◌, some, none, [], ◌∷◌, ok, arith}
use mmo_backend.Base.Int.{ℤ, pos, negsuc}
use mmo_backend.Maps.{Map, map_create}
use mmo_backend.Maps.Collision.{map_coord_is_walkable, map_check_bounds}
use mmo_backend.Maps.Collision.Grid.{IsGrid}
use mmo_backend.Maps.Collision.Refinement.{Represents}
use mmo_backend.Maps.Collision.Create.{map_create-Represents}
use mmo_backend.Packet.{Packet}
use mmo_backend.Packet.Templates.{position_bytes}
use mmo_backend.Session.{disabled, roaming}
use mmo_backend.World.State.{World, Player, Session, pure}
use mmo_backend.World.Loads.{Held}
use mmo_backend.World.Sending.{AllListen, hears, silent}
use mmo_backend.World.Moves.{StandsOn, Obstacle, off_map}
use mmo_backend.World.Walking.{CanWalk}
use mmo_backend.World.Quiet.{IsQuiet}
use mmo_backend.World.Handlers.{Services}
use mmo_backend.World.Rounds.{Plays, IsMove}

abbrev pub field : Map
field = record (map_create 0 16 4) { refs = pos 1; players = 20 ∷ 21 ∷ [] }

abbrev pub hero : Player
hero = record {
  x = pos 1;
  y = pos 1;
  modified = false;
  max_move = pos 5;
  refs = pos 2;
  map = some 10;
  session = some 30;
  name = some (b'H' ∷ []);
  id = some (b'1' ∷ []);
}

abbrev pub bot : Player
bot = record hero {
  x = pos 7;
  y = pos 2;
  session = none;
  name = some (b'B' ∷ []);
  id = some (b'2' ∷ []);
}

abbrev pub hero_session : Session
hero_session = record { fd = 4; state = roaming; player = some 20 }

abbrev pub new_session : Session
new_session = record { fd = 5; state = disabled; player = none }

abbrev pub server : World
server = record {
  next = 100;
  maps = λ a. if a == 10 then some field else none;
  players = λ a. if a == 20 then some hero else if a == 21 then some bot else none;
  sessions = λ a. if a == 30 then some hero_session else if a == 31 then some new_session else none;
  tiles = some 10 ∷ none ∷ [];
  map_locks = false ∷ false ∷ [];
  cache_lock = false;
  database = true;
  sent = [];
  saved = [];
  closed = [];
  packet_errno = pos 0;
}

abbrev pub no_services : Services
no_services = record {
  find_token = λ code. pure none;
  remove_token = λ code. pure tt;
  find_document = λ id. none;
}

pub bare-Represents :
    Represents (record { columns = 16; rows = 4; free = λ u v. true }) (map_create 0 16 4)
bare-Represents = map_create-Represents 0 16 4 refl

pub field-IsGrid : IsGrid field
field-IsGrid =
    let g = bare-Represents.grid in
    record { aligned = g.aligned; rows = g.rows; columns = g.columns; bytes = g.bytes }

pub hero-StandsOn : StandsOn server 20 hero 10 field
hero-StandsOn = record { player_eq = refl; map_eq = refl; tile_eq = refl; grid = field-IsGrid }

pub field-Held : Held server 0 10 field
field-Held = record {
  number = omega arith;
  unlocked = refl;
  tile = refl;
  here = refl;
  others = 0;
  held = refl;
}

pub field-AllListen : AllListen server field.players
field-AllListen = (hears hero 30 hero_session refl refl refl, (silent bot refl refl, tt))

pub target_free : map_coord_is_walkable field (pos 3) (pos 2) ≡ ok true
unfolding map_coord_is_walkable
target_free = bare-Represents.cells 3 2 (omega arith) (omega arith)

pub field_size : (field.width ≡ 16) × (field.height ≡ 4) × (field.id ≡ 0)
unfolding map_create
field_size = (refl, refl, refl)

pub field-IsQuiet : IsQuiet field.events (pos 3) (pos 2)
unfolding map_create
field-IsQuiet = tt

pub hero-CanWalk : CanWalk server 20 hero 0 10 field 3 2
hero-CanWalk = record {
  stands = hero-StandsOn;
  held = field-Held;
  number = field_size.2;
  quiet = field-IsQuiet;
  own_x = 1;
  own_y = 1;
  own_x_eq = refl;
  own_y_eq = refl;
  own_x_in = omega (arith, field_size.0);
  own_y_in = omega (arith, field_size.1);
  x_in = omega (arith, field_size.0);
  y_in = omega (arith, field_size.1);
  near = omega arith;
  reach = refl;
  is_free = target_free;
  id = b'1' ∷ [];
  id_eq = refl;
  id_short = omega arith;
  listen = field-AllListen;
}

pub hero-Plays : Plays server 30 hero_session 20
hero-Plays = record { here = refl; state_eq = refl; player_eq = refl; no_error = refl }

abbrev pub move_to : ℤ → ℤ → Packet
move_to x y = record { opcode = 5; id = 7; length = 8; payload = some (position_bytes x y) }

pub move_to-IsMove : IsMove (move_to (pos 3) (pos 2)) (pos 3) (pos 2)
move_to-IsMove = record {
  opcode_eq = refl;
  rest = [];
  payload_eq = refl;
  fits_x = refl;
  fits_y = refl;
}

pub away-IsMove : IsMove (move_to (negsuc 2) (pos 2)) (negsuc 2) (pos 2)
away-IsMove = record {
  opcode_eq = refl;
  rest = [];
  payload_eq = refl;
  fits_x = refl;
  fits_y = refl;
}

pub away-Obstacle : Obstacle hero field (negsuc 2) (pos 2)
unfolding map_check_bounds
away-Obstacle = off_map (omega arith) refl (ground (arith, field_size))
