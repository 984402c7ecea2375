-- ===== src/Tests/Returns.antt =====
-- A player who is put back at its place, at a concrete input.
use mmo_backend.Base.{refl, some, [], ◌∷◌, arith}
use mmo_backend.Base.Int.{pos}
use mmo_backend.World.State.{World, Player, update, pure}
use mmo_backend.World.Loads.{Held}
use mmo_backend.World.Occupants.{unlink}
use mmo_backend.World.Sending.{hears, silent}
use mmo_backend.World.Placement.{move_by}
use mmo_backend.World.Returning.{Returns, Returned, put_back}
use mmo_backend.World.Respawn.{move_by-Returned}
use mmo_backend.Tests.Village.{
  field, field_size, field-IsGrid, hero, hero_session, bot, new_session, server,
}

abbrev visitor : Player
visitor = record hero { x = pos 3; y = pos 2; session = some 31; id = some (b'3' ∷ []) }

abbrev visited : World
visited = record server { players = update server.players 22 (some visitor) }

visited-Held : Held visited 0 10 field
visited-Held = record {
  number = omega arith;
  unlocked = refl;
  tile = refl;
  here = refl;
  others = 0;
  held = refl;
}

visitor-Returns : Returns visited 22 visitor 0 10 field 3 2
unfolding unlink
visitor-Returns = record {
  player_eq = refl;
  map_eq = refl;
  held = visited-Held;
  number = field_size.2;
  grid = field-IsGrid;
  x_eq = refl;
  y_eq = refl;
  x_in = omega (arith, field_size.0);
  y_in = omega (arith, field_size.1);
  stranger = refl;
  id = b'3' ∷ [];
  id_eq = refl;
  id_short = omega arith;
  own = hears visitor 31 new_session refl refl refl;
  listen = (hears hero 30 hero_session refl refl refl, (silent bot refl refl, tt));
}

move_by-Returned_example :
    Returned visited 22 visitor 10 field 3 2
      (move_by (λ a x y player. pure tt) 22 (pos 3) (pos 2) (put_back 10) visited)
move_by-Returned_example =
    move_by-Returned visited 22 visitor 0 10 field 3 2 visitor-Returns (λ a x y player. pure tt)
