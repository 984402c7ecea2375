-- ===== src/World/Returning.antt =====
-- The state of a player who is put on the map that it has, at the place that it has, before the
-- move and after it: `map_spawn_player` of backend/maps/map.c and `player_move` of
-- backend/player/player.c.
use mmo_backend.Base.{
  Result, ℕ, ◌^◌, ◌<◌, ◌≡◌, Bool, true, none, some, List, ◌∷◌, length, ok, ◌==◌, if◌then◌else◌,
  ◌&&◌,
}
use mmo_backend.Base.Int.{pos, ◌+ℤ◌}
use mmo_backend.Maps.{Map}
use mmo_backend.Maps.Collision.{map_coord_is_walkable}
use mmo_backend.Maps.Collision.Grid.{IsGrid}
use mmo_backend.Packet.{Packet}
use mmo_backend.Packet.Templates.{packet_template_update_position}
use mmo_backend.World.State.{World, Player}
use mmo_backend.World.Loads.{Held}
use mmo_backend.World.Occupants.{unlink}
use mmo_backend.World.Sending.{AllListen, Listens, recipients, sent_to}
use mmo_backend.World.Placement.{MoveArgs}

-- A player who has a map that is loaded and a place on it, but is not on the map's list.
pub record Returns (w : World) (player : ℕ) (p : Player) (i a : ℕ) (m : Map) (x y : ℕ)
    : Type 0 where
  pub player_eq : w.players player ≡ some p
  pub map_eq : p.map ≡ some a
  pub held : Held w i a m
  pub number : m.id ≡ i
  pub grid : IsGrid m
  pub x_eq : p.x ≡ pos x
  pub y_eq : p.y ≡ pos y
  pub x_in : x < m.width
  pub y_in : y < m.height
  pub stranger : unlink player m.players ≡ none
  pub id : List ℕ
  pub id_eq : p.id ≡ some id
  pub id_short : length id < 2 ^ 31
  pub own : Listens w player
  pub listen : AllListen w m.players

-- The arguments of the move of a spawn, its events suppressed.
abbrev pub put_back : ℕ → MoveArgs
put_back a = record { suppress_events = true; overlap = true; map = some a }

-- The player is listed on its map and at its place, which is free.
pub record Returned (w : World) (player : ℕ) (p : Player) (a : ℕ) (m : Map) (x y : ℕ)
    (result : Result (Bool × World)) : Type 0 where
  pub after : World
  pub here : Map
  pub packet : Packet
  pub returns : result ≡ ok (true, after)
  pub map_after : after.maps a ≡ some here
  pub player_after : after.players player ≡ some (record p { refs = p.refs +ℤ pos 1 })
  pub listed : here.players ≡ player ∷ m.players
  pub news_eq : packet_template_update_position p.id (pos x) (pos y) ≡ some packet
  pub told : after.sent ≡ sent_to packet (recipients w (player ∷ m.players)) w.sent
  pub cells :
      (u v : ℕ)
      → u < m.width
      → v < m.height
      → map_coord_is_walkable here (pos u) (pos v)
        ≡ (if u == x && v == y then ok true else map_coord_is_walkable m (pos u) (pos v))
