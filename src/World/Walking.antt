-- ===== src/World/Walking.antt =====
-- When a walk on one map can be made, and what it leaves behind.
use mmo_backend.Base.{
  ℕ, ◌<◌, ◌≡◌, Bool, true, false, ◌&&◌, some, List, Result, ok, if◌then◌else◌, ◌==◌, ◌^◌, length,
}
use mmo_backend.Base.Int.{pos, leb_ℤ}
use mmo_backend.Maps.{Map}
use mmo_backend.Maps.Collision.{map_coord_is_walkable}
use mmo_backend.Maps.Collision.Grid.{IsGrid}
use mmo_backend.Movement.Distance.{taxicab}
use mmo_backend.Packet.{Packet}
use mmo_backend.Packet.Templates.{packet_template_update_position}
use mmo_backend.World.State.{World, Player, update}
use mmo_backend.World.Loads.{Held}
use mmo_backend.World.Sending.{AllListen, recipients, sent_to}
use mmo_backend.World.Quiet.{IsQuiet}
use mmo_backend.World.Moves.{StandsOn}

-- A walk to a free place of the map, in reach, without events; those on the map can be told.
pub record CanWalk (w : World) (player : ℕ) (p : Player) (i a : ℕ) (m : Map) (x y : ℕ)
    : Type 0 where
  pub stands : StandsOn w player p a m
  pub held : Held w i a m
  pub number : m.id ≡ i
  pub quiet : IsQuiet m.events (pos x) (pos y)
  pub own_x : ℕ
  pub own_y : ℕ
  pub own_x_eq : p.x ≡ pos own_x
  pub own_y_eq : p.y ≡ pos own_y
  pub own_x_in : own_x < m.width
  pub own_y_in : own_y < m.height
  pub x_in : x < m.width
  pub y_in : y < m.height
  pub near : taxicab p.x p.y (pos x) (pos y) < 2 ^ 31
  pub reach : leb_ℤ (pos (taxicab p.x p.y (pos x) (pos y))) p.max_move ≡ true
  pub is_free : map_coord_is_walkable m (pos x) (pos y) ≡ ok true
  pub id : List ℕ
  pub id_eq : p.id ≡ some id
  pub id_short : length id < 2 ^ 31
  pub listen : AllListen w m.players

-- What a walk that succeeds leaves behind: the player is at the target, the old place is free and the
-- target is not (but for a walk to the place itself, which ends free), nothing else of the server
-- has changed but the packets sent, and each session on the map has got the news once.
pub record Walked (w : World) (player : ℕ) (p : Player) (i a : ℕ) (m : Map) (x y : ℕ)
    (c : CanWalk w player p i a m x y) (result : Result (Bool × World)) : Type 0 where
  pub here : Map
  pub packet : Packet
  pub news_eq : packet_template_update_position p.id (pos x) (pos y) ≡ some packet
  pub returns :
      result
      ≡ ok (
        true,
        record w {
          maps = update w.maps a (some here);
          players = update w.players player (some (record p { x = pos x; y = pos y }));
          sent = sent_to packet (recipients w m.players) w.sent;
        },
      )
  pub grid : IsGrid here
  pub rest : here ≡ record m { collision = here.collision }
  pub cells :
      (u v : ℕ)
      → u < m.width
      → v < m.height
      → map_coord_is_walkable here (pos u) (pos v) ≡ (
          if u == c.own_x && v == c.own_y
          then ok true
          else if u == x && v == y
          then ok false
          else map_coord_is_walkable m (pos u) (pos v))
