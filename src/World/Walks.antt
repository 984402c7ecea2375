-- ===== src/World/Walks.antt =====
-- A walk that nothing stands against: `player_move` without a change of map, to a free place.
use mmo_backend.Base.{
  ℕ, suc, ◌<◌, ◌≡◌, ap, sym, ◌∙◌, Bool, true, false, ◌&&◌, Option, none, some, List, ok, arith,
  if◌then◌else◌, ◌==◌, subst,
}
use cubical.Cubical.Foundations.Prelude.{fun_ext}
use mmo_backend.Base.Int.{pos}
use mmo_backend.Maps.{Map}
use mmo_backend.Maps.Collision.{map_coord_is_walkable, map_toggle_coord}
use mmo_backend.Maps.Collision.Grid.{Toggled, map_toggle_coord-Toggled, check_bounds_inside}
use mmo_backend.Packet.{Packet, packet_flatten}
use mmo_backend.Packet.Templates.{packet_template_update_position}
use mmo_backend.World.State.{World, Player, load_map, load_player, store_player, update}
use mmo_backend.World.Loads.{Held}
use mmo_backend.World.Sending.{
  AllListen, recipients, sent_to, send_each-sent_to, update_position-flat,
}
use mmo_backend.World.Listeners.{AllListen-moved, recipients-moved}
use mmo_backend.World.Quiet.{IsQuiet, activate-quiet}
use mmo_backend.World.Occupants.{send_each, map_send_packet}
use mmo_backend.World.Placement.{
  player_move, move_by, toggle_at, leave_old, arrive, activate_by, spawn_by,
}
use mmo_backend.World.Moves.{walk, StandsOn, reach_eq, toggle_eq, valid_eq}
use mmo_backend.World.Walking.{CanWalk, Walked}

module _ (w : World) (player : ℕ) (p : Player) (i a : ℕ) (m : Map) (x y : ℕ)
    (c : CanWalk w player p i a m x y) where
  target : Toggled m x y true (map_toggle_coord m (pos x) (pos y) true)
  target = map_toggle_coord-Toggled m x y c.stands.grid c.x_in c.y_in true

  abbrev m1 : Map
  m1 = target.after

  target_free : target.was ≡ true
  target_free = ground (arith, target.before, c.is_free)

  target_eq : map_toggle_coord m (pos x) (pos y) true ≡ ok (true, m1)
  target_eq = target.returns ∙ rw target_free

  own : Toggled m1 c.own_x c.own_y false (map_toggle_coord m1 (pos c.own_x) (pos c.own_y) false)
  own =
      map_toggle_coord-Toggled m1 c.own_x c.own_y target.grid
        (omega (arith, c.own_x_in, target.same_size.0))
        (omega (arith, c.own_y_in, target.same_size.1)) false

  abbrev m2 : Map
  m2 = own.after

  rest_eq : m2 ≡ record m { collision = m2.collision }
  rest_eq = own.same_rest ∙ ap (λ (k : Map). record k { collision = m2.collision }) target.same_rest

  abbrev w1 : World
  w1 = record w { maps = update w.maps a (some m1) }

  abbrev w2 : World
  w2 = record w1 { maps = update w1.maps a (some m2) }

  abbrev p' : Player
  p' = record p { x = pos x; y = pos y }

  abbrev w3 : World
  w3 = record w2 { players = update w2.players player (some p') }

  take_target : toggle_at (some a) (pos x) (pos y) true w ≡ ok (true, w1)
  take_target = toggle_eq w player p a m c.stands (pos x) (pos y) true true m1 target_eq

  stands_after : StandsOn w1 player p a m1
  stands_after = record {
    player_eq = c.stands.player_eq;
    map_eq = c.stands.map_eq;
    tile_eq = ground arith;
    grid = target.grid;
  }

  leave_own : leave_old (some a) player w1 ≡ ok (true, w2)
  unfolding leave_old load_player
  leave_own = ground (
    arith,
    c.stands.player_eq,
    c.own_x_eq,
    c.own_y_eq,
    toggle_eq w1 player p a m1 stands_after (pos c.own_x) (pos c.own_y) false true m2 own.returns,
  )

  Held-after : Held w3 i a m2
  Held-after = record {
    number = c.held.number;
    unlocked = c.held.unlocked;
    tile = c.held.tile;
    here = ground arith;
    others = c.held.others;
    held = ap (λ (k : Map). k.refs) rest_eq ∙ c.held.held;
  }

  IsQuiet-after : IsQuiet m2.events (pos x) (pos y)
  IsQuiet-after = subst (λ (k : Map). IsQuiet k.events (pos x) (pos y)) (sym rest_eq) c.quiet

  number_after : m2.id ≡ i
  number_after = ap (λ (k : Map). k.id) rest_eq ∙ c.number

  players_after : m2.players ≡ m.players
  players_after = ap (λ (k : Map). k.players) rest_eq

  news :
      (packet : Packet) × (body : List ℕ) × (packet_template_update_position
          (some c.id)
          (pos x)
          (pos y)
        ≡ some packet)
      × (packet_flatten packet ≡ ok body)
  news = update_position-flat c.id (pos x) (pos y) c.id_short

  abbrev w4 : World
  w4 = record w3 { sent = sent_to news.0 (recipients w m.players) w.sent }

  tell : send_each news.0 none m2.players w3 ≡ ok (tt, w4)
  tell =
      send_each-sent_to news.0 news.1 m2.players w3
        (AllListen-moved w player p c.stands.player_eq (pos x) (pos y) w2.maps m2.players
          (subst (λ (b : List ℕ). AllListen w b) (sym players_after) c.listen))
        news.3
      ∙ rw (
        recipients-moved w player p c.stands.player_eq (pos x) (pos y) w2.maps m2.players,
        players_after,
      )

  send_all :
      map_send_packet (some a) (packet_template_update_position p.id (pos x) (pos y)) none w3
      ≡ ok (tt, w4)
  unfolding map_send_packet load_map
  send_all = ground (arith, c.id_eq, news.2, tell)

  arrived :
      (fuel : ℕ) (s : Bool)
      → arrive (activate_by (spawn_by (player_move fuel))) player (pos x) (pos y) s w2 ≡ ok (tt, w4)
  unfolding arrive load_player store_player
  arrived fuel true = ground (arith, c.stands.player_eq, c.stands.map_eq, send_all)
  arrived fuel false = ground (
    arith,
    c.stands.player_eq,
    c.stands.map_eq,
    send_all,
    activate-quiet (spawn_by (player_move fuel)) w3 i a m2 (pos x) (pos y) player Held-after
        number_after IsQuiet-after,
  )

  moved :
      (fuel : ℕ) (s : Bool)
      → player_move (suc fuel) player (pos x) (pos y) (walk s) w ≡ ok (true, w4)
  unfolding player_move move_by load_player load_map
  moved fuel s = ground (
    arith,
    c.stands.player_eq,
    c.stands.map_eq,
    c.stands.tile_eq,
    reach_eq w player p a m c.stands (pos x) (pos y) s true
        (valid_eq p (pos x) (pos y) true c.near c.reach),
    check_bounds_inside m x y c.stands.grid c.x_in c.y_in,
    take_target,
    leave_own,
    arrived fuel s,
  )

  same_maps : (b : ℕ) → w2.maps b ≡ update w.maps a (some m2) b
  same_maps b = ground arith

  collapsed : w4 ≡ record w {
    maps = update w.maps a (some m2);
    players = update w.players player (some p');
    sent = sent_to news.0 (recipients w m.players) w.sent;
  }
  collapsed = ap (λ (f : ℕ → Option Map). record w4 { maps = f }) (fun_ext (λ b. same_maps b))

  cells_after :
      (u v : ℕ)
      → u < m.width
      → v < m.height
      → map_coord_is_walkable m2 (pos u) (pos v) ≡ (
          if u == c.own_x && v == c.own_y
          then ok true
          else if u == x && v == y
          then ok false
          else map_coord_is_walkable m (pos u) (pos v))
  cells_after u v hu hv = ground (
    arith,
    target.cells u v hu hv,
    own.cells u v (omega (arith, target.same_size.0)) (omega (arith, target.same_size.1)),
  )

  -- A walk by a player with an id, from a place on its map to a free place of it, in reach and
  -- without events, on a map that is held and not locked and whose players can be told, succeeds
  -- whether events are suppressed or not: the player is at the target, the old place is free and
  -- the target taken, every other cell and the rest of the server is as it was, and each session
  -- on the map is sent the new position once.
  pub player_move-Walked :
      (fuel : ℕ) (suppress : Bool)
      → Walked w player p i a m x y c
          (player_move (suc fuel) player (pos x) (pos y) (walk suppress) w)
  player_move-Walked fuel suppress = record {
    here = m2;
    packet = news.0;
    news_eq =
        ap (λ (n : Option (List ℕ)). packet_template_update_position n (pos x) (pos y)) c.id_eq
        ∙ news.2;
    returns = moved fuel suppress ∙ ap (λ (v : World). ok (true, v)) collapsed;
    grid = own.grid;
    rest = rest_eq;
    cells = cells_after;
  }
