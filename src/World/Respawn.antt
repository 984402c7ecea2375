-- ===== src/World/Respawn.antt =====
-- A player who is put on the map that it has, at the place that it has: what a login does by
-- `map_spawn_player` of backend/maps/map.c and `player_move` of backend/player/player.c.
use mmo_backend.Base.{
  ℕ, ◌<◌, ◌≡◌, refl, ap, ◌∙◌, Bool, true, false, Option, none, some, List, ◌∷◌, ok, arith, ◌==◌,
  if◌then◌else◌, ◌&&◌,
}
use mmo_backend.Base.Int.{ℤ, pos, ◌+ℤ◌}
use mmo_backend.Maps.{Map}
use mmo_backend.Maps.Collision.{map_coord_is_walkable, map_toggle_coord}
use mmo_backend.Maps.Collision.Grid.{
  IsGrid, Toggled, map_toggle_coord-Toggled, map_toggle_coord-taken, check_bounds_inside,
}
use mmo_backend.Packet.{Packet, packet_flatten}
use mmo_backend.Packet.Templates.{packet_template_update_position, packet_template_leaving_map}
use mmo_backend.World.State.{
  World, Player, M, load_map, store_map, load_player, store_player, update,
}
use mmo_backend.World.Loading.{player_ref}
use mmo_backend.World.Loads.{Held, map_load_held}
use mmo_backend.World.Occupants.{map_remove_player, map_add_player, map_send_packet, send_each}
use mmo_backend.World.Sending.{
  AllListen, recipients, sent_to, send_each-sent_to, update_position-flat,
}
use mmo_backend.World.Listeners.{AllListen-replaced, recipients-replaced}
use mmo_backend.World.Placement.{move_by, toggle_at, leave_old, arrive, within_reach}
use mmo_backend.World.Moves.{StandsOn, toggle_eq}
use mmo_backend.World.Returning.{Returns, put_back, Returned}

module _ (w : World) (player : ℕ) (p : Player) (i a : ℕ) (m : Map) (x y : ℕ)
    (h : Returns w player p i a m x y) where
  removed : map_remove_player (some a) (some player) w ≡ ok (tt, w)
  unfolding map_remove_player load_map load_player packet_template_leaving_map
  removed = ground (arith, h.held.here, h.stranger, h.player_eq, h.id_eq)

  -- The player, with one reference more; the map with the player, and then with one reference more.
  abbrev p1 : Player
  p1 = record p { refs = p.refs +ℤ pos 1 }

  abbrev m1 : Map
  m1 = record m { players = player ∷ m.players }

  abbrev listed : World
  listed = record w {
    players = update w.players player (some p1);
    maps = update w.maps a (some m1);
  }

  Held-listed : Held listed i a m1
  Held-listed = record {
    number = h.held.number;
    unlocked = h.held.unlocked;
    tile = h.held.tile;
    here = ground arith;
    others = h.held.others;
    held = h.held.held;
  }

  abbrev m2 : Map
  m2 = record m1 { refs = m1.refs +ℤ pos 1 }

  abbrev p2 : Player
  p2 = record p1 { map = some a }

  abbrev added : World
  added = record listed {
    maps = update listed.maps a (some m2);
    players = update listed.players player (some p2);
  }

  adds : map_add_player a player w ≡ ok (tt, added)
  unfolding map_add_player player_ref load_map store_map load_player store_player
  adds = ground (arith, h.player_eq, h.held.here, h.number, map_load_held listed i a m1 Held-listed)

  grid2 : IsGrid m2
  grid2 = record {
    aligned = h.grid.aligned;
    rows = h.grid.rows;
    columns = h.grid.columns;
    bytes = h.grid.bytes;
  }

  target : Toggled m2 x y true (map_toggle_coord m2 (pos x) (pos y) true)
  target = map_toggle_coord-Toggled m2 x y grid2 h.x_in h.y_in true

  stands2 : StandsOn added player p2 a m2
  stands2 = record { player_eq = ground arith; map_eq = refl; tile_eq = ground arith; grid = grid2 }

  -- The map once the target is taken, and the player at it.
  module _ (maps : ℕ → Option Map) (k : Map) (there : maps a ≡ some k) (kg : IsGrid k)
      (rest : k ≡ record m2 { collision = k.collision })
      (cells : (u v : ℕ)
        → u < m.width
        → v < m.height
        → map_coord_is_walkable k (pos u) (pos v)
          ≡ (if u == x && v == y then ok false else map_coord_is_walkable m2 (pos u) (pos v)))
      (was : Bool)
      (takes : toggle_at (some a) (pos x) (pos y) true added
        ≡ ok (was, record added { maps = maps })) where
    abbrev at_target : World
    at_target = record added { maps = maps }

    own : Toggled k x y false (map_toggle_coord k (pos x) (pos y) false)
    own =
        map_toggle_coord-Toggled k x y kg (omega (arith, h.x_in, ap (λ (n : Map). n.width) rest))
          (omega (arith, h.y_in, ap (λ (n : Map). n.height) rest)) false

    abbrev here : Map
    here = own.after

    stands : StandsOn at_target player p2 a k
    stands = record { player_eq = ground arith; map_eq = refl; tile_eq = there; grid = kg }

    abbrev left : World
    left = record at_target { maps = update maps a (some here) }

    leaves : leave_old (some a) player at_target ≡ ok (true, left)
    unfolding leave_old load_player
    leaves = ground (
      arith,
      h.x_eq,
      h.y_eq,
      toggle_eq at_target player p2 a k stands (pos x) (pos y) false true here own.returns,
    )

    abbrev p3 : Player
    p3 = record p2 { x = pos x; y = pos y }

    abbrev placed : World
    placed = record left { players = update left.players player (some p3) }

    same_player : p3 ≡ record p { refs = p.refs +ℤ pos 1 }
    same_player = rw (h.x_eq, h.y_eq, h.map_eq) refl

    players_here : here.players ≡ player ∷ m.players
    players_here = ap (λ (n : Map). n.players) own.same_rest ∙ ap (λ (n : Map). n.players) rest

    listen : AllListen placed (player ∷ m.players)
    listen =
        AllListen-replaced w placed player p p3 h.player_eq (ground arith) refl
          (λ b ne. ground arith) refl (player ∷ m.players) (h.own, h.listen)

    news :
        (packet : Packet) × (body : List ℕ) × (packet_template_update_position
            (some h.id)
            (pos x)
            (pos y)
          ≡ some packet)
        × (packet_flatten packet ≡ ok body)
    news = update_position-flat h.id (pos x) (pos y) h.id_short

    abbrev told : World
    told = record placed {
      sent = sent_to news.0 (recipients placed (player ∷ m.players)) placed.sent;
    }

    tells : send_each news.0 none here.players placed ≡ ok (tt, told)
    tells =
        ap (λ (b : List ℕ). send_each news.0 none b placed) players_here
        ∙ send_each-sent_to news.0 news.1 (player ∷ m.players) placed listen news.3

    arrives :
        (activate : ℕ → ℤ → ℤ → ℕ → M (Unit {0}))
        → arrive activate player (pos x) (pos y) true left ≡ ok (tt, told)
    unfolding arrive load_player store_player map_send_packet load_map
    arrives activate = ground (arith, h.id_eq, news.2, tells)

    moves :
        (activate : ℕ → ℤ → ℤ → ℕ → M (Unit {0}))
        → move_by activate player (pos x) (pos y) (put_back a) w ≡ ok (true, told)
    unfolding move_by load_player load_map within_reach
    moves activate = ground (
      arith,
      h.player_eq,
      h.map_eq,
      removed,
      adds,
      check_bounds_inside m2 x y grid2 h.x_in h.y_in,
      takes,
      leaves,
      arrives activate,
    )

    same_cells : (u v : ℤ) → map_coord_is_walkable m2 u v ≡ map_coord_is_walkable m u v
    unfolding map_coord_is_walkable
    same_cells u v = refl

    cells_after :
        (u v : ℕ)
        → u < m.width
        → v < m.height
        → map_coord_is_walkable here (pos u) (pos v)
          ≡ (if u == x && v == y then ok true else map_coord_is_walkable m (pos u) (pos v))
    cells_after u v hu hv = ground (
      arith,
      cells u v hu hv,
      same_cells (pos u) (pos v),
      own.cells u v (omega (arith, hu, ap (λ (n : Map). n.width) rest))
          (omega (arith, hv, ap (λ (n : Map). n.height) rest)),
    )

    comes_back :
        (activate : ℕ → ℤ → ℤ → ℕ → M (Unit {0}))
        → Returned w player p a m x y (move_by activate player (pos x) (pos y) (put_back a) w)
    comes_back activate = record {
      after = told;
      here = here;
      packet = news.0;
      returns = moves activate;
      map_after = ground arith;
      player_after = ground (arith, same_player);
      listed = players_here;
      news_eq =
          ap (λ (n : Option (List ℕ)). packet_template_update_position n (pos x) (pos y)) h.id_eq
          ∙ news.2;
      told =
          ap (λ (fds : List ℕ). sent_to news.0 fds w.sent)
            (recipients-replaced w placed player p p3 h.player_eq (ground arith) refl
              (λ b ne. ground arith) refl (player ∷ m.players));
      cells = cells_after;
    }

  taken_by :
      (activate : ℕ → ℤ → ℤ → ℕ → M (Unit {0})) (was : Bool)
      → target.was ≡ was
      → Returned w player p a m x y (move_by activate player (pos x) (pos y) (put_back a) w)
  taken_by activate true free =
      comes_back (update added.maps a (some target.after)) target.after (ground arith) target.grid
        target.same_rest target.cells true
        (toggle_eq added player p2 a m2 stands2 (pos x) (pos y) true true target.after
          (target.returns ∙ rw free refl))
        activate
  taken_by activate false full =
      comes_back added.maps m2 (ground arith) grid2 refl (λ u v hu hv. ground (arith, blocked))
        false
        (toggle_eq added player p2 a m2 stands2 (pos x) (pos y) true false m2
          (map_toggle_coord-taken m2 x y grid2 h.x_in h.y_in blocked))
        activate
    where
      blocked : map_coord_is_walkable m2 (pos x) (pos y) ≡ ok false
      blocked = target.before ∙ ap ok full

  -- A player with an id who is put on the map that it already has, at the place of it that it
  -- already has, its events suppressed, is not refused, whether the place was free or taken: it
  -- is then on the map's list and at its place, whose cell is free, every other cell is as it
  -- was, and everyone on the map is sent its place. The map is loaded, held and not locked, its
  -- bitmap covers it, the player is not on its list, the players on it and the sessions are
  -- there, and the id is shorter than 2^31 bytes.
  pub move_by-Returned :
      (activate : ℕ → ℤ → ℤ → ℕ → M (Unit {0}))
      → Returned w player p a m x y (move_by activate player (pos x) (pos y) (put_back a) w)
  move_by-Returned activate = taken_by activate target.was refl
