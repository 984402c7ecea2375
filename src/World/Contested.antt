-- ===== src/World/Contested.antt =====
-- Two players who walk to the same place (backend/player/player.c).
use mmo_backend.Base.{
  Bool-cases, inl, inr, subst, ℕ, suc, ◌^◌, ◌<◌, ◌≡◌, ◌≢◌, refl, ap, ◌∙◌, Bool, true, false, ◌&&◌,
  some, ok, arith, ◌==◌,
}
use mmo_backend.Base.Int.{pos, leb_ℤ}
use mmo_backend.Movement.Distance.{taxicab}
use mmo_backend.Maps.{Map}
use mmo_backend.World.State.{World, Player}
use mmo_backend.World.Placement.{player_move}
use mmo_backend.World.Moves.{walk, Obstacle, player_move-refused}
use mmo_backend.World.Walking.{CanWalk, Walked}
use mmo_backend.World.Walks.{player_move-Walked}

-- Another player on the map, in reach of the same place.
pub record AlsoNear (w : World) (player : ℕ) (q : Player) (a x y : ℕ) : Type 0 where
  pub player_eq : w.players player ≡ some q
  pub map_eq : q.map ≡ some a
  pub near : taxicab q.x q.y (pos x) (pos y) < 2 ^ 31
  pub reach : leb_ℤ (pos (taxicab q.x q.y (pos x) (pos y))) q.max_move ≡ true

-- Of two players who walk, one after the other, to the same free place of their map, the one who
-- comes first gets it, when its walk can be made in the sense of player_move-Walked and is not
-- one to its own place, and the other one, if it is in reach, is refused and changes nothing.
pub player_move-contested :
    (w : World) (first second : ℕ) (p q : Player) (i a : ℕ) (m : Map) (x y : ℕ)
    (c : CanWalk w first p i a m x y)
    → AlsoNear w second q a x y
    → first ≢ second
    → (p.x ≡ pos x → p.y ≡ pos y → ⊥)
    → (fuel1 fuel2 : ℕ) (quiet1 quiet2 : Bool)
    → (after : World) × (player_move (suc fuel1) first (pos x) (pos y) (walk quiet1) w
        ≡ ok (true, after))
      × Walked w first p i a m x y c (ok (true, after))
      × (player_move (suc fuel2) second (pos x) (pos y) (walk quiet2) after ≡ ok (false, after))
player_move-contested w first second p q i a m x y c n apart away fuel1 fuel2 quiet1 quiet2 =
    let elsewhere : (x == c.own_x && y == c.own_y) ≡ false =
      elim (Bool-cases (x == c.own_x && y == c.own_y)) [
        | inr e ↦ e
        | inl e ↦ absurd (
            away (c.own_x_eq ∙ ap pos (let q : c.own_x ≡ x = ground (arith, e) in q))
              (c.own_y_eq ∙ ap pos (let q : c.own_y ≡ y = ground (arith, e) in q)))
      ] in
    let walked = player_move-Walked w first p i a m x y c fuel1 quiet1 in
    (
      _,
      walked.returns,
      subst (Walked w first p i a m x y c) walked.returns walked,
      player_move-refused _ second q a walked.here
          (record {
            player_eq = ground (arith, n.player_eq, apart);
            map_eq = n.map_eq;
            tile_eq = ground arith;
            grid = walked.grid;
          })
          fuel2 (pos x) (pos y) quiet2
          (Obstacle.taken x y refl refl
            (omega (arith, c.x_in, ap (λ (k : Map). k.width) walked.rest))
            (omega (arith, c.y_in, ap (λ (k : Map). k.height) walked.rest)) n.near n.reach
            (walked.cells x y c.x_in c.y_in ∙ ground (arith, elsewhere))),
    )
