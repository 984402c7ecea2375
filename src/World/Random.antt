-- ===== src/World/Random.antt =====
-- `map_random_coord` and `map_spawn_player_random` of backend/maps/map.c, and `player_change_name` of
-- backend/player/player.c. The numbers that `rand` gives are a sequence outside the program.
use mmo_backend.Base.{
  subst, ℕ, zero, suc, ◌+◌, ◌*◌, ◌/◌, ◌%◌, ◌^◌, ◌<◌, ◌≡◌, refl, sym, ap, ◌∙◌, if◌then◌else◌, Bool,
  true, false, Option, none, some, List, ◌∷◌, Result, ok, fault, null_pointer, out_of_fuel, arith,
}
use native.Mathlib.Nat.{mod-lt}
use mmo_backend.Base.Int.{ℤ, pos}
use mmo_backend.Maps.{Map}
use mmo_backend.Maps.Collision.{map_coord_is_walkable}
use mmo_backend.Maps.Collision.Refinement.{FreeSet, Represents}
use mmo_backend.World.State.{
  M, pure, ◌>>=◌, ◌>>◌, need, lift, load_map, store_map, load_player, store_player,
}
use mmo_backend.World.Loading.{map_load, map_unload, map_number}
use mmo_backend.World.Placement.{toggle_at}

-- The `i`th pair of numbers, brought into the map; a map has a width and a height.
abbrev pub draw_x : (ℕ → ℕ) → Map → ℕ → ℕ
draw_x rand m i = rand (2 * i) % m.width

abbrev pub draw_y : (ℕ → ℕ) → Map → ℕ → ℕ
draw_y rand m i = rand (2 * i + 1) % m.height

-- The loop from the `i`th pair on; the answer is the number of the pair that was taken.
unfoldable pub draw_loop : (ℕ → ℕ) → Map → ℕ → ℕ → Result ℕ
draw_loop rand m zero i = fault out_of_fuel
draw_loop rand m (suc fuel) i =
    elim (map_coord_is_walkable m (pos (draw_x rand m i)) (pos (draw_y rand m i))) [
      | ok free ↦ elim free [ true ↦ ok i | false ↦ draw_loop rand m fuel (suc i) ]
      | fault e ↦ fault e
    ]

-- `(long)x<<32 | (y & 0xffffffff)`
unfoldable pub map_random_coord : (ℕ → ℕ) → ℕ → Map → Result ℕ
map_random_coord rand fuel m = elim (draw_loop rand m fuel 0) [
  | ok i ↦ ok (draw_x rand m i * 2 ^ 32 + draw_y rand m i % 2 ^ 32)
  | fault e ↦ fault e
]

-- `none` is -1.
unfoldable pub place_random : (ℕ → ℕ) → ℕ → ℕ → ℕ → M (Option ℕ)
place_random rand fuel player a = do
  p ← load_player player
  store_player player (record p { map = some a })
  m ← load_map a
  coord ← lift (map_random_coord rand fuel m)
  let x = pos (coord / 2 ^ 32)
  let y = pos (coord % 2 ^ 32)
  q ← load_player player
  store_player player (record q { x = x; y = y })
  store_map a (record m { players = player ∷ m.players })
  free ← toggle_at (some a) x y true
  if free then pure (some coord) else (do map_unload (pos m.id); pure none)

unfoldable pub map_spawn_player_random : (ℕ → ℕ) → ℕ → ℤ → ℕ → M (Option ℕ)
map_spawn_player_random rand fuel id player = elim (map_number id) [
  | none ↦ pure none
  | some i ↦ do loaded ← map_load id; a ← need loaded null_pointer; place_random rand fuel player a
]

unfoldable pub player_change_name : ℕ → List ℕ → M (Unit {0})
player_change_name player name = do
  p ← load_player player
  store_player player (record p { name = some name })

module _ (s : FreeSet) (m : Map) (r : Represents s m) (wide : 0 < s.columns) (high : 0 < s.rows)
    (rand : ℕ → ℕ) where
  abbrev pub IsFree : ℕ → Bool → Type 0
  IsFree i free = s.free (draw_x rand m i) (draw_y rand m i) ≡ free

  drawn :
      (i : ℕ) (free : Bool)
      → IsFree i free
      → map_coord_is_walkable m (pos (draw_x rand m i)) (pos (draw_y rand m i)) ≡ ok free
  drawn i free e =
      r.cells (draw_x rand m i) (draw_y rand m i)
        (subst (λ w. draw_x rand m i < w) r.width (mod-lt (rand (2 * i)) (ground (arith, r.width))))
        (subst (λ w. draw_y rand m i < w) r.height
          (mod-lt (rand (2 * i + 1)) (ground (arith, r.height))))
      ∙ ap ok e

  draw_taken :
      (fuel i : ℕ) → IsFree i false → draw_loop rand m (suc fuel) i ≡ draw_loop rand m fuel (suc i)
  unfolding draw_loop
  draw_taken fuel i e = ground (arith, drawn i false e)

  draw_free : (fuel i : ℕ) → IsFree i true → draw_loop rand m (suc fuel) i ≡ ok i
  unfolding draw_loop
  draw_free fuel i e = ground (arith, drawn i true e)

  draw_loop-first :
      (n i : ℕ)
      → ((j : ℕ) → j < n → IsFree (i + j) false)
      → IsFree (i + n) true
      → draw_loop rand m (suc n) i ≡ ok (i + n)
  draw_loop-first zero i taken free =
      let e : i + 0 ≡ i = omega arith in
      draw_free 0 i (subst (λ k. IsFree k true) e free) ∙ ap ok (sym e)
  draw_loop-first (suc n) i taken free =
      let start : i + 0 ≡ i = omega arith in
      let end : i + suc n ≡ suc i + n = omega arith in
      draw_taken (suc n) i (subst (λ k. IsFree k false) start (taken 0 (omega arith)))
      ∙ draw_loop-first n (suc i)
          (λ j l.
            (let e : i + suc j ≡ suc i + j = omega arith in
              subst (λ k. IsFree k false) e (taken (suc j) (omega arith))))
          (subst (λ k. IsFree k true) end free)
      ∙ ap ok (sym end)

  draw_loop-never :
      (fuel i : ℕ) → ((j : ℕ) → IsFree j false) → draw_loop rand m fuel i ≡ fault out_of_fuel
  draw_loop-never zero i taken = unfold draw_loop in refl
  draw_loop-never (suc fuel) i taken =
      draw_taken fuel i (taken i) ∙ draw_loop-never fuel (suc i) taken

  -- On a bitmap that represents a set of free coordinates, with a width and a height that are
  -- not zero, map_random_coord draws until the first coordinate that is free, gives that one,
  -- with x in the high half, and needs as much fuel as it draws coordinates.
  pub map_random_coord-first :
      (n : ℕ)
      → ((j : ℕ) → j < n → IsFree j false)
      → IsFree n true
      → map_random_coord rand (suc n) m ≡ ok (draw_x rand m n * 2 ^ 32 + draw_y rand m n % 2 ^ 32)
  unfolding map_random_coord
  map_random_coord-first n taken free =
      let e : 0 + n ≡ n = omega arith in
      rw
        (
          draw_loop-first n 0
                (λ j l.
                  (let e' : j ≡ 0 + j = omega arith in subst (λ k. IsFree k false) e' (taken j l)))
                (subst (λ k. IsFree k true) (sym e) free)
              ∙ ap ok e,
          map_random_coord,
        )
        refl

  -- Where no draw comes to a free coordinate, no fuel is enough.
  pub map_random_coord-never :
      (fuel : ℕ) → ((j : ℕ) → IsFree j false) → map_random_coord rand fuel m ≡ fault out_of_fuel
  unfolding map_random_coord
  map_random_coord-never fuel taken = rw (draw_loop-never fuel 0 taken, map_random_coord) refl
