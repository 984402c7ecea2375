-- ===== src/World/Loads.antt =====
-- A map that stays loaded: `map_load` takes a reference and `map_unload` gives it back.
use mmo_backend.Base.{
  ℕ, zero, suc, ◌≡◌, refl, ap, Bool, true, false, Option, none, some, List, [], ◌∷◌, ok, fault,
  out_of_bounds, arith, get_elem?, length, set, if◌then◌else◌, ◌≤◌, ◌||◌,
}
use cubical.Cubical.Foundations.Prelude.{fun_ext}
use mmo_backend.Base.Int.{ℤ, pos, negsuc, ◌-ℤ◌, ◌+ℤ◌, eqb_ℤ, ltb_ℤ, leb_ℤ}
use mmo_backend.Maps.{Map, map_count}
use mmo_backend.World.State.{World, load_map, store_map, ◌>>=◌, update}
use mmo_backend.World.Loading.{
  map_load, map_unload, drop_ref, map_unload_by, lock_map, unlock_map, load_tile,
}

-- A map that is loaded under a number, is not locked, and that somebody holds.
pub record Held (w : World) (i a : ℕ) (m : Map) : Type 0 where
  pub number : i ≤ map_count
  pub unlocked : get_elem? w.map_locks i ≡ some false
  pub tile : get_elem? w.tiles i ≡ some (some a)
  pub here : w.maps a ≡ some m
  pub others : ℕ
  pub held : m.refs ≡ pos (suc others)

pub set_twice :
    {A : Type 0}
    → (xs : List A) (i : ℕ) (u v : A) → get_elem? xs i ≡ some v
    → set (set xs i u) i v ≡ xs
set_twice [] i u v e = refl
set_twice (x ∷ xs) zero u v e = ground arith
set_twice (x ∷ xs) (suc i) u v e = ap (◌∷◌ x) (set_twice xs i u v e)

module _ (w : World) (i a : ℕ) (m : Map) (h : Held w i a m) where
  -- The world in which the map has one reference more.
  abbrev pub loaded : World
  loaded = record w { maps = update w.maps a (some (record m { refs = m.refs +ℤ pos 1 })) }

  unlocked_again : set (set w.map_locks i true) i false ≡ w.map_locks
  unlocked_again = set_twice w.map_locks i true false h.unlocked

  pub map_load_held : map_load (pos i) w ≡ ok (some a, loaded)
  unfolding map_load lock_map unlock_map load_tile load_map store_map
  map_load_held = ground (arith, h.number, h.unlocked, h.tile, h.here, unlocked_again)

  taken_back : (m.refs +ℤ pos 1) -ℤ pos 1 ≡ m.refs
  unfolding ◌+ℤ◌ ◌-ℤ◌
  taken_back = rw h.held (ground arith)

  not_last : eqb_ℤ m.refs (pos 0) ≡ false
  not_last = rw h.held (ground arith)

  abbrev given_back : World
  given_back = record w { maps = update loaded.maps a (some m) }

  unload_loaded : map_unload (pos i) loaded ≡ ok (tt, given_back)
  unfolding map_unload map_unload_by drop_ref lock_map unlock_map load_map store_map
  unload_loaded =
      ground (arith, h.number, h.unlocked, h.tile, h.here, unlocked_again, taken_back, not_last)

  same_map : (b : ℕ) → update loaded.maps a (some m) b ≡ w.maps b
  same_map b = ground (arith, h.here)

  same_world : given_back ≡ w
  same_world = ap (λ (f : ℕ → Option Map). record w { maps = f }) (fun_ext (λ b. same_map b))

  -- Loading a map that is loaded, not locked and held by somebody and unloading it again leaves
  -- the whole server as it was.
  pub map_load-map_unload : (map_load (pos i) >>= λ _. map_unload (pos i)) w ≡ ok (tt, w)
  map_load-map_unload = ground (arith, map_load_held, unload_loaded, same_world)

past_last : (A : Type 0) → (xs : List A) (n : ℕ) → length xs ≡ n → get_elem? xs n ≡ none
past_last A [] n e = refl
past_last A (x ∷ xs) zero e = absurd (omega (arith, e))
past_last A (x ∷ xs) (suc n) e = past_last A xs n (omega (arith, e))

-- With one lock for each map, map_load refuses a number that is no map's and changes nothing,
-- except for MAP_COUNT itself, for which it is an access out of bounds.
pub map_load-past_end :
    (w : World) (id : ℤ)
    → length w.map_locks ≡ map_count
    → (ltb_ℤ id (pos 0) || leb_ℤ (pos map_count) id) ≡ true
    → map_load id w ≡ (if eqb_ℤ id (pos map_count) then fault out_of_bounds else ok (none, w))
unfolding map_load lock_map
map_load-past_end w (pos n) h out = ground (arith, past_last Bool w.map_locks n)
map_load-past_end w (negsuc n) h out = ground arith
