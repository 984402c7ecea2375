-- ===== src/World/Counting.antt =====
-- The references of a map: `map_load` and `map_unload` of backend/maps/map.c in any order, by
-- any threads, count up and down, and the map is there as long as somebody holds it.
use mmo_backend.Base.{
  ℕ, zero, suc, ◌+◌, ◌-◌, ◌<◌, ◌≡◌, refl, ap, ◌∙◌, true, false, none, some, List, [], ◌∷◌, ok,
  arith, get_elem?, set, subst,
}
use mmo_backend.Base.Int.{pos, ◌-ℤ◌, ◌+ℤ◌}
use mmo_backend.Maps.{Map, map_create, map_count, map_def_test_tile, map_def_test_tile_2}
use mmo_backend.World.State.{World, M, pure, load_map, store_map, ◌>>=◌, ◌>>◌, update}
use mmo_backend.World.Loads.{set_twice}
use mmo_backend.World.Loading.{
  map_load, map_unload, drop_ref, map_unload_by, lock_map, unlock_map, load_tile, map_loader,
  map_free, free_players,
}

-- A map that is held as often as the number says, with nobody on it.
pub data Counted (w : World) (i : ℕ) : ℕ → Type 0 where
  absent : get_elem? w.tiles i ≡ some none → Counted w i 0
  present :
      (held a : ℕ) (m : Map)
      → get_elem? w.tiles i ≡ some (some a)
      → w.maps a ≡ some m
      → m.refs ≡ pos (suc held)
      → m.players ≡ []
      → Counted w i (suc held)

pub record IsCounted (w : World) (i n : ℕ) : Type 0 where
  pub unlocked : get_elem? w.map_locks i ≡ some false
  pub counted : Counted w i n

get_elem-set :
    {A : Type 0} (xs : List A) (i : ℕ) (u v : A)
    → get_elem? xs i ≡ some u
    → get_elem? (set xs i v) i ≡ some v
get_elem-set [] i u v e = absurd (ground (arith, e))
get_elem-set (x ∷ xs) zero u v e = ground arith
get_elem-set (x ∷ xs) (suc i) u v e = get_elem-set xs i u v e

-- The server after a step, in which the map is held as often as the number says.
record Leaves {A : Type 0} (m : M A) (w : World) (i n : ℕ) : Type 0 where
  value : A
  after : World
  returns : m w ≡ ok (value, after)
  leaves : IsCounted after i n

fresh_map : (i : ℕ) → ((map_loader i).refs ≡ pos 0) × ((map_loader i).players ≡ [])
unfolding map_loader map_def_test_tile map_def_test_tile_2 map_create
fresh_map zero = (refl, refl)
fresh_map (suc i) = (refl, refl)

module _ (w : World) (i : ℕ) (small : i < map_count)
    (unlocked : get_elem? w.map_locks i ≡ some false) where
  unlocked_again : set (set w.map_locks i true) i false ≡ w.map_locks
  unlocked_again = set_twice w.map_locks i true false unlocked

  abbrev first_map : Map
  first_map = record (map_loader i) { refs = (map_loader i).refs +ℤ pos 1 }

  abbrev first_load : World
  first_load = record w {
    next = w.next + 1;
    maps = update (update w.maps w.next (some (map_loader i))) w.next (some first_map);
    tiles = set w.tiles i (some w.next);
  }

  one_ref : (map_loader i).refs +ℤ pos 1 ≡ pos 1
  unfolding ◌+ℤ◌
  one_ref = rw ((fresh_map i).0) refl

  load_absent : get_elem? w.tiles i ≡ some none → Leaves (map_load (pos i)) w i 1
  unfolding map_load lock_map unlock_map load_tile load_map store_map
  load_absent e = record {
    value = some w.next;
    after = first_load;
    returns = ground (arith, small, unlocked, e, unlocked_again);
    leaves = record {
      unlocked = unlocked;
      counted =
          Counted.present 0 w.next first_map (get_elem-set w.tiles i none (some w.next) e)
            (ground arith) one_ref (fresh_map i).1;
    };
  }

  module _ (held a : ℕ) (m : Map) (tile : get_elem? w.tiles i ≡ some (some a))
      (here : w.maps a ≡ some m) (refs : m.refs ≡ pos (suc held)) (nobody : m.players ≡ []) where
    one_more : m.refs +ℤ pos 1 ≡ pos (suc (suc held))
    unfolding ◌+ℤ◌
    one_more = rw refs (ground arith)

    load_present : Leaves (map_load (pos i)) w i (suc (suc held))
    unfolding map_load lock_map unlock_map load_tile load_map store_map
    load_present = record {
      value = some a;
      after = record w { maps = update w.maps a (some (record m { refs = m.refs +ℤ pos 1 })) };
      returns = ground (arith, small, unlocked, tile, here, unlocked_again);
      leaves = record {
        unlocked = unlocked;
        counted =
            Counted.present (suc held) a (record m { refs = m.refs +ℤ pos 1 }) tile (ground arith)
              one_more nobody;
      };
    }

    abbrev one_less : Map
    one_less = record m { refs = m.refs -ℤ pos 1 }

    count_down : m.refs -ℤ pos 1 ≡ pos held
    unfolding ◌-ℤ◌ ◌+ℤ◌
    count_down = rw refs (ground arith)

    -- The map after the lock was taken, with one reference less.
    abbrev counted_down : World
    counted_down = record w {
      maps = update w.maps a (some one_less);
      map_locks = set w.map_locks i true;
    }

    unload_held : 0 < held → Leaves (map_unload (pos i)) w i held
    unfolding map_unload map_unload_by drop_ref lock_map unlock_map load_map store_map
    unload_held more = record {
      value = tt;
      after = record w { maps = update w.maps a (some one_less) };
      returns = ground (arith, small, unlocked, tile, here, unlocked_again, count_down, more);
      leaves = record {
        unlocked = unlocked;
        counted = subst (Counted _ i) (omega arith) (
            Counted.present (held - 1) a one_less tile (ground arith)
              (count_down ∙ ap pos (omega arith)) nobody);
      };
    }

    unload_last : held ≡ 0 → Leaves (map_unload (pos i)) w i 0
    unfolding map_unload map_unload_by drop_ref lock_map unlock_map load_map store_map map_free
        free_players
    unload_last last = record {
      value = tt;
      after = record w {
        maps = update (update w.maps a (some one_less)) a none;
        tiles = set w.tiles i none;
      };
      returns =
          ground (arith, small, unlocked, tile, here, unlocked_again, count_down, last, nobody);
      leaves = record {
        unlocked = unlocked;
        counted = Counted.absent (get_elem-set w.tiles i (some a) none tile);
      };
    }

-- What a thread does with the map.
pub data Use : Type 0 where
  takes gives_up : Use

abbrev pub run_uses : ℕ → List Use → M (Unit {0})
run_uses i [] = pure tt
run_uses i (takes ∷ uses) = map_load (pos i) >>= λ _. run_uses i uses
run_uses i (gives_up ∷ uses) = map_unload (pos i) >> run_uses i uses

-- How often the map is held then; nobody gives up what nobody holds.
abbrev pub held_after : List Use → ℕ → ℕ
held_after [] n = n
held_after (takes ∷ uses) n = held_after uses (n + 1)
held_after (gives_up ∷ uses) n = held_after uses (n - 1)

module _ (i : ℕ) (small : i < map_count) where
  taken :
      (w : World) (n : ℕ)
      → get_elem? w.map_locks i ≡ some false
      → Counted w i n
      → Leaves (map_load (pos i)) w i (n + 1)
  taken w n unlocked (Counted.absent e) = load_absent w i small unlocked e
  taken w n unlocked (Counted.present held a m tile here refs nobody) =
      subst (Leaves (map_load (pos i)) w i) (omega arith)
        (load_present w i small unlocked held a m tile here refs nobody)

  given_up :
      (w : World) (n : ℕ)
      → get_elem? w.map_locks i ≡ some false
      → Counted w i n
      → Leaves (map_unload (pos i)) w i (n - 1)
  unfolding map_unload map_unload_by
  given_up w n unlocked (Counted.absent e) = record {
    value = tt;
    after = w;
    returns = ground (arith, small, e);
    leaves = record { unlocked = unlocked; counted = Counted.absent e };
  }
  given_up w n unlocked (Counted.present zero a m tile here refs nobody) =
      unload_last w i small unlocked 0 a m tile here refs nobody refl
  given_up w n unlocked (Counted.present (suc held) a m tile here refs nobody) =
      subst (Leaves (map_unload (pos i)) w i) (omega arith)
        (unload_held w i small unlocked (suc held) a m tile here refs nobody (omega arith))

  -- When threads take and give up a map that nobody stands on, in any order, each step ends
  -- without a fault and leaves the map's lock free; and after them the map is there with as many
  -- references as it is held, and it is not there when it is held no more. The map's number is
  -- one of the maps', its lock is free at first, and giving up what nobody holds does nothing.
  pub run_uses-IsCounted :
      (uses : List Use) (w : World) (n : ℕ)
      → IsCounted w i n
      → (after : World) × (run_uses i uses w ≡ ok (tt, after))
        × IsCounted after i (held_after uses n)
  run_uses-IsCounted [] w n c = (w, refl, c)
  run_uses-IsCounted (takes ∷ uses) w n c =
      let s = taken w n c.unlocked c.counted in
      let (after, done, counted) = run_uses-IsCounted uses s.after (n + 1) s.leaves in
      (after, ground (arith, s.returns, done), counted)
  run_uses-IsCounted (gives_up ∷ uses) w n c =
      let s = given_up w n c.unlocked c.counted in
      let (after, done, counted) = run_uses-IsCounted uses s.after (n - 1) s.leaves in
      (after, ground (arith, s.returns, done), counted)
