-- ===== src/World/Keeps/Lifetime.antt =====
-- Loading and unloading maps and letting go of players keep the state well formed.
use mmo_backend.Base.{
  ℕ, zero, suc, ◌≡◌, ◌∙◌, refl, Bool, true, false, Option, none, some, List, [], ◌∷◌, length-set,
  set, get_elem?, arith, out_of_bounds, out_of_fuel, deadlock, ok, fault, if◌then◌else◌, ℕ_discrete,
  ◌+◌,
}
use mmo_backend.Base.Int.{ℤ, pos, ◌+ℤ◌}
use mmo_backend.Maps.{Map}
use mmo_backend.World.State.{
  World, Player, M, pure, ◌>>=◌, ◌>>◌, need, update, get_world, load_map, store_map,
}
use mmo_backend.World.Loading.{
  map_loader, lock_map, unlock_map, player_cache_lock, player_cache_unlock, load_tile, map_number,
  map_load, free_players, map_free, drop_ref, map_unload_by, db_player_write_player, release_player,
  player_free, free_depth, map_unload, player_ref,
}
use mmo_backend.World.Keeps.{
  IsSound, IsWellFormed, Leaves, Keeps, keeps_rules, Keeps-pure, Keeps-if, Keeps-then, Keeps-step,
  Keeps-store_map, Keeps-fail, stored,
}
use mmo_backend.World.Keeps.Bitmaps.{IsSound-same, map_loader-IsSound}

Keeps-set_lock :
    (i : ℕ) (b : Bool) → Keeps (λ w. ok (tt, record w { map_locks = set w.map_locks i b }))
Keeps-set_lock i b = Keeps-step _ (λ w h. record {
  sound = h.sound;
  locks = length-set w.map_locks i b ∙ h.locks;
  tiles = h.tiles;
})

Keeps-set_cache_lock : (b : Bool) → Keeps (λ w. ok (tt, record w { cache_lock = b }))
Keeps-set_cache_lock b =
    Keeps-step _ (λ w h. record { sound = h.sound; locks = h.locks; tiles = h.tiles })

Keeps-clear_tile : (i : ℕ) → Keeps (λ w. ok (tt, record w { tiles = set w.tiles i none }))
Keeps-clear_tile i = Keeps-step _ (λ w h. record {
  sound = h.sound;
  locks = h.locks;
  tiles = length-set w.tiles i none ∙ h.tiles;
})

erased :
    (f : ℕ → Option Map) (a b : ℕ) (n : Map)
    → (f b ≡ some n → IsSound n)
    → update f a none b ≡ some n
    → IsSound n
erased f a b n old e = elim (ℕ_discrete a b) [
  | yes same ↦ absurd (ground arith)
  | no ne ↦ old (ground arith)
]

Keeps-erase_map : (a : ℕ) → Keeps (λ w. ok (tt, record w { maps = update w.maps a none }))
Keeps-erase_map a = Keeps-step _ (λ w h. record {
  sound = λ b n e. erased w.maps a b n (h.sound b n) e;
  locks = h.locks;
  tiles = h.tiles;
})

Keeps-erase_player : (a : ℕ) → Keeps (λ w. ok (tt, record w { players = update w.players a none }))
Keeps-erase_player a =
    Keeps-step _ (λ w h. record { sound = h.sound; locks = h.locks; tiles = h.tiles })

Keeps-save : (p : Player) → Keeps (λ w. ok (tt, record w { saved = p ∷ w.saved }))
Keeps-save p = Keeps-step _ (λ w h. record { sound = h.sound; locks = h.locks; tiles = h.tiles })

ruleset steps = (
  keeps_rules, Keeps-set_lock, Keeps-set_cache_lock, Keeps-clear_tile, Keeps-erase_map,
  Keeps-erase_player, Keeps-save,
)

pub Keeps-lock_map : (i : ℕ) → Keeps (lock_map i)
unfolding lock_map
Keeps-lock_map i = search steps

pub Keeps-unlock_map : (i : ℕ) → Keeps (unlock_map i)
unfolding unlock_map
Keeps-unlock_map i = search steps

locked :
    (b : Bool) (w : World)
    → IsWellFormed w
    → Leaves {A = Unit {0}} (if b then fault deadlock else ok (tt, record w { cache_lock = true }))
locked true w h = tt
locked false w h = record { sound = h.sound; locks = h.locks; tiles = h.tiles }

pub Keeps-player_cache_lock : Keeps player_cache_lock
unfolding player_cache_lock
Keeps-player_cache_lock = record { at = λ w h. locked w.cache_lock w h }

pub Keeps-player_cache_unlock : Keeps player_cache_unlock
unfolding player_cache_unlock
Keeps-player_cache_unlock = search steps

pub Keeps-player_ref : (a : ℕ) → Keeps (player_ref a)
unfolding player_ref
Keeps-player_ref a = search keeps_rules

Keeps-new_tile :
    (i : ℕ)
    → Keeps (λ v. ok (
      v.next,
      record v {
        next = v.next + 1;
        maps = update v.maps v.next (some (map_loader i));
        tiles = set v.tiles i (some v.next);
      },
    ))
Keeps-new_tile i = record {
  at = λ w h. record {
    sound = λ b n e. stored w.maps w.next b (map_loader i) n (map_loader-IsSound i) (h.sound b n) e;
    locks = h.locks;
    tiles = length-set w.tiles i (some w.next) ∙ h.tiles;
  };
}

tile_kept :
    (i : ℕ) (tile : Option ℕ)
    → Keeps {A = ℕ} (elim tile [
      | some a ↦ pure a
      | none ↦ λ v. ok (
        v.next,
        record v {
          next = v.next + 1;
          maps = update v.maps v.next (some (map_loader i));
          tiles = set v.tiles i (some v.next);
        },
      )
    ])
tile_kept i none = Keeps-new_tile i
tile_kept i (some a) = Keeps-pure a

Keeps-load_tile : (i : ℕ) → Keeps (load_tile i)
unfolding load_tile
Keeps-load_tile i = search (steps, tile_kept)

ref_counted : (m : Map) (r : ℤ) → IsSound m → IsSound (record m { refs = r })
ref_counted m r s = IsSound-same m _ refl refl refl refl s

number_kept :
    (number : Option ℕ)
    → Keeps {A = Option ℕ} (elim number [
      | none ↦ pure none
      | some i ↦ do
        lock_map i
        a ← load_tile i
        m ← load_map a
        store_map a (record m { refs = m.refs +ℤ pos 1 })
        unlock_map i
        pure (some a)
    ])
number_kept none = Keeps-pure none
number_kept (some i) =
    search (steps, Keeps-load_tile, Keeps-lock_map, Keeps-unlock_map, Keeps-store_map, ref_counted)
      depth 12

pub Keeps-map_load : (id : ℤ) → Keeps (map_load id)
unfolding map_load
Keeps-map_load id = number_kept (map_number id)

module _ (free_player : ℕ → M (Unit {0})) (k : (a : ℕ) → Keeps (free_player a)) where
  Keeps-free_players : (ps : List ℕ) → Keeps (free_players free_player ps)
  unfolding free_players
  Keeps-free_players [] = Keeps-pure tt
  Keeps-free_players (p ∷ ps) = Keeps-then _ _ (k p) (Keeps-free_players ps)

  Keeps-map_free : (a : ℕ) → Keeps (map_free free_player a)
  unfolding map_free
  Keeps-map_free a = search (steps, Keeps-free_players)

  Keeps-drop_ref : (i a : ℕ) → Keeps (drop_ref free_player i a)
  unfolding drop_ref
  Keeps-drop_ref i a =
      search (steps, Keeps-map_free, Keeps-lock_map, Keeps-unlock_map, Keeps-store_map, ref_counted)
        depth 12

  held_kept :
      (i : ℕ) (tile : Option ℕ)
      → Keeps {A = Unit {0}} (elim tile [ none ↦ pure tt | some a ↦ drop_ref free_player i a ])
  held_kept i none = Keeps-pure tt
  held_kept i (some a) = Keeps-drop_ref i a

  unload_kept :
      (number : Option ℕ)
      → Keeps {A = Unit {0}} (elim number [
        | none ↦ pure tt
        | some i ↦ do
          w ← get_world
          tile ← need (get_elem? w.tiles i) out_of_bounds
          elim tile [ none ↦ pure tt | some a ↦ drop_ref free_player i a ]
      ])
  unload_kept none = Keeps-pure tt
  unload_kept (some i) = search (steps, held_kept)

  Keeps-map_unload_by : (id : ℤ) → Keeps (map_unload_by free_player id)
  unfolding map_unload_by
  Keeps-map_unload_by id = unload_kept (map_number id)

  map_kept :
      (o : Option ℕ)
      → Keeps {A = Unit {0}} (elim o [
        | none ↦ pure tt
        | some a ↦ do m ← load_map a; map_unload_by free_player (pos m.id)
      ])
  map_kept none = Keeps-pure tt
  map_kept (some a) = search (steps, Keeps-map_unload_by)

  Keeps-db_player_write_player : (p : Player) → Keeps (db_player_write_player p)
  unfolding db_player_write_player
  Keeps-db_player_write_player p = search steps

  Keeps-release_player : (p : Player) → Keeps (release_player free_player p)
  unfolding release_player
  Keeps-release_player p =
      Keeps-then _ _ (Keeps-if p.modified _ _ (Keeps-db_player_write_player p) (Keeps-pure tt))
        (map_kept p.map)

pub Keeps-player_free : (fuel a : ℕ) → Keeps (player_free fuel a)
unfolding player_free
Keeps-player_free zero a = Keeps-fail out_of_fuel
Keeps-player_free (suc fuel) a =
    search
      (
        steps,
        Keeps-player_cache_lock,
        Keeps-player_cache_unlock,
        Keeps-release_player (player_free fuel) (λ b. Keeps-player_free fuel b),
      )
      depth 12

pub Keeps-map_unload : (id : ℤ) → Keeps (map_unload id)
unfolding map_unload
Keeps-map_unload id = Keeps-map_unload_by _ (Keeps-player_free free_depth) id
