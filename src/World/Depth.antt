-- ===== src/World/Depth.antt =====
-- How deep `player_free` goes: a second call inside the first meets the cache lock.
use mmo_backend.Base.{
  ℕ, suc, ◌≡◌, refl, Bool, true, false, Option, none, some, List, [], ◌∷◌, ok, fault, deadlock,
  Option-cases, inl, inr, arith, get_elem?, Bool-cases, if◌then◌else◌,
}
use mmo_backend.Base.Int.{ℤ, pos, ◌-ℤ◌}
use mmo_backend.World.State.{
  World, Player, M, load_map, store_map, load_player, store_player, ◌>>=◌, ◌>>◌, pure, update,
}
use mmo_backend.World.Loading.{
  free_players, map_free, drop_ref, map_unload_by, release_player, player_free, player_cache_lock,
  lock_map, db_player_write_player, free_depth, map_number,
}

abbrev Unlocker : Type 0
Unlocker = ℕ → M (Unit {0})

-- Two ways to give players up that agree while the cache lock is held.
abbrev AgreeOn : {A : Type 0} → M A → M A → Type 0
AgreeOn f g = (w : World) → w.cache_lock ≡ true → f w ≡ g w

free_locked :
    (f : ℕ) (a : ℕ) (w : World) → w.cache_lock ≡ true → player_free (suc f) a w ≡ fault deadlock
unfolding player_free player_cache_lock
free_locked f a w h = rw h

free_players-agree :
    (f g : ℕ) (ps : List ℕ)
    → AgreeOn (free_players (player_free (suc f)) ps) (free_players (player_free (suc g)) ps)
unfolding free_players
free_players-agree f g [] w h = refl
free_players-agree f g (p ∷ ps) w h = ground (arith, free_locked f p w, free_locked g p w)

module _ (f g : Unlocker)
    (agree : (ps : List ℕ) → AgreeOn (free_players f ps) (free_players g ps)) where
  map_free-agree : (a : ℕ) → AgreeOn (map_free f a) (map_free g a)
  unfolding map_free load_map
  map_free-agree a w h = elim (Option-cases (w.maps a)) [
    | inl e ↦ ground arith
    | inr (m, e) ↦ ground (arith, agree m.players w)
  ]

  drop_ref-agree : (i a : ℕ) → AgreeOn (drop_ref f i a) (drop_ref g i a)
  unfolding drop_ref lock_map store_map load_map
  drop_ref-agree i a w h = grind (arith, map_free-agree)

  unload-agree : (id : ℤ) → AgreeOn (map_unload_by f id) (map_unload_by g id)
  unfolding map_unload_by
  unload-agree id w h = elim (Option-cases (map_number id)) [
    | inl e ↦ ground arith
    | inr (i, e) ↦ elim (Option-cases (get_elem? w.tiles i)) [
      | inl e' ↦ ground arith
      | inr (t, e') ↦ elim (Option-cases t) [
        | inl e'' ↦ ground arith
        | inr (a, e'') ↦ ground (arith, drop_ref-agree i a w)
      ]
    ]
  ]

  abbrev unload_at : Unlocker → Option ℕ → M (Unit {0})
  unload_at free_player a = elim a [
    | none ↦ pure tt
    | some b ↦ do m ← load_map b; map_unload_by free_player (pos m.id)
  ]

  unload_at-agree : (a : Option ℕ) → AgreeOn (unload_at f a) (unload_at g a)
  unfolding load_map
  unload_at-agree none w h = refl
  unload_at-agree (some a) w h = elim (Option-cases (w.maps a)) [
    | inl e ↦ ground arith
    | inr (m, e) ↦ ground (arith, unload-agree (pos m.id) w)
  ]

  saved_then-agree :
      (p : Player) (a : Option ℕ)
      → AgreeOn
          (do db_player_write_player p; unload_at f a)
          (do db_player_write_player p; unload_at g a)
  unfolding db_player_write_player load_map
  saved_then-agree p a w h = elim (Option-cases p.map) [
    | inl e ↦ ground arith
    | inr (b, e) ↦ elim (Option-cases (w.maps b)) [
      | inl e' ↦ ground arith
      | inr (m, e') ↦ ground (arith, unload_at-agree a (record w { saved = p ∷ w.saved }))
    ]
  ]

  save_then-agree :
      (b : Bool) (p : Player) (a : Option ℕ)
      → AgreeOn
          (do (if b then db_player_write_player p else pure tt); unload_at f a)
          (do (if b then db_player_write_player p else pure tt); unload_at g a)
  save_then-agree true p a = saved_then-agree p a
  save_then-agree false p a = unload_at-agree a

  release-agree : (p : Player) → AgreeOn (release_player f p) (release_player g p)
  unfolding release_player
  release-agree p = save_then-agree p.modified p p.map

lock_held : (w : World) → w.cache_lock ≡ true → player_cache_lock w ≡ fault deadlock
unfolding player_cache_lock
lock_held w e = rw e

lock_free :
    (w : World)
    → w.cache_lock ≡ false
    → player_cache_lock w ≡ ok (tt, record w { cache_lock = true })
unfolding player_cache_lock
lock_free w e = rw e

-- With any fuel of two or more player_free does the same, faults included: its recursion through
-- map_unload and map_free is cut off by the lock of the player cache.
pub player_free-depth :
    (fuel a : ℕ) (w : World) → player_free (suc (suc fuel)) a w ≡ player_free free_depth a w
unfolding player_free store_player load_player
player_free-depth fuel a w = elim (Bool-cases w.cache_lock) [
  | inl e ↦ ground (arith, lock_held w)
  | inr e ↦ elim (Option-cases (w.players a)) [
    | inl e' ↦ ground (arith, lock_free w)
    | inr (p, e') ↦
        let locked = record w {
          cache_lock = true;
          players = update w.players a (some (record p { refs = p.refs -ℤ pos 1 }));
        } in
        let same =
          release-agree (player_free (suc fuel)) (player_free 1) (free_players-agree fuel 0) p
            locked refl in
        ground (arith, same, lock_free w)
  ]
]
