-- ===== src/World/Cache/Leaving.antt =====
-- `player_free` of backend/player/player.c with the removal from the cache.
use mmo_backend.Base.{
  ℕ, ◌≡◌, refl, ap, ◌∙◌, false, if◌then◌else◌, Option, none, some, List, Result, ok, fault, arith,
}
use mmo_backend.Base.Int.{pos, ◌-ℤ◌, ltb_ℤ}
use mmo_backend.Base.Strings.{same_string_refl}
use mmo_backend.Base.Actions.{Action, pure, gets, modify, ◌>>=◌, ◌>>◌}
use mmo_backend.Tables.{HashTable}
use mmo_backend.World.State.{Player, update, load_player, store_player}
use mmo_backend.World.Loading.{player_cache_lock, player_cache_unlock, player_free, release_player}
use mmo_backend.World.Cache.{
  Cached, in_world, player_cache_destroy_cache, player_cache_find, player_cache_find-missing,
}

module _ (h : HashTable ℕ) where
  -- `g_hash_table_remove`, which destroys the value.
  unfoldable pub forget_found : List ℕ → Option ℕ → Action (Cached h) (Unit {0})
  unfolding player_cache_destroy_cache
  forget_found id none = pure tt
  forget_found id (some p) = do
    modify (λ (s : Cached h). record s { cache = h.remove s.cache id })
    player_cache_destroy_cache h p

  unfoldable pub forget : Option (List ℕ) → Action (Cached h) (Unit {0})
  unfolding forget_found
  forget none = pure tt
  forget (some id) = gets (λ (s : Cached h). h.lookup s.cache id) >>= forget_found id

  -- The last reference is given up: inside the cache's lock a further call of `player_free` meets that lock.
  unfoldable pub leave : ℕ → Player → Action (Cached h) (Unit {0})
  unfolding forget
  leave a player = do
    in_world h (release_player (player_free 1) player)
    forget player.id
    in_world h player_cache_unlock
    in_world h (λ w. ok (tt, record w { players = update w.players a none }))

  unfoldable pub player_free_cached : ℕ → Action (Cached h) (Unit {0})
  unfolding leave
  player_free_cached a = do
    in_world h player_cache_lock
    player ← in_world h (load_player a)
    let left = player.refs -ℤ pos 1
    in_world h (store_player a (record player { refs = left }))
    if ltb_ℤ (pos 0) left then in_world h player_cache_unlock else leave a player

  -- The last reference to a cached player.
  pub record Last (s : Cached h) (a : ℕ) (id : List ℕ) (player : Player) : Type 0 where
    pub unlocked : s.world.cache_lock ≡ false
    pub here : s.world.players a ≡ some player
    pub refs_eq : player.refs ≡ pos 1
    pub map_eq : player.map ≡ none
    pub kept : player.modified ≡ false
    pub id_eq : player.id ≡ some id
    pub cached : h.lookup s.cache id ≡ some a

  abbrev pub left_by : Cached h → ℕ → List ℕ → Player → Cached h
  left_by s a id player = record {
    world = record s.world {
      players = update (update s.world.players a (some (record player { refs = pos 0 }))) a none;
      cache_lock = false;
    };
    cache = h.remove s.cache id;
  }

  player_free_cached-left_by :
      (s : Cached h) (a : ℕ) (id : List ℕ) (player : Player)
      → Last s a id player
      → player_free_cached a s ≡ ok (tt, left_by s a id player)
  unfolding player_free_cached player_cache_lock load_player store_player player_cache_unlock
      release_player forget ◌-ℤ◌
  player_free_cached-left_by s a id player l =
      ground (arith, l.unlocked, l.here, l.refs_eq, l.map_eq, l.kept, l.id_eq, l.cached)

  gone : (s : Cached h) (id : List ℕ) → h.lookup (h.remove s.cache id) id ≡ none
  gone s id = ground (arith, h.lookup-remove s.cache id id, same_string_refl id)

  -- When the cache's lock is free and a player who is cached under its id stands on no map, is
  -- not modified and has one reference, player_free gives it up and takes it out of the cache:
  -- its id is not found any more, the lock is free again, and the other players and the rest of
  -- the server are as they were.
  pub player_cache_find-player_free_cached :
      (s : Cached h) (a : ℕ) (id : List ℕ) (player : Player)
      → Last s a id player
      → (player_free_cached a >>= λ _. player_cache_find h id) s ≡ ok (none, left_by s a id player)
  player_cache_find-player_free_cached s a id player l =
      ap
        (λ (r : Result (Unit {0} × Cached h)). elim r [
          | ok (x, v) ↦ player_cache_find h id v
          | fault e ↦ fault e
        ])
        (player_free_cached-left_by s a id player l)
      ∙ player_cache_find-missing h (left_by s a id player) id refl (gone s id)
