-- ===== src/World/Cache.antt =====
-- The cache of players by their ids, of backend/player/player.c, beside the rest of the server.
pub mod Leaving
use mmo_backend.Base.{
  ℕ, ◌≡◌, ◌≢◌, Bool, true, false, if◌then◌else◌, Option, none, some, List, [], ◌∷◌, ok, fault,
  deadlock, arith,
}
use mmo_backend.Base.Int.{pos, ◌+ℤ◌, eqb_ℤ}
use mmo_backend.Base.Strings.{same_string_refl}
use mmo_backend.Base.Actions.{Action, pure, gets, modify, ◌>>=◌, ◌>>◌}
use mmo_backend.Tables.{HashTable}
use mmo_backend.World.State.{World, Player, M, update, load_player, store_player}
use mmo_backend.World.Loading.{player_cache_lock, player_cache_unlock, player_free, free_depth}

module _ (h : HashTable ℕ) where
  pub record Cached : Type 0 where
    pub world : World
    pub cache : h.Table

  -- A step of the server, which does not touch the cache.
  abbrev pub in_world : {A : Type 0} → M A → Action Cached A
  in_world m s = elim (m s.world) [
    | ok (a, w) ↦ ok (a, record { world = w; cache = s.cache })
    | fault e ↦ fault e
  ]

  unfoldable pub player_cache_init : Action Cached (Unit {0})
  player_cache_init = modify (λ (s : Cached). record s { cache = h.empty })

  -- What the table does to a value that it drops.
  unfoldable pub player_cache_destroy_cache : ℕ → Action Cached (Unit {0})
  player_cache_destroy_cache p = do
    player ← in_world (load_player p)
    if eqb_ℤ player.refs (pos 0) then pure tt else in_world (player_free free_depth p)

  unfoldable pub destroy_players : List (List ℕ × ℕ) → Action Cached (Unit {0})
  unfolding player_cache_destroy_cache
  destroy_players [] = pure tt
  destroy_players ((id, p) ∷ rest) = do player_cache_destroy_cache p; destroy_players rest

  -- `g_hash_table_destroy` destroys the values, and the table with them.
  unfoldable pub player_cache_destroy : Action Cached (Unit {0})
  unfolding destroy_players
  player_cache_destroy = do
    players ← gets (λ (s : Cached). h.entries s.cache)
    destroy_players players
    modify (λ (s : Cached). record s { cache = h.empty })

  unfoldable pub drop_old : Option ℕ → Action Cached Bool
  unfolding player_cache_destroy_cache
  drop_old none = pure true
  drop_old (some old) = do player_cache_destroy_cache old; pure false

  unfoldable pub player_cache_insert : List ℕ → ℕ → Action Cached Bool
  unfolding drop_old
  player_cache_insert id player = do
    in_world player_cache_lock
    old ← gets (λ (s : Cached). h.lookup s.cache id)
    modify (λ (s : Cached). record s { cache = h.insert s.cache id player })
    success ← drop_old old
    in_world player_cache_unlock
    pure success

  unfoldable pub ref_found : Option ℕ → Action Cached (Option ℕ)
  ref_found none = do in_world player_cache_unlock; pure none
  ref_found (some p) = do
    player ← in_world (load_player p)
    in_world (store_player p (record player { refs = player.refs +ℤ pos 1 }))
    in_world player_cache_unlock
    pure (some p)

  unfoldable pub player_cache_find : List ℕ → Action Cached (Option ℕ)
  unfolding ref_found
  player_cache_find id = do
    in_world player_cache_lock
    found ← gets (λ (s : Cached). h.lookup s.cache id)
    ref_found found

  -- When the cache's lock is free, the id is not in the cache and the player is there, the
  -- player that is inserted under an id is found under it, with one reference more; the lock is
  -- free again, and nothing else of the server changes.
  pub player_cache_find-player_cache_insert :
      (s : Cached) (id : List ℕ) (p : ℕ) (player : Player)
      → s.world.cache_lock ≡ false
      → h.lookup s.cache id ≡ none
      → s.world.players p ≡ some player
      → ((player_cache_insert id p >>= λ _. player_cache_find id) s)
        ≡ ok (
          some p,
          record {
            world = record s.world {
              players =
                  update s.world.players p (some (record player { refs = player.refs +ℤ pos 1 }));
              cache_lock = false;
            };
            cache = h.insert s.cache id p;
          },
        )
  unfolding player_cache_insert player_cache_find player_cache_lock player_cache_unlock load_player
      store_player
  player_cache_find-player_cache_insert s id p player l v e =
      ground (arith, l, v, e, h.lookup-insert s.cache id id p, same_string_refl id)

  pub player_cache_find-missing :
      (s : Cached) (id : List ℕ)
      → s.world.cache_lock ≡ false
      → h.lookup s.cache id ≡ none
      → player_cache_find id s
        ≡ ok (none, record s { world = record s.world { cache_lock = false } })
  unfolding player_cache_find player_cache_lock player_cache_unlock
  player_cache_find-missing s id l v = ground (arith, l, v)

  -- When the cache's lock is free and the id is in the cache for a player who is there and whose
  -- references are not zero, inserting under that id takes the lock twice.
  pub player_cache_insert-taken :
      (s : Cached) (id : List ℕ) (p old : ℕ) (player : Player)
      → s.world.cache_lock ≡ false
      → h.lookup s.cache id ≡ some old
      → s.world.players old ≡ some player
      → player.refs ≢ pos 0
      → player_cache_insert id p s ≡ fault deadlock
  unfolding player_cache_insert player_cache_lock load_player player_free
  player_cache_insert-taken s id p old player l v e held = ground (arith, l, v, e)
