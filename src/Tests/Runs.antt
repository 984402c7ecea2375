-- ===== src/Tests/Runs.antt =====
-- Runs of the server and the cache of players at concrete inputs.
use mmo_backend.Base.{
  ◌+◌, ◌*◌, ◌%◌, ◌^◌, ◌≡◌, refl, subst, Bool, true, false, none, some, [], ◌∷◌, ok, arith,
  ℕ_discrete,
}
use mmo_backend.Base.Int.{pos, negsuc, ◌+ℤ◌}
use mmo_backend.Base.Actions.{◌>>=◌}
use mmo_backend.Maps.{Map, map_create}
use mmo_backend.Maps.Collision.{map_toggle_coord}
use mmo_backend.Tables.Assoc.{assoc}
use mmo_backend.World.State.{Player, World, update}
use mmo_backend.World.Sessions.{session_create, session_alloc, new_session}
use mmo_backend.World.Keeps.{IsSound, IsWellFormed, Keeps-pure}
use mmo_backend.World.Keeps.Handling.{KeepsState}
use mmo_backend.World.Runs.{Step, Reach, Reach-IsWellFormed, Reach-map_toggle_coord}
use mmo_backend.World.Random.{map_random_coord, map_random_coord-first}
use mmo_backend.World.Cache.Leaving.{
  player_free_cached, left_by, player_cache_find-player_free_cached,
}
use mmo_backend.World.Cache.{
  Cached, player_cache_insert, player_cache_find, player_cache_find-player_cache_insert,
}
use mmo_backend.Tests.Village.{bare-Represents, field, hero, bot, server, no_services, field-IsGrid}

pub no_services-KeepsState : KeepsState no_services
no_services-KeepsState = record { find = λ code. Keeps-pure none; remove = λ code. Keeps-pure tt }

field-IsSound : IsSound field
unfolding map_create
field-IsSound = record { grid = field-IsGrid; number = omega arith }

server-IsWellFormed : IsWellFormed server
server-IsWellFormed = record {
  sound = λ a m e. elim (ℕ_discrete 10 a) [
    | yes q ↦ subst IsSound (ground (arith, q, e)) field-IsSound
    | no q ↦ absurd (ground (arith, e))
  ];
  locks = refl;
  tiles = refl;
}

abbrev visited : World
visited = record server { next = 101; sessions = update server.sessions 100 (some (new_session 7)) }

opens : Step no_services server visited
unfolding session_create session_alloc
opens = Step.opened true 7 (some 100) refl

visit : Reach no_services server visited
visit = Reach.next Reach.here opens

Reach-IsWellFormed_example : IsWellFormed visited
Reach-IsWellFormed_example =
    Reach-IsWellFormed no_services no_services-KeepsState visit server-IsWellFormed

Reach-map_toggle_coord_example :
    (b : Bool) × (n : Map) × (map_toggle_coord field (pos 3) (negsuc 0) true ≡ ok (b, n))
Reach-map_toggle_coord_example =
    Reach-map_toggle_coord no_services no_services-KeepsState server visited visit
      server-IsWellFormed 10 field refl (pos 3) (negsuc 0) true

abbrev cached : Cached assoc
cached = record { world = server; cache = (b'2' ∷ [], 21) ∷ [] }

player_cache_find-player_cache_insert_example :
    (player_cache_insert assoc (b'1' ∷ []) 20 >>= λ _. player_cache_find assoc (b'1' ∷ [])) cached
    ≡ ok (
      some 20,
      record {
        world = record server {
          players = update server.players 20 (some (record hero { refs = pos 3 }));
          cache_lock = false;
        };
        cache = (b'1' ∷ [], 20) ∷ (b'2' ∷ [], 21) ∷ [];
      },
    )
unfolding ◌+ℤ◌
player_cache_find-player_cache_insert_example =
    player_cache_find-player_cache_insert assoc cached (b'1' ∷ []) 20 hero refl refl refl

map_random_coord-first_example :
    map_random_coord (λ i. 18) 1 (map_create 0 16 4) ≡ ok (18 % 16 * 2 ^ 32 + 18 % 4 % 2 ^ 32)
unfolding map_create
map_random_coord-first_example =
    map_random_coord-first (record { columns = 16; rows = 4; free = λ u v. true })
      (map_create 0 16 4) bare-Represents (omega arith) (omega arith) (λ i. 18) 0
      (λ j l. absurd (omega arith)) refl

-- A player that stands on no map, with one reference.
abbrev guest : Player
guest = record bot { refs = pos 1; map = none }

abbrev visitors : Cached assoc
visitors = record {
  world = record server { players = update server.players 22 (some guest) };
  cache = (b'2' ∷ [], 22) ∷ [];
}

player_cache_find-player_free_cached_example :
    (player_free_cached assoc 22 >>= λ _. player_cache_find assoc (b'2' ∷ [])) visitors
    ≡ ok (none, left_by assoc visitors 22 (b'2' ∷ []) guest)
player_cache_find-player_free_cached_example =
    player_cache_find-player_free_cached assoc visitors 22 (b'2' ∷ []) guest (record {
      unlocked = refl;
      here = refl;
      refs_eq = refl;
      map_eq = refl;
      kept = refl;
      id_eq = refl;
      cached = refl;
    })
