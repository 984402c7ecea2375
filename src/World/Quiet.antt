-- ===== src/World/Quiet.antt =====
-- Places without events: `map_event_activate` of backend/maps/map.c where no event runs.
use mmo_backend.Base.{ℕ, ◌≡◌, refl, false, ◌&&◌, List, [], ◌∷◌, ok, arith}
use mmo_backend.Base.Int.{ℤ, eqb_ℤ}
use mmo_backend.Maps.{Map, MapEvent}
use mmo_backend.World.State.{World, M, load_map}
use mmo_backend.World.Loads.{Held, loaded, map_load_held, map_load-map_unload}
use mmo_backend.World.Placement.{run_events, activate_by}

-- No event of the map is at a place.
abbrev pub IsQuiet : List MapEvent → ℤ → ℤ → Type 0
IsQuiet [] x y = Unit {0}
IsQuiet (event ∷ events) x y = (eqb_ℤ event.x x && eqb_ℤ event.y y ≡ false) × IsQuiet events x y

run_events-quiet :
    (spawn : ℤ → ℕ → ℤ → ℤ → ℤ → M ℤ) (player : ℕ) (x y : ℤ) (events : List MapEvent) (w : World)
    → IsQuiet events x y
    → run_events spawn player x y events w ≡ ok (tt, w)
unfolding run_events
run_events-quiet spawn player x y [] w q = refl
run_events-quiet spawn player x y (event ∷ events) w (q, qs) =
    ground (arith, run_events-quiet spawn player x y events w qs)

-- At a place without events, a map that is held and that knows its number sets off nothing.
pub activate-quiet :
    (spawn : ℤ → ℕ → ℤ → ℤ → ℤ → M ℤ) (w : World) (i a : ℕ) (m : Map) (x y : ℤ) (player : ℕ)
    → Held w i a m
    → m.id ≡ i
    → IsQuiet m.events x y
    → activate_by spawn a x y player w ≡ ok (tt, w)
unfolding activate_by load_map
activate-quiet spawn w i a m x y player h e q = ground (
  arith,
  h.here,
  e,
  map_load_held w i a m h,
  map_load-map_unload w i a m h,
  run_events-quiet spawn player x y m.events (loaded w i a m h) q,
)
