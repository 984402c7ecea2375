-- ===== src/World/Keeps/Places.antt =====
-- Moving players, telling others of it and running events keep the state well formed.
use mmo_backend.Base.{
  ℕ, zero, suc, ◌==◌, ◌%◌, ◌≡◌, refl, Bool, true, false, not, ◌&&◌, if◌then◌else◌, Option, none,
  some, List, [], ◌∷◌, Result, ok, fault, null_pointer, out_of_fuel,
}
use mmo_backend.Base.Int.{ℤ, pos, pattern32}
use mmo_backend.Maps.{Map, MapEvent, EventFunc, hello, goodbye, change_map}
use mmo_backend.Maps.Collision.{map_toggle_coord, map_check_bounds}
use mmo_backend.Movement.{movement_check_valid}
use mmo_backend.Packet.Templates.{packet_template_update_position}
use mmo_backend.World.State.{M, pure, ◌>>=◌, ◌>>◌, need, lift, load_map, store_map, load_player}
use mmo_backend.World.Loading.{map_load, map_unload}
use mmo_backend.World.Occupants.{write_to, map_send_map_packet, map_add_player, map_remove_player}
use mmo_backend.World.Placement.{
  MoveArgs, toggle_at, arrive, leave_old, within_reach, move_by, show_others, spawn_by,
  change_map_by, run_event, run_events, activate_by, player_move, map_spawn_player, move_depth,
}
use mmo_backend.World.Keeps.{
  IsSound, Keeps, keeps_rules, Keeps-pure, Keeps-fail, Keeps-bind, Keeps-then, Keeps-if,
  Keeps-store_map, Keeps-load_player, Keeps-bind-load_map,
}
use mmo_backend.World.Keeps.Bitmaps.{map_toggle_coord-IsSound}
use mmo_backend.World.Keeps.Lifetime.{Keeps-map_load, Keeps-map_unload}
use mmo_backend.World.Keeps.Occupants.{
  Keeps-write_to, Keeps-map_send_packet, Keeps-map_send_map_packet, Keeps-map_add_player,
  Keeps-map_remove_player,
}

pub Keeps-toggle_at : (a : Option ℕ) (x y : ℤ) (d : Bool) → Keeps (toggle_at a x y d)
unfolding toggle_at
Keeps-toggle_at none x y d = Keeps-pure false
Keeps-toggle_at (some a) x y d = Keeps-bind-load_map a _ λ m s.
    answered m s (map_toggle_coord m x y d) (λ b n e. map_toggle_coord-IsSound m n x y d b s e)
  where
    answered :
        (m : Map)
        → IsSound m
        → (r : Result (Bool × Map)) → ((b : Bool) (n : Map) → r ≡ ok (b, n) → IsSound n)
        → Keeps (lift r >>= λ r. (if r.0 then store_map a r.1 else pure tt) >> pure r.0)
    answered m s (fault e) k = Keeps-fail e
    answered m s (ok (true, n)) k =
        Keeps-then _ _ (Keeps-store_map _ n (k true n refl)) (Keeps-pure true)
    answered m s (ok (false, n)) k = Keeps-pure false

Keeps-leave_old : (old : Option ℕ) (player : ℕ) → Keeps (leave_old old player)
unfolding leave_old
Keeps-leave_old none player = Keeps-pure true
Keeps-leave_old (some a) player = search (keeps_rules, Keeps-toggle_at)

reached_kept :
    (player : ℕ) (x y : ℤ) (map : Option ℕ)
    → Keeps {A = Bool} (elim map [
      | some a ↦ pure true
      | none ↦ do p ← load_player player; lift (movement_check_valid p.max_move p.x p.y x y)
    ])
reached_kept player x y none = search keeps_rules
reached_kept player x y (some a) = Keeps-pure true

Keeps-within_reach : (player : ℕ) (x y : ℤ) (args : MoveArgs) → Keeps (within_reach player x y args)
unfolding within_reach
Keeps-within_reach player x y args = reached_kept player x y args.map

changed_kept :
    (old : Option ℕ) (player : ℕ) (map : Option ℕ)
    → Keeps {A = Unit {0}} (elim map [
      | none ↦ pure tt
      | some a ↦ do map_remove_player old (some player); map_add_player a player
    ])
changed_kept old player none = Keeps-pure tt
changed_kept old player (some a) =
    search (keeps_rules, Keeps-map_remove_player, Keeps-map_add_player)

-- Moves whose events keep the state well formed.
module _ (activate : ℕ → ℤ → ℤ → ℕ → M (Unit {0}))
    (k : (a : ℕ) (x y : ℤ) (player : ℕ) → Keeps (activate a x y player)) where
  Keeps-arrive :
      (player : ℕ) (x y : ℤ) (suppress : Bool) → Keeps (arrive activate player x y suppress)
  unfolding arrive
  Keeps-arrive player x y suppress = search (keeps_rules, Keeps-map_send_packet, k) depth 12

  taken_kept :
      (old : Option ℕ) (player : ℕ) (x y : ℤ) (suppress : Bool)
      → Keeps (
          leave_old old player >>= λ left.
          if not left then pure false else (arrive activate player x y suppress >> pure true))
  taken_kept old player x y suppress = search (keeps_rules, Keeps-leave_old, Keeps-arrive)

  tested_kept :
      (old : Option ℕ) (player : ℕ) (x y : ℤ) (args : MoveArgs)
      → Keeps {A = Bool} (do
        p ← load_player player
        a ← need p.map null_pointer
        m ← load_map a
        if not (map_check_bounds m x y) then pure false else do
          taken ← toggle_at p.map x y true
          if not taken && not args.overlap then pure false else do
            left ← leave_old old player
            if not left
                then pure false
                else (do arrive activate player x y args.suppress_events; pure true))
  tested_kept old player x y args = search (keeps_rules, Keeps-toggle_at, taken_kept) depth 12

  Keeps-move_by :
      (player : ℕ) (x y : ℤ) (args : MoveArgs) → Keeps (move_by activate player x y args)
  unfolding move_by
  Keeps-move_by player x y args =
      Keeps-bind (load_player player) _ (Keeps-load_player player) λ old.
        Keeps-then _ _ (changed_kept old.map player args.map) (
          Keeps-bind (within_reach player x y args) _ (Keeps-within_reach player x y args)
            λ reached. Keeps-if _ _ _ (Keeps-pure false) (tested_kept old.map player x y args))

Keeps-show_others : (player : ℕ) (players : List ℕ) → Keeps (show_others player players)
unfolding show_others
Keeps-show_others player [] = Keeps-pure tt
Keeps-show_others player (a ∷ players) =
    Keeps-then _ _ (Keeps-if (a == player) _ _ (Keeps-pure tt) (shown a))
      (Keeps-show_others player players)
  where
    shown :
        (a : ℕ)
        → Keeps (do
          q ← load_player a
          packet ← need (packet_template_update_position q.id q.x q.y) null_pointer
          p ← load_player player
          write_to p packet)
    shown a = search (keeps_rules, Keeps-write_to) depth 8

module _ (move : ℕ → ℤ → ℤ → MoveArgs → M Bool)
    (k : (player : ℕ) (x y : ℤ) (args : MoveArgs) → Keeps (move player x y args)) where
  spawned_kept :
      (player : ℕ) (x y suppress : ℤ) (loaded : Option ℕ)
      → Keeps {A = ℤ} (elim loaded [
        | none ↦ pure (pos 0)
        | some a ↦ do
          p ← load_player player
          map_send_map_packet (some a) p.session
          moved ← move player x y (record {
            suppress_events = pattern32 suppress % 2 == 1;
            overlap = true;
            map = some a;
          })
          m ← load_map a
          show_others player m.players
          pure (pos 1)
      ])
  spawned_kept player x y suppress none = Keeps-pure (pos 0)
  spawned_kept player x y suppress (some a) =
      search (keeps_rules, Keeps-map_send_map_packet, k, Keeps-show_others) depth 12

  Keeps-spawn_by :
      (id : ℤ) (player : ℕ) (x y suppress : ℤ) → Keeps (spawn_by move id player x y suppress)
  unfolding spawn_by
  Keeps-spawn_by id player x y suppress = search (keeps_rules, Keeps-map_load, spawned_kept)

module _ (spawn : ℤ → ℕ → ℤ → ℤ → ℤ → M ℤ)
    (k : (id : ℤ) (player : ℕ) (x y suppress : ℤ) → Keeps (spawn id player x y suppress)) where
  Keeps-change_map_by :
      (player : ℕ) (args : Option (List ℤ)) → Keeps (change_map_by spawn player args)
  unfolding change_map_by
  Keeps-change_map_by player args = search (keeps_rules, k) depth 14

  Keeps-run_event :
      (player : ℕ) (event : MapEvent) (func : EventFunc) → Keeps (run_event spawn player event func)
  unfolding run_event
  Keeps-run_event player event hello = Keeps-pure tt
  Keeps-run_event player event goodbye = Keeps-pure tt
  Keeps-run_event player event change_map = Keeps-change_map_by player event.static_args

  Keeps-run_events :
      (player : ℕ) (x y : ℤ) (events : List MapEvent) → Keeps (run_events spawn player x y events)
  unfolding run_events
  Keeps-run_events player x y [] = Keeps-pure tt
  Keeps-run_events player x y (event ∷ events) =
      Keeps-then _ _ (Keeps-if _ _ _ (Keeps-run_event player event event.func) (Keeps-pure tt))
        (Keeps-run_events player x y events)

  released_kept :
      (loaded : Option ℕ)
      → Keeps {A = Unit {0}}
          (elim loaded [ none ↦ pure tt | some b ↦ do held ← load_map b; map_unload (pos held.id) ])
  released_kept none = Keeps-pure tt
  released_kept (some b) = search (keeps_rules, Keeps-map_unload)

  Keeps-activate_by : (a : ℕ) (x y : ℤ) (player : ℕ) → Keeps (activate_by spawn a x y player)
  unfolding activate_by
  Keeps-activate_by a x y player = Keeps-bind-load_map a _ λ m s.
      Keeps-bind (map_load (pos m.id)) _ (Keeps-map_load _) λ loaded.
        Keeps-bind-load_map a _
          λ m' s'. Keeps-then _ _ (Keeps-run_events player x y m'.events) (released_kept loaded)

pub Keeps-player_move :
    (fuel player : ℕ) (x y : ℤ) (args : MoveArgs) → Keeps (player_move fuel player x y args)
unfolding player_move
Keeps-player_move zero player x y args = Keeps-fail out_of_fuel
Keeps-player_move (suc fuel) player x y args =
    Keeps-move_by _ (Keeps-activate_by _ (Keeps-spawn_by _ (Keeps-player_move fuel))) player x y
      args

pub Keeps-map_spawn_player :
    (id : ℤ) (player : ℕ) (x y suppress : ℤ) → Keeps (map_spawn_player id player x y suppress)
unfolding map_spawn_player
Keeps-map_spawn_player id player x y suppress =
    Keeps-spawn_by _ (Keeps-player_move move_depth) id player x y suppress
