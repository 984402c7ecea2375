-- ===== src/World/Placement.antt =====
-- Players' places: `player_move` of backend/player/player.c, `map_spawn_player` and the events of
-- backend/maps/map.c and map-events.c.
use mmo_backend.Base.{
  ℕ, zero, suc, ◌%◌, ◌==◌, if◌then◌else◌, Bool, true, false, not, ◌&&◌, Option, none, some, List,
  [], ◌∷◌, get_elem?, out_of_fuel, out_of_bounds, null_pointer,
}
use mmo_backend.Base.Int.{ℤ, pos, eqb_ℤ, pattern32}
use mmo_backend.Movement.{movement_check_valid}
use mmo_backend.Maps.{MapEvent, EventFunc, hello, goodbye, change_map}
use mmo_backend.Maps.Collision
use mmo_backend.Maps.Collision.{map_check_bounds}
use mmo_backend.Packet.Templates.{packet_template_update_position}
use mmo_backend.World.State.{
  M, pure, fail, ◌>>=◌, ◌>>◌, need, lift, load_map, store_map, load_player, store_player,
}
use mmo_backend.World.Loading.{map_load, map_unload}
use mmo_backend.World.Occupants.{
  write_to, map_send_packet, map_send_map_packet, map_add_player, map_remove_player,
}

-- The bit fields `suppress_events` and `overlap`, and the map that the player is sent to.
pub record MoveArgs : Type 0 where
  pub suppress_events : Bool
  pub overlap : Bool
  pub map : Option ℕ

-- `map_disable_coord` and `map_enable_coord` through a pointer, which may be null.
unfoldable pub toggle_at : Option ℕ → ℤ → ℤ → Bool → M Bool
toggle_at none x y disable = pure false
toggle_at (some a) x y disable = do
  m ← load_map a
  r ← lift (Collision.map_toggle_coord m x y disable)
  if r.0 then store_map a r.1 else pure tt
  pure r.0

-- A move that has passed its tests: the player's place, the events there, and the news of it.
unfoldable pub arrive : (ℕ → ℤ → ℤ → ℕ → M (Unit {0})) → ℕ → ℤ → ℤ → Bool → M (Unit {0})
unfolding map_send_packet
arrive activate player x y suppress = do
  p ← load_player player
  store_player player (record p { x = x; y = y })
  if suppress then pure tt else (do a ← need p.map null_pointer; activate a x y player)
  q ← load_player player
  map_send_packet q.map (packet_template_update_position q.id q.x q.y) none

-- The old place is made free, on the map that the player was on; a refusal ends the move.
unfoldable pub leave_old : Option ℕ → ℕ → M Bool
unfolding toggle_at
leave_old none player = pure true
leave_old (some a) player = do p ← load_player player; toggle_at (some a) p.x p.y false

-- Whether the move is within the player's reach; a change of map is not held to it.
unfoldable pub within_reach : ℕ → ℤ → ℤ → MoveArgs → M Bool
within_reach player x y args = elim args.map [
  | some a ↦ pure true
  | none ↦ do p ← load_player player; lift (movement_check_valid p.max_move p.x p.y x y)
]

-- `player_move`, where events are activated by `activate`.
unfoldable pub move_by : (ℕ → ℤ → ℤ → ℕ → M (Unit {0})) → ℕ → ℤ → ℤ → MoveArgs → M Bool
unfolding within_reach leave_old toggle_at arrive map_add_player map_remove_player
move_by activate player x y args = do
  old ← load_player player
  elim args.map [
    | none ↦ pure tt
    | some a ↦ do map_remove_player old.map (some player); map_add_player a player
  ]
  reached ← within_reach player x y args
  if not reached then pure false else do
    p ← load_player player
    a ← need p.map null_pointer
    m ← load_map a
    if not (map_check_bounds m x y) then pure false else do
      taken ← toggle_at p.map x y true
      if not taken && not args.overlap then pure false else do
        left ← leave_old old.map player
        if not left
            then pure false
            else (do arrive activate player x y args.suppress_events; pure true)

-- The loop that tells a player where the others on the map are.
unfoldable pub show_others : ℕ → List ℕ → M (Unit {0})
unfolding write_to
show_others player [] = pure tt
show_others player (a ∷ players) = do
  (if a == player then pure tt else (do
    q ← load_player a
    packet ← need (packet_template_update_position q.id q.x q.y) null_pointer
    p ← load_player player
    write_to p packet))
  show_others player players

-- `map_spawn_player` by a `player_move`; `suppress_events` is a bit field of one bit.
unfoldable pub spawn_by : (ℕ → ℤ → ℤ → MoveArgs → M Bool) → ℤ → ℕ → ℤ → ℤ → ℤ → M ℤ
unfolding show_others map_send_map_packet
spawn_by move id player x y suppress = do
  loaded ← map_load id
  elim loaded [
    | none ↦ pure (pos 0)
    | some a ↦ do
      p ← load_player player
      map_send_map_packet (some a) p.session
      moved ←
          move player x y
            (record { suppress_events = pattern32 suppress % 2 == 1; overlap = true; map = some a })
      m ← load_map a
      show_others player m.players
      pure (pos 1)
  ]

-- `map_event_change_map`; the last argument is read from the index of `y`.
unfoldable pub change_map_by : (ℤ → ℕ → ℤ → ℤ → ℤ → M ℤ) → ℕ → Option (List ℤ) → M (Unit {0})
change_map_by spawn player static_args = do
  args ← need static_args null_pointer
  id ← need (get_elem? args 0) out_of_bounds
  x ← need (get_elem? args 1) out_of_bounds
  y ← need (get_elem? args 2) out_of_bounds
  suppress ← need (get_elem? args 2) out_of_bounds
  spawned ← spawn id player x y suppress
  pure tt

-- The other two functions of events print a line.
unfoldable pub run_event : (ℤ → ℕ → ℤ → ℤ → ℤ → M ℤ) → ℕ → MapEvent → EventFunc → M (Unit {0})
unfolding change_map_by
run_event spawn player event hello = pure tt
run_event spawn player event goodbye = pure tt
run_event spawn player event change_map = change_map_by spawn player event.static_args

unfoldable pub run_events : (ℤ → ℕ → ℤ → ℤ → ℤ → M ℤ) → ℕ → ℤ → ℤ → List MapEvent → M (Unit {0})
unfolding run_event
run_events spawn player x y [] = pure tt
run_events spawn player x y (event ∷ events) = do
  (if eqb_ℤ event.x x && eqb_ℤ event.y y then run_event spawn player event event.func else pure tt)
  run_events spawn player x y events

-- `map_event_activate`: the map is kept loaded while its events run.
unfoldable pub activate_by : (ℤ → ℕ → ℤ → ℤ → ℤ → M ℤ) → ℕ → ℤ → ℤ → ℕ → M (Unit {0})
unfolding run_events
activate_by spawn a x y player = do
  m ← load_map a
  loaded ← map_load (pos m.id)
  m' ← load_map a
  run_events spawn player x y m'.events
  elim loaded [ none ↦ pure tt | some b ↦ do held ← load_map b; map_unload (pos held.id) ]

-- `player_move` on fuel, which bounds how often one move sets off the next.
unfoldable pub player_move : ℕ → ℕ → ℤ → ℤ → MoveArgs → M Bool
player_move zero player x y args = fail out_of_fuel
player_move (suc fuel) player x y args =
    move_by (activate_by (spawn_by (player_move fuel))) player x y args

-- A change of map suppresses the events at the other end when the `y` it is given is odd, as on both
-- maps of map-definitions.c: one move inside another is the most there is.
abbrev pub move_depth : ℕ
move_depth = 2

unfoldable pub map_spawn_player : ℤ → ℕ → ℤ → ℤ → ℤ → M ℤ
map_spawn_player = spawn_by (player_move move_depth)
