-- ===== src/World/Keeps/Handling.antt =====
-- The handlers and the rounds of the event loop keep the state well formed.
use mmo_backend.Base.{ℕ, Option, none, some, List, [], ◌∷◌, ok, null_pointer}
use mmo_backend.Base.Int.{ℤ}
use mmo_backend.Packet.{Packet}
use mmo_backend.Packet.Templates.{
  packet_template_failure, packet_template_success, packet_template_player, packet_template_error,
}
use mmo_backend.Session.{roaming}
use mmo_backend.World.State.{
  Player, pure, ◌>>=◌, ◌>>◌, need, lift, load_player, store_player, load_session, store_session,
  write_packet,
}
use mmo_backend.World.Loading.{map_load}
use mmo_backend.World.Handlers.{
  Field, Field, id_field, name_field, map_field, x_field, y_field, max_move_field, other_field,
  Services, player_create, set_field, set_fields, db_player_get_player, c_string,
  invalid_awaiting_connection, enter_world, packet_handle_login, packet_handle_move,
  packet_handle_inspect_player, packet_handle_route,
}
use mmo_backend.World.EventLoop.{event_loop_error, run_packet, event_loop_round}
use mmo_backend.World.Keeps.{
  Keeps, keeps_rules, Keeps-pure, Keeps-bind, Keeps-then, Keeps-lift, Keeps-need, Keeps-step,
  Keeps-load_session, Keeps-store_session, Keeps-write_packet,
}
use mmo_backend.World.Keeps.Lifetime.{Keeps-map_load}
use mmo_backend.World.Keeps.Places.{Keeps-player_move, Keeps-map_spawn_player}

-- Services that leave the server's own state well formed.
pub record KeepsState (services : Services) : Type 0 where
  pub find : (code : List ℕ) → Keeps (services.find_token code)
  pub remove : (code : List ℕ) → Keeps (services.remove_token code)

Keeps-player_create : Keeps player_create
unfolding player_create
Keeps-player_create = record {
  at = λ w h. record { sound = h.sound; locks = h.locks; tiles = h.tiles };
}

Keeps-set_field : (p : Player) (f : Field) → Keeps (set_field p f)
unfolding set_field
Keeps-set_field p (id_field text) = Keeps-pure _
Keeps-set_field p (name_field text) = Keeps-pure _
Keeps-set_field p (map_field id) = Keeps-bind (map_load id) _ (Keeps-map_load id) λ a. Keeps-pure _
Keeps-set_field p (x_field x) = Keeps-pure _
Keeps-set_field p (y_field y) = Keeps-pure _
Keeps-set_field p (max_move_field n) = Keeps-pure _
Keeps-set_field p other_field = Keeps-pure _

Keeps-set_fields : (p : Player) (fields : List Field) → Keeps (set_fields p fields)
unfolding set_fields
Keeps-set_fields p [] = Keeps-pure p
Keeps-set_fields p (f ∷ fields) =
    Keeps-bind (set_field p f) _ (Keeps-set_field p f) λ q. Keeps-set_fields q fields

module _ (services : Services) (k : KeepsState services) where
  document_kept :
      (document : Option (List Field))
      → Keeps {A = Option ℕ} (elim document [
        | none ↦ pure none
        | some fields ↦ do
          a ← player_create
          p ← load_player a
          q ← set_fields p fields
          store_player a q
          pure (some a)
      ])
  document_kept none = Keeps-pure none
  document_kept (some fields) = search (keeps_rules, Keeps-player_create, Keeps-set_fields) depth 10

  Keeps-db_player_get_player : (id : List ℕ) → Keeps (db_player_get_player services id)
  unfolding db_player_get_player
  Keeps-db_player_get_player id = document_kept (services.find_document id)

  Keeps-enter_world : (session player : ℕ) → Keeps (enter_world session player)
  unfolding enter_world
  Keeps-enter_world session player = search (keeps_rules, Keeps-map_spawn_player) depth 10

  entered_kept :
      (packet : Packet) (session : ℕ) (code : List ℕ) (loaded : Option ℕ)
      → Keeps {A = Option Packet} (elim loaded [
        | none ↦ pure (some (packet_template_failure packet.id))
        | some player ↦ do
          p ← load_player player
          store_player player (record p { session = some session })
          s' ← load_session session
          store_session session (record s' { state = roaming })
          services.remove_token code
          enter_world session player
          pure (some (packet_template_success packet.id))
      ])
  entered_kept packet session code none = Keeps-pure _
  entered_kept packet session code (some player) =
      search (keeps_rules, k.remove, Keeps-enter_world) depth 14

  Keeps-set_errno :
      {A : Type 0} (a : A) (e : ℤ) → Keeps (λ w. ok (a, record w { packet_errno = e }))
  Keeps-set_errno a e = record {
    at = λ w h. record { sound = h.sound; locks = h.locks; tiles = h.tiles };
  }

  found_kept :
      (packet : Packet) (session : ℕ) (code : List ℕ) (found : Option (List ℕ))
      → Keeps {A = Option Packet} (elim found [
        | none ↦ λ w. ok (none, record w { packet_errno = invalid_awaiting_connection })
        | some id ↦ do
          loaded ← db_player_get_player services id
          s ← load_session session
          store_session session (record s { player = loaded })
          elim loaded [
            | none ↦ pure (some (packet_template_failure packet.id))
            | some player ↦ do
              p ← load_player player
              store_player player (record p { session = some session })
              s' ← load_session session
              store_session session (record s' { state = roaming })
              services.remove_token code
              enter_world session player
              pure (some (packet_template_success packet.id))
          ]
      ])
  found_kept packet session code none = Keeps-set_errno none _
  found_kept packet session code (some id) =
      Keeps-bind (db_player_get_player services id) _ (Keeps-db_player_get_player id) λ loaded.
        Keeps-bind (load_session session) _ (Keeps-load_session session) λ s.
          Keeps-then _ _ (Keeps-store_session session _) (entered_kept packet session code loaded)

  Keeps-packet_handle_login :
      (packet : Packet) (session : ℕ) → Keeps (packet_handle_login services packet session)
  unfolding packet_handle_login
  Keeps-packet_handle_login packet session =
      Keeps-bind (need packet.payload null_pointer) _ (Keeps-need _ _) λ bytes.
        Keeps-bind (services.find_token (c_string bytes)) _ (k.find _)
          λ found. found_kept packet session (c_string bytes) found

  Keeps-packet_handle_move :
      (packet : Packet) (session : ℕ) → Keeps (packet_handle_move packet session)
  unfolding packet_handle_move
  Keeps-packet_handle_move packet session = search (keeps_rules, Keeps-player_move) depth 14

  inspected_kept :
      (packet : Packet) (found : Option ℕ)
      → Keeps {A = Option Packet} (elim found [
        | none ↦ pure (some (packet_template_failure packet.id))
        | some a ↦ do
          p ← load_player a
          answer ← lift (packet_template_player packet.id p.name p.x p.y)
          pure (some answer)
      ])
  inspected_kept packet none = Keeps-pure _
  inspected_kept packet (some a) = search keeps_rules

  Keeps-packet_handle_inspect_player :
      (packet : Packet) → Keeps (packet_handle_inspect_player services packet)
  unfolding packet_handle_inspect_player
  Keeps-packet_handle_inspect_player packet =
      search (keeps_rules, Keeps-db_player_get_player, inspected_kept)

  Keeps-packet_handle_route :
      (packet : Packet) (session : ℕ) → Keeps (packet_handle_route services packet session)
  unfolding packet_handle_route
  Keeps-packet_handle_route packet session =
      search
        (
          keeps_rules, Keeps-packet_handle_login, Keeps-packet_handle_move,
          Keeps-packet_handle_inspect_player,
        )
        depth 10

  Keeps-event_loop_error : (fd : ℕ) (code : ℤ) → Keeps (event_loop_error fd code)
  unfolding event_loop_error
  Keeps-event_loop_error fd code =
      Keeps-bind (lift (packet_template_error code)) _ (Keeps-lift _) λ packet.
        Keeps-then _ _ (Keeps-write_packet fd packet)
          (Keeps-step _ (λ w h. record { sound = h.sound; locks = h.locks; tiles = h.tiles }))

  answered_kept :
      (fd : ℕ) (response : Option Packet)
      → Keeps {A = Unit {0}}
          (elim response [ none ↦ pure tt | some answer ↦ write_packet fd answer ])
  answered_kept fd none = Keeps-pure tt
  answered_kept fd (some answer) = Keeps-write_packet fd answer

  Keeps-run_packet :
      (packet : Packet) (session fd : ℕ) → Keeps (run_packet services packet session fd)
  unfolding run_packet
  Keeps-run_packet packet session fd =
      search (keeps_rules, Keeps-event_loop_error, Keeps-packet_handle_route, answered_kept) depth
        10

  pub Keeps-event_loop_round :
      (session : ℕ) (packet : Option Packet) → Keeps (event_loop_round services session packet)
  unfolding event_loop_round
  Keeps-event_loop_round session none = search (keeps_rules, Keeps-event_loop_error)
  Keeps-event_loop_round session (some packet) = search (keeps_rules, Keeps-run_packet)
