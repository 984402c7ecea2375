-- ===== src/World/Keeps/Occupants.antt =====
-- Adding, removing and telling the players of a map keeps the state well formed.
use mmo_backend.Base.{ℕ, refl, Option, none, some, List, [], ◌∷◌}
use mmo_backend.Base.Int.{ℤ}
use mmo_backend.Maps.{Map}
use mmo_backend.Packet.{Packet}
use mmo_backend.Packet.Templates.{packet_template_leaving_map}
use mmo_backend.World.State.{Player, pure, ◌>>=◌, ◌>>◌, lift, load_map, store_map, load_player}
use mmo_backend.World.Loading.{player_free, free_depth}
use mmo_backend.World.Occupants.{
  write_to, send_each, map_send_packet, packet_template_map, map_send_map_packet, map_add_player,
  unlink, tell_each, map_remove_player,
}
use mmo_backend.World.Keeps.{
  IsSound, Keeps, keeps_rules, Keeps-pure, Keeps-bind, Keeps-then, Keeps-if, Keeps-lift,
  Keeps-store_map, Keeps-load_player, Keeps-bind-load_map,
}
use mmo_backend.World.Keeps.Bitmaps.{IsSound-same}
use mmo_backend.World.Keeps.Lifetime.{Keeps-map_load, Keeps-player_free, Keeps-player_ref}

pub Keeps-write_to : (p : Player) (packet : Packet) → Keeps (write_to p packet)
unfolding write_to
Keeps-write_to p packet = search keeps_rules

pub Keeps-send_each :
    (packet : Packet) (exception : Option ℕ) (players : List ℕ)
    → Keeps (send_each packet exception players)
unfolding send_each
Keeps-send_each packet exception [] = Keeps-pure tt
Keeps-send_each packet exception (a ∷ players) =
    Keeps-bind (load_player a) _ (Keeps-load_player a) λ p.
      Keeps-then _ _ (Keeps-if _ _ _ (Keeps-write_to p packet) (Keeps-pure tt))
        (Keeps-send_each packet exception players)

pub Keeps-map_send_packet :
    (a : Option ℕ) (packet : Option Packet) (exception : Option ℕ)
    → Keeps (map_send_packet a packet exception)
unfolding map_send_packet
Keeps-map_send_packet none packet exception = Keeps-pure tt
Keeps-map_send_packet (some a) none exception = Keeps-pure tt
Keeps-map_send_packet (some a) (some packet) exception = search (keeps_rules, Keeps-send_each)

pub Keeps-packet_template_map : (id : ℤ) → Keeps (packet_template_map id)
unfolding packet_template_map
Keeps-packet_template_map id = search (keeps_rules, Keeps-map_load)

pub Keeps-map_send_map_packet : (a session : Option ℕ) → Keeps (map_send_map_packet a session)
unfolding map_send_map_packet
Keeps-map_send_map_packet none session = Keeps-pure tt
Keeps-map_send_map_packet (some a) none = Keeps-pure tt
Keeps-map_send_map_packet (some a) (some session) =
    search (keeps_rules, Keeps-packet_template_map) depth 8

pub peopled : (m : Map) (players : List ℕ) → IsSound m → IsSound (record m { players = players })
peopled m players s = IsSound-same m _ refl refl refl refl s

pub Keeps-map_add_player : (a player : ℕ) → Keeps (map_add_player a player)
unfolding map_add_player
Keeps-map_add_player a player =
    search (keeps_rules, Keeps-player_ref, Keeps-map_load, Keeps-store_map, peopled) depth 12

Keeps-tell_each : (packet : Packet) (players : List ℕ) → Keeps (tell_each packet players)
unfolding tell_each
Keeps-tell_each packet [] = Keeps-pure tt
Keeps-tell_each packet (a ∷ players) =
    Keeps-bind (load_player a) _ (Keeps-load_player a)
      λ p. Keeps-then _ _ (Keeps-write_to p packet) (Keeps-tell_each packet players)

removed_kept :
    (a player : ℕ) (m : Map) (unlinked : Option (List ℕ))
    → IsSound m
    → Keeps {A = Unit {0}} (elim unlinked [
      | none ↦ pure tt
      | some players ↦ do
        store_map a (record m { players = players })
        player_free free_depth player
    ])
removed_kept a player m none s = Keeps-pure tt
removed_kept a player m (some players) s =
    search (keeps_rules, Keeps-store_map, peopled, Keeps-player_free)

told_kept :
    (a : ℕ) (packet : Packet) (unlinked : Option (List ℕ))
    → Keeps {A = Unit {0}} (elim unlinked [
      | none ↦ pure tt
      | some _ ↦ do m' ← load_map a; tell_each packet m'.players
    ])
told_kept a packet none = Keeps-pure tt
told_kept a packet (some players) = search (keeps_rules, Keeps-tell_each)

pub Keeps-map_remove_player : (a player : Option ℕ) → Keeps (map_remove_player a player)
unfolding map_remove_player
Keeps-map_remove_player none player = Keeps-pure tt
Keeps-map_remove_player (some a) none = Keeps-pure tt
Keeps-map_remove_player (some a) (some player) = Keeps-bind-load_map a _ λ m s.
    Keeps-then _ _ (removed_kept a player m (unlink player m.players) s) (
      Keeps-bind (load_player player) _ (Keeps-load_player player) λ p.
        Keeps-bind (lift (packet_template_leaving_map p.id)) _ (Keeps-lift _)
          λ packet. told_kept a packet (unlink player m.players))
