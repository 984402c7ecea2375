-- ===== src/World/Occupants.antt =====
-- Who is on a map: `map_add_player`, `map_remove_player` and what the players there are sent, of
-- backend/maps/map.c.
use mmo_backend.Base.{
  ℕ, ◌==◌, if◌then◌else◌, Bool, true, false, not, ◌&&◌, Option, none, some, List, [], ◌∷◌,
  null_pointer,
}
use mmo_backend.Base.Int.{ℤ, pos}
use mmo_backend.Packet.{Packet}
use mmo_backend.Packet.Templates.{packet_template_leaving_map, map_body}
use mmo_backend.World.State.{
  Player, M, pure, ◌>>=◌, ◌>>◌, need, lift, load_map, store_map, load_player, store_player,
  load_session, write_packet,
}
use mmo_backend.World.Loading.{map_load, player_free, player_ref, free_depth}

-- `packet_write` on the session of a player, which must have one.
unfoldable pub write_to : Player → Packet → M (Unit {0})
write_to p packet = do
  session ← need p.session null_pointer
  s ← load_session session
  write_packet s.fd packet

-- The loop of `map_send_packet`: a player without a session is passed over.
unfoldable pub send_each : Packet → Option ℕ → List ℕ → M (Unit {0})
unfolding write_to
send_each packet exception [] = pure tt
send_each packet exception (a ∷ players) = do
  p ← load_player a
  let excepted : Bool = elim exception [ none ↦ false | some e ↦ e == a ]
  let present : Bool = elim p.session [ none ↦ false | some s ↦ true ]
  if present && not excepted then write_to p packet else pure tt
  send_each packet exception players

unfoldable pub map_send_packet : Option ℕ → Option Packet → Option ℕ → M (Unit {0})
unfolding send_each
map_send_packet none packet exception = pure tt
map_send_packet (some a) none exception = pure tt
map_send_packet (some a) (some packet) exception = do
  m ← load_map a
  send_each packet exception m.players

unfoldable pub packet_template_map : ℤ → M Packet
packet_template_map id = do
  loaded ← map_load id
  a ← need loaded null_pointer
  m ← load_map a
  pure (map_body m)

unfoldable pub map_send_map_packet : Option ℕ → Option ℕ → M (Unit {0})
unfolding packet_template_map
map_send_map_packet (some a) (some session) = do
  m ← load_map a
  packet ← packet_template_map (pos m.id)
  s ← load_session session
  write_packet s.fd packet
map_send_map_packet _ _ = pure tt

unfoldable pub map_add_player : ℕ → ℕ → M (Unit {0})
map_add_player a player = do
  player_ref player
  m ← load_map a
  store_map a (record m { players = player ∷ m.players })
  loaded ← map_load (pos m.id)
  p ← load_player player
  store_player player (record p { map = loaded })

-- The first node of the list that holds the player is unlinked.
unfoldable pub unlink : ℕ → List ℕ → Option (List ℕ)
unlink player [] = none
unlink player (a ∷ players) =
    let rest = unlink player players in
    if a == player then some players else elim rest [ none ↦ none | some r ↦ some (a ∷ r) ]

-- The loop that tells the players who stay.
unfoldable pub tell_each : Packet → List ℕ → M (Unit {0})
unfolding write_to
tell_each packet [] = pure tt
tell_each packet (a ∷ players) = do p ← load_player a; write_to p packet; tell_each packet players

unfoldable pub map_remove_player : Option ℕ → Option ℕ → M (Unit {0})
unfolding unlink tell_each
map_remove_player (some a) (some player) = do
  m ← load_map a
  let unlinked = unlink player m.players
  elim unlinked [
    | none ↦ pure tt
    | some players ↦ do store_map a (record m { players = players }); player_free free_depth player
  ]
  p ← load_player player
  packet ← lift (packet_template_leaving_map p.id)
  elim unlinked [ none ↦ pure tt | some _ ↦ do m' ← load_map a; tell_each packet m'.players ]
map_remove_player _ _ = pure tt
