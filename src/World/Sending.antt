-- ===== src/World/Sending.antt =====
-- Who is told of a change on a map: `map_send_packet`.
use mmo_backend.Base.{
  ℕ, ◌+◌, ◌^◌, ◌<◌, ◌≡◌, refl, true, Option, none, some, List, [], ◌∷◌, ◌++◌, length, ok, arith,
  u32, le→leb, bytes32, leb,
}
use mmo_backend.Base.Int.{ℤ}
use mmo_backend.Socket.Copy.{copy_all}
use mmo_backend.Packet.{Packet, packet_flatten, packet_size}
use mmo_backend.Packet.Templates.{packet_template_update_position, position_bytes}
use mmo_backend.World.State.{World, Player, Session, load_player, load_session, write_packet}
use mmo_backend.World.Occupants.{send_each}

-- A player that is there, with a session that is there, if it has one.
pub data Listens (w : World) (a : ℕ) : Type 0 where
  silent : (p : Player) → w.players a ≡ some p → p.session ≡ none → Listens w a
  hears :
      (p : Player) (s : ℕ) (t : Session)
      → w.players a ≡ some p
      → p.session ≡ some s
      → w.sessions s ≡ some t
      → Listens w a

abbrev pub AllListen : World → List ℕ → Type 0
AllListen w [] = Unit {0}
AllListen w (a ∷ players) = Listens w a × AllListen w players

-- The descriptor of a player that has a session, and those of a list of players, in order.
abbrev pub session_fd : World → Option ℕ → Option ℕ
session_fd w none = none
session_fd w (some s) = elim (w.sessions s) [ none ↦ none | some t ↦ some t.fd ]

abbrev pub fd_at : World → ℕ → Option ℕ
fd_at w a = elim (w.players a) [ none ↦ none | some p ↦ session_fd w p.session ]

abbrev pub add_fd : Option ℕ → List ℕ → List ℕ
add_fd none fds = fds
add_fd (some fd) fds = fd ∷ fds

abbrev pub recipients : World → List ℕ → List ℕ
recipients w [] = []
recipients w (a ∷ players) = let rest = recipients w players in add_fd (fd_at w a) rest

-- What has been sent, once a packet went to each descriptor in turn.
abbrev pub sent_to : Packet → List ℕ → List (ℕ × Packet) → List (ℕ × Packet)
sent_to packet [] sent = sent
sent_to packet (fd ∷ fds) sent = sent_to packet fds ((fd, packet) ∷ sent)

AllListen-sent :
    (w : World) (players : List ℕ) (sent : List (ℕ × Packet))
    → AllListen w players
    → AllListen (record w { sent = sent }) players
AllListen-sent w [] sent l = tt
AllListen-sent w (a ∷ players) sent (silent p e n, l) =
    (silent p e n, AllListen-sent w players sent l)
AllListen-sent w (a ∷ players) sent (hears p s t e n f, l) =
    (hears p s t e n f, AllListen-sent w players sent l)

pub write_packet-sent :
    (fd : ℕ) (packet : Packet) (body : List ℕ) (w : World)
    → packet_flatten packet ≡ ok body
    → write_packet fd packet w ≡ ok (tt, record w { sent = (fd, packet) ∷ w.sent })
unfolding write_packet
write_packet-sent fd packet body w e = rw (e, write_packet)

-- A packet that can be flattened is sent to a list of players who are there, with sessions that
-- are there if they have one, just once to each of those sessions in order, and nothing else
-- changes.
pub send_each-sent_to :
    (packet : Packet) (body : List ℕ) (players : List ℕ) (w : World) (l : AllListen w players)
    → packet_flatten packet ≡ ok body
    → send_each packet none players w
      ≡ ok (tt, record w { sent = sent_to packet (recipients w players) w.sent })
unfolding send_each load_player load_session
send_each-sent_to packet body [] w l e = refl
send_each-sent_to packet body (a ∷ players) w (silent p at n, l) e =
    ground (arith, send_each-sent_to packet body players w l e)
send_each-sent_to packet body (a ∷ players) w (hears p s t at n f, l) e =
    let sent : List (ℕ × Packet) = (t.fd, packet) ∷ w.sent in
    ground (
      arith,
      write_packet-sent t.fd packet body w e,
      send_each-sent_to packet body players (record w { sent = sent })
          (AllListen-sent w players sent l) e,
    )

-- The news of a player's place can be flattened.
pub update_position-flat :
    (id : List ℕ) (x y : ℤ)
    → length id < 2 ^ 31
    → (packet : Packet) × (body : List ℕ) × (packet_template_update_position (some id) x y
        ≡ some packet)
      × (packet_flatten packet ≡ ok body)
unfolding packet_template_update_position packet_flatten
update_position-flat id x y h = (_, _, refl, flat)
  where
    content : List ℕ
    content = position_bytes x y ++ id

    size : u32 (8 + length id) ≡ length content
    size = omega arith

    room : leb (packet_size + length content) (u32 (length content + packet_size)) ≡ true
    room = le→leb _ _ (omega arith)

    flat :
        packet_flatten
          (record { opcode = 6; id = 0; length = u32 (8 + length id); payload = some content })
        ≡ ok (6 ∷ bytes32 0 ++ bytes32 (length content) ++ content)
    flat = rw (size, copy_all content, room)
