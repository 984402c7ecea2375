-- ===== src/World/Serving/Packets.antt =====
-- A client that sends packets in masked frames: the turns of its thread are rounds for them.
use mmo_backend.Base.{
  ℕ, ◌<◌, ◌≡◌, refl, ap, ◌∙◌, Option, none, some, List, [], ◌∷◌, ◌++◌, map, length, append_assoc,
  Result, ok, fault, dangling, arith,
}
use mmo_backend.Packet.{Packet, packet_read, packet_flatten}
use mmo_backend.Packet.Reading.{IsPacket, packet_read-packet_flatten}
use mmo_backend.Socket.{Memory, Socket}
use mmo_backend.Socket.Stream.{Arrived}
use mmo_backend.WebSocket.Protocol.{Key, client_frame}
use mmo_backend.WebSocket.Reading.{IsGenerous, IsClientFrame}
use mmo_backend.World.State.{World, Session, M, pure, ◌>>=◌, ◌>>◌, load_session}
use mmo_backend.World.Handlers.{Services}
use mmo_backend.World.EventLoop.{event_loop_round}
use mmo_backend.World.Serving.{event_loop_turn, event_loop_turns}

-- A packet that a client sends, and the frame it chose.
pub record Message : Type 0 where
  pub fin : ℕ
  pub frame_opcode : ℕ
  pub key : Key
  pub packet : Packet
  pub content : List ℕ
  pub body : List ℕ

-- The packet fits, the body is its bytes, and the frame is one that the server takes.
pub record IsMessage (m : Message) : Type 0 where
  pub fits : IsPacket m.packet m.content
  pub flat : packet_flatten m.packet ≡ ok m.body
  pub framed : IsClientFrame m.fin m.frame_opcode m.key m.body
  pub short : length m.content < 32759

abbrev pub AllMessages : List Message → Type 0
AllMessages [] = Unit {0}
AllMessages (m ∷ ms) = IsMessage m × AllMessages ms

abbrev pub stream : List Message → List ℕ
stream [] = []
stream (m ∷ ms) = client_frame m.fin m.frame_opcode m.key m.body ++ stream ms

-- The packet as it is read: its content, and a zero byte behind it.
abbrev pub received : Message → Packet
received m = record m.packet { payload = some (m.content ++ 0 ∷ []) }

-- Rounds of the event loop for packets, in their order.
abbrev pub rounds : Services → ℕ → List Packet → M (Unit {0})
rounds services session [] = pure tt
rounds services session (p ∷ ps) =
    event_loop_round services session (some p) >> rounds services session ps

same_packet :
    (p q : Packet)
    → p.opcode ≡ q.opcode
    → p.id ≡ q.id
    → p.length ≡ q.length
    → p.payload ≡ q.payload
    → p ≡ q
same_packet p q o i l d = λ k. record { opcode = o k; id = i k; length = l k; payload = d k }

module _ (memory : Memory) (services : Services) (g : IsGenerous memory) (session : ℕ) where
  -- A session that is not there ends the round as it ends the turn.
  no_session :
      (w : World) (p : Option Packet)
      → w.sessions session ≡ none
      → event_loop_round services session p w ≡ fault dangling
  unfolding event_loop_round load_session
  no_session w none e = ground (arith, e)
  no_session w (some p) e = ground (arith, e)

  turn_lem :
      (s s' : Socket) (p : Option Packet) (w : World) (o : Option Session)
      → w.sessions session ≡ o
      → packet_read memory s ≡ ok (p, s')
      → event_loop_turn memory services session s w
        ≡ (event_loop_round services session p >>= λ _. pure s') w
  unfolding event_loop_turn load_session
  turn_lem s s' p w none e read = ground (arith, e, no_session w p e)
  turn_lem s s' p w (some _) e read = ground (arith, e, read)

  -- A turn in which a message arrives is a round for its packet.
  pub event_loop_turn-message :
      (m : Message) (s : Socket) (rest : List ℕ)
      → IsMessage m
      → Arrived s (client_frame m.fin m.frame_opcode m.key m.body ++ rest)
      → (t : Socket) × Arrived t rest
        × ((w : World)
            → event_loop_turn memory services session s w
              ≡ (event_loop_round services session (some (received m)) >>= λ _. pure t) w)
  event_loop_turn-message m s rest h e =
      let r =
        packet_read-packet_flatten memory s m.fin m.frame_opcode m.key m.packet m.content m.body
          rest g h.fits h.flat h.framed h.short e in
      let same : r.packet ≡ received m =
        same_packet r.packet (received m) r.opcode_eq r.id_eq r.length_eq r.payload_eq in
      (
        r.socket,
        r.input,
        λ w.
            turn_lem s r.socket (some (received m)) w (w.sessions session) refl
              (r.returns ∙ ap (λ (p : Packet). ok (some p, r.socket)) same),
      )

  sequence :
      (r : Result (Unit {0} × World)) (k : Socket → M Socket) (n : M (Unit {0})) (s t : Socket)
      → ((w : World) → k s w ≡ (n >>= λ _. pure t) w)
      → elim (elim r as (λ r. Result (Socket × World)) [
        | ok (u, w) ↦ ok (s, w)
        | fault e ↦ fault e
      ])
          as (λ r. Result (Socket × World)) [ ok (u, w) ↦ k u w | fault e ↦ fault e ]
        ≡ elim (elim r as (λ r. Result (Unit {0} × World)) [ ok (u, w) ↦ n w | fault e ↦ fault e ])
            as (λ r. Result (Socket × World)) [ ok (u, w) ↦ ok (t, w) | fault e ↦ fault e ]
  sequence (ok (u, w)) k n s t h = h w
  sequence (fault e) k n s t h = refl

  abbrev then_turns : ℕ → Result (Socket × World) → Result (Socket × World)
  then_turns turns r = elim r as (λ r. Result (Socket × World)) [
    | ok (s, w) ↦ event_loop_turns memory services turns session s w
    | fault e ↦ fault e
  ]

  -- With small requests for memory granted, a client's thread that takes as many turns as there
  -- are messages at the front of what has arrived does what the rounds for their packets do, in
  -- their order, with their faults, and goes on behind them, in whatever pieces they are read.
  pub event_loop_turns-rounds :
      (ms : List Message) (s : Socket) (rest : List ℕ)
      → AllMessages ms
      → Arrived s (stream ms ++ rest)
      → (t : Socket) × Arrived t rest
        × ((w : World)
            → event_loop_turns memory services (length ms) session s w
              ≡ (rounds services session (map received ms) >>= λ _. pure t) w)
  unfolding event_loop_turns
  event_loop_turns-rounds [] s rest h e = (s, e, λ w. refl)
  event_loop_turns-rounds (m ∷ ms) s rest (h, hs) e =
      let (s', left, turn) = event_loop_turn-message m s (stream ms ++ rest) h (
        e.0 ∙ append_assoc (client_frame m.fin m.frame_opcode m.key m.body) (stream ms) rest,
        e.1,
      ) in
      let (t, last, turns) = event_loop_turns-rounds ms s' rest hs left in
      (
        t,
        last,
        λ w.
            ap (then_turns (length ms)) (turn w)
            ∙ sequence (event_loop_round services session (some (received m)) w)
                (event_loop_turns memory services (length ms) session)
                (rounds services session (map received ms)) s' t turns,
      )
