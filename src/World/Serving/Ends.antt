-- ===== src/World/Serving/Ends.antt =====
-- Single turns of a client's thread: a client that has left, and one that asks for a walk.
use mmo_backend.Base.{
  ℕ, zero, suc, ◌+◌, ◌≡◌, refl, ap, ◌∙◌, true, none, some, List, [], ◌++◌, take, length, ok, fault,
  out_of_bounds, arith, map, sym, append-nil, Result,
}
use mmo_backend.Base.Int.{pos}
use mmo_backend.Maps.{Map}
use mmo_backend.Packet.{packet_read}
use mmo_backend.Socket.{Memory, Socket, ws_read}
use mmo_backend.Socket.Stream.{Arrived, ws_read-Received}
use mmo_backend.WebSocket.Protocol.{client_frame}
use mmo_backend.WebSocket.Receiver.{ws_read_frame, read_size, read_rest, read_body}
use mmo_backend.WebSocket.Reading.{IsGenerous}
use mmo_backend.World.State.{World, Player, Session, M, load_session, ◌>>=◌}
use mmo_backend.World.Handlers.{Services}
use mmo_backend.World.Rounds.{Plays, IsMove, event_loop_round-none, event_loop_round-walk}
use mmo_backend.World.Walking.{CanWalk, Walked}
use mmo_backend.World.Serving.{event_loop_turn, event_loop_turns}
use mmo_backend.World.Serving.Packets.{
  Message, IsMessage, AllMessages, stream, received, rounds, event_loop_turn-message,
  event_loop_turns-rounds,
}

module _ (memory : Memory) (g : IsGenerous memory) where
  take_nothing : (n : ℕ) (xs : List ℕ) → xs ≡ [] → take n xs ≡ []
  take_nothing zero xs e = refl
  take_nothing (suc n) xs e = ap (take (suc n)) e

  nothing_read : (s : Socket) (n : ℕ) → Arrived s [] → (ws_read s n).0 ≡ []
  nothing_read s n e = (ws_read-Received s n e.1).got ∙ take_nothing n s.input e.0

  -- A closed connection is read as no packet.
  pub packet_read-hangup :
      (s : Socket) → Arrived s [] → (t : Socket) × (packet_read memory s ≡ ok (none, t))
  unfolding packet_read ws_read_frame read_size read_rest read_body
  packet_read-hangup s e = ((ws_read s 2).1, ground (arith, nothing_read s 2 e, g 24 (omega arith)))

  module _ (services : Services) (session : ℕ) where
    -- A turn of a session's thread after the client has left and all it sent was read, with
    -- small requests for memory granted, ends in an access out of bounds.
    pub event_loop_turn-hangup :
        (w : World) (here : Session) (s : Socket)
        → w.sessions session ≡ some here
        → Arrived s []
        → event_loop_turn memory services session s w ≡ fault out_of_bounds
    unfolding event_loop_turn load_session
    event_loop_turn-hangup w here s h e =
        ground
          (arith, h, (packet_read-hangup s e).1, event_loop_round-none services w session here h)

    further :
        (r : Result (Socket × World)) (whole first rest : Socket → M Socket)
        → ((s : Socket) (w : World) → whole s w ≡ (first s >>= rest) w)
        → elim r as (λ r. Result (Socket × World)) [ ok (s, w) ↦ whole s w | fault e ↦ fault e ]
          ≡ elim (elim r as (λ r. Result (Socket × World)) [
            | ok (s, w) ↦ first s w
            | fault e ↦ fault e
          ])
              as (λ r. Result (Socket × World)) [ ok (s, w) ↦ rest s w | fault e ↦ fault e ]
    further (ok (s, w)) whole first rest h = h s w
    further (fault e) whole first rest h = refl

    same :
        (m n : ℕ) (s : Socket) (w : World)
        → m ≡ n
        → event_loop_turns memory services m session s w
          ≡ event_loop_turns memory services n session s w
    same m n s w e = ap (λ (k : ℕ). event_loop_turns memory services k session s w) e

    turns_add :
        (m n : ℕ) (s : Socket) (w : World)
        → event_loop_turns memory services (m + n) session s w
          ≡ (event_loop_turns memory services m session s
                >>= event_loop_turns memory services n session)
              w
    unfolding event_loop_turns
    turns_add zero n s w = same (zero + n) n s w (omega arith)
    turns_add (suc m) n s w =
        same (suc m + n) (suc (m + n)) s w (omega arith)
        ∙ further (event_loop_turn memory services session s w)
            (event_loop_turns memory services (m + n) session)
            (event_loop_turns memory services m session)
            (event_loop_turns memory services n session) (turns_add m n)

    -- A client that sends messages and leaves, and whose session is there after the rounds for
    -- their packets, brings its thread to an access out of bounds in the turn behind them.
    pub event_loop_turns-hangup :
        (ms : List Message) (s : Socket) (w v : World) (here : Session)
        → AllMessages ms
        → Arrived s (stream ms)
        → rounds services session (map received ms) w ≡ ok (tt, v)
        → v.sessions session ≡ some here
        → event_loop_turns memory services (length ms + 1) session s w ≡ fault out_of_bounds
    unfolding event_loop_turns
    event_loop_turns-hangup ms s w v here hs e done h =
        let (t, left, turns) =
          event_loop_turns-rounds memory services g session ms s [] hs
            (e.0 ∙ sym (append-nil _), e.1) in
        turns_add (length ms) 1 s w
        ∙ ground (arith, turns w, done, event_loop_turn-hangup v here t h left)

    -- For a playing session without a pending error, a turn that reads a message whose packet
    -- asks for a walk that can be made, by coordinates in the byte order of the machine, in the
    -- sense of player_move-Walked, takes the frame off the input and leaves the server as that
    -- walk does. The message has arrived, in whatever pieces it is read, and small requests for
    -- memory are granted.
    pub event_loop_turn-walk :
        (w : World) (own : Session) (player : ℕ)
        → Plays w session own player
        → (m : Message) (x y : ℕ) → IsMessage m
        → IsMove (received m) (pos x) (pos y)
        → (p : Player) (i a : ℕ) (map : Map) (c : CanWalk w player p i a map x y)
        → (s : Socket) (rest : List ℕ)
        → Arrived s (client_frame m.fin m.frame_opcode m.key m.body ++ rest)
        → (t : Socket) × (after : World) × Arrived t rest
          × (event_loop_turn memory services session s w ≡ ok (t, after))
          × Walked w player p i a map x y c (ok (true, after))
    event_loop_turn-walk w own player h m x y hm is_move p i a map c s rest e =
        let (t, left, turn) = event_loop_turn-message memory services g session m s rest hm e in
        let (after, done, walked) =
          event_loop_round-walk services w session own player h (received m) x y is_move p i a map
            c in
        (t, after, left, turn w ∙ ground (arith, done), walked)
