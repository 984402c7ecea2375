-- ===== src/World/Serving/Upgraded.antt =====
-- A client from its request to its packets: `web_server_handle_client` of
-- backend/networking/web-server.c, the handshake and the loop of the events.
use mmo_backend.Base.{
  ℕ, suc, ◌+◌, ◌≡◌, refl, ◌∙◌, Bool, true, Option, none, some, List, ◌++◌, map, length, ok, arith,
  if◌then◌else◌,
}
use mmo_backend.Base.Strings.{ascii}
use mmo_backend.Receiver.{Peer}
use mmo_backend.Socket.{Memory, Socket}
use mmo_backend.Socket.Stream.{Arrived, IsOpen, Sent}
use mmo_backend.Http.Headers.{Libc, header_list_get_header}
use mmo_backend.Http.Handshake.{Crypto, response}
use mmo_backend.Http.Server.{web_server_handle_client}
use mmo_backend.Http.Parsing.{headers_of}
use mmo_backend.Http.Upgrade.{IsRequest, IsScanned, web_server_handle_client-upgrade}
use mmo_backend.WebSocket.Reading.{IsGenerous}
use mmo_backend.World.State.{World, M, pure, ◌>>=◌, lift, update}
use mmo_backend.World.Handlers.{Services}
use mmo_backend.World.Sessions.{session_create, session_alloc, new_session}
use mmo_backend.World.Serving.{event_loop_start, event_loop_turns, loop_if}
use mmo_backend.World.Serving.Packets.{
  Message, AllMessages, stream, received, rounds, event_loop_turns-rounds,
}

module _ (libc : Libc) (crypto : Crypto) (memory : Memory) (services : Services) where
  -- What the client's thread does for its request: the loop starts when the request is upgraded.
  unfoldable pub serve_client : ℕ → ℕ → ℕ → Bool → ℕ → Peer → Socket → M (Option Socket)
  serve_client fuel lines turns connected fd p s = do
    (s', upgraded) ← lift (web_server_handle_client libc crypto fuel lines p s)
    if upgraded then event_loop_start memory services connected turns fd s' else pure none

  -- The server with a new session.
  abbrev pub opened : ℕ → World → World
  opened fd w = record w {
    next = w.next + 1;
    sessions = update w.sessions w.next (some (new_session fd));
  }

  opens : (fd : ℕ) (w : World) → session_create true fd w ≡ ok (some w.next, opened fd w)
  unfolding session_create session_alloc
  opens fd w = refl

  pub started :
      (turns fd : ℕ) (s : Socket) (w : World)
      → event_loop_start memory services true turns fd s w
        ≡ (event_loop_turns memory services turns w.next s >>= λ t. pure (some t)) (opened fd w)
  unfolding event_loop_start loop_if
  started turns fd s w = ground (arith, opens fd w)

  -- A client whose request for a web socket is as web_server_handle_client-upgrade asks for, and
  -- which then sends messages, is sent the response of RFC 6455 to its key and gets a session,
  -- when there is a connection to the database; and then its thread does what the rounds for the
  -- packets of its messages do on that session, in their order, with their faults. The messages
  -- have arrived when they are read, in whatever pieces, and small requests for memory are
  -- granted.
  pub serve_client-rounds :
      (lines fd : ℕ) (p : Peer) (route : List ℕ) (ls : List (List ℕ)) (s : Socket) (key : List ℕ)
      → IsGenerous memory
      → IsRequest 4096 p route ls
      → (z : IsScanned libc route ls) → IsOpen s
      → header_list_get_header libc (headers_of libc ls z.headers) (ascii "Upgrade")
        ≡ some (ascii "websocket")
      → header_list_get_header libc (headers_of libc ls z.headers) (ascii "Sec-WebSocket-Key")
        ≡ some key
      → (ms : List Message) (rest : List ℕ) → AllMessages ms
      → Arrived s (stream ms ++ rest)
      → (w : World)
      → (u t : Socket) × Sent s (response libc crypto key) u
        × Arrived t rest
        × (serve_client (suc (length ls)) (suc (suc lines)) (length ms) true fd p s w
            ≡ (rounds services w.next (map received ms) >>= λ _. pure (some t)) (opened fd w))
  unfolding serve_client
  serve_client-rounds lines fd p route ls s key g q z o wants k ms rest h e w =
      let (u, upgraded, sent) =
        web_server_handle_client-upgrade libc crypto lines p route ls s key q z o wants k in
      let (t, left, turns) =
        event_loop_turns-rounds memory services g w.next ms u rest h
          (sent.input ∙ e.0, λ i. rw sent.chunks (e.1 i)) in
      (u, t, sent, left, ground (arith, upgraded, started (length ms) fd u w, turns (opened fd w)))
