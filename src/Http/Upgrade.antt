-- ===== src/Http/Upgrade.antt =====
-- A client that asks for a web socket gets one, or not (backend/networking/web-server.c).
use mmo_backend.Base.{
  [], ℕ, suc, ◌+◌, ◌-◌, ◌≤◌, ◌<◌, ◌≡◌, refl, ap, ◌∙◌, true, false, none, some, List, ◌∷◌, ◌++◌,
  length, lt→ltb, Result, ok, fault, ◌>>=◌, null_pointer, arith,
}
use mmo_backend.Base.Strings.{ascii}
use mmo_backend.Receiver.{Peer}
use mmo_backend.Receiver.Arrivals.{IsPrompt}
use mmo_backend.Socket.{Socket, ws_write}
use mmo_backend.Socket.Stream.{IsOpen, Sent}
use mmo_backend.Http.Lines.{IsText}
use mmo_backend.Http.Headers.{Libc, header_list_get_header}
use mmo_backend.Http.Handshake.{
  Crypto, handshake_msg, hash_key, write_accept, ws_create, response, ws_create-response,
}
use mmo_backend.Http.Server.{
  max_line, take_route, web_server_get_route, wants_socket, upgrade_if, upgrade, handle_client,
  web_server_handle_client,
}
use mmo_backend.Http.Parsing.{flat, AllLines, AllHeaders, headers_of, parse_lines, first_line}

-- A request that a prompt client has sent: a route and headers, short enough for the reader.
pub record IsRequest (size : ℕ) (p : Peer) (route : List ℕ) (ls : List (List ℕ)) : Type 0 where
  pub prompt : IsPrompt p
  pub input_eq : p.input ≡ route ++ 10 ∷ flat ls
  pub route_text : IsText route
  pub route_some : 0 < length route
  pub route_room : length p.input + (length route + 2) ≤ size
  pub lines : AllLines (size - length p.input) ls

-- What is scanned in a request is there, and fits into the blocks for it: fewer than 32 bytes of
-- method and 1024 of route, and so for each header.
pub record IsScanned (libc : Libc) (route : List ℕ) (ls : List (List ℕ)) : Type 0 where
  pub method : List ℕ
  pub path : List ℕ
  pub scan_eq : libc.scan_route (route ++ 10 ∷ []) ≡ (some method, some path)
  pub method_fits : length method < 32
  pub path_fits : length path < max_line
  pub headers : AllHeaders libc ls

module _ (libc : Libc) (crypto : Crypto) where
  route_taken :
      (route : List ℕ) (ls : List (List ℕ))
      → IsScanned libc route ls
      → take_route libc false (some (route ++ 10 ∷ [])) ≡ ok tt
  unfolding take_route
  route_taken route ls z =
      rw
        (
          z.scan_eq,
          lt→ltb (length z.method) 32 z.method_fits,
          lt→ltb (length z.path) max_line z.path_fits,
        )
        refl

  handle_client_lem :
      (size rounds : ℕ) (p : Peer) (route : List ℕ) (ls : List (List ℕ)) (s : Socket)
      → IsRequest size p route ls
      → (z : IsScanned libc route ls)
      → handle_client libc crypto size (suc (length ls)) (suc (suc rounds)) p s
        ≡ upgrade libc crypto s (headers_of libc ls z.headers)
  unfolding handle_client web_server_get_route
  handle_client_lem size rounds p route ls s q z =
      let (p', first, done) =
        first_line size rounds route (flat ls) p q.prompt q.input_eq q.route_room q.route_text
          q.route_some in
      let rest =
        parse_lines libc ls (suc rounds) (size - length p.input)
          (size - length p.input + length route + 1) p' q.lines z.headers (omega arith)
          (omega (arith, q.route_room, q.route_some)) done in
      rw (first, route_taken route ls z, rest.parsed) refl

  -- A request that a client has sent whole, of lines that leave room in the reader's buffer,
  -- whose method, route and headers are there and fit into the blocks that they are scanned
  -- into, whose header Upgrade is websocket and which has a key, ends in the start of the event
  -- loop, and the client is sent the response of RFC 6455 to that key, by the SHA-1 and base64
  -- that are given, and nothing else.
  pub web_server_handle_client-upgrade :
      (rounds : ℕ) (p : Peer) (route : List ℕ) (ls : List (List ℕ)) (s : Socket) (key : List ℕ)
      → IsRequest 4096 p route ls
      → (z : IsScanned libc route ls) → IsOpen s
      → header_list_get_header libc (headers_of libc ls z.headers) (ascii "Upgrade")
        ≡ some (ascii "websocket")
      → header_list_get_header libc (headers_of libc ls z.headers) (ascii "Sec-WebSocket-Key")
        ≡ some key
      → (t : Socket) × (web_server_handle_client libc crypto
            (suc (length ls))
            (suc (suc rounds))
            p
            s
          ≡ ok (t, true))
        × Sent s (response libc crypto key) t
  unfolding web_server_handle_client upgrade upgrade_if
  web_server_handle_client-upgrade rounds p route ls s key q z o u k =
      let (t, made, sent) =
        ws_create-response libc crypto s (headers_of libc ls z.headers) key o k in
      (
        t,
        handle_client_lem 4096 rounds p route ls s q z
            ∙ ap (λ o. upgrade_if libc crypto s (headers_of libc ls z.headers) (wants_socket o)) u
            ∙ ap (λ (r : Result Socket). r >>= λ t. ok (t, true)) made,
        sent,
      )

  -- Without a key the handshake of such a request reads a null pointer.
  pub web_server_handle_client-no_key :
      (rounds : ℕ) (p : Peer) (route : List ℕ) (ls : List (List ℕ)) (s : Socket)
      → IsRequest 4096 p route ls
      → (z : IsScanned libc route ls)
      → header_list_get_header libc (headers_of libc ls z.headers) (ascii "Upgrade")
        ≡ some (ascii "websocket")
      → header_list_get_header libc (headers_of libc ls z.headers) (ascii "Sec-WebSocket-Key")
        ≡ none
      → web_server_handle_client libc crypto (suc (length ls)) (suc (suc rounds)) p s
        ≡ fault null_pointer
  unfolding web_server_handle_client upgrade upgrade_if ws_create write_accept hash_key
  web_server_handle_client-no_key rounds p route ls s q z u k =
      handle_client_lem 4096 rounds p route ls s q z
      ∙ ap (λ o. upgrade_if libc crypto s (headers_of libc ls z.headers) (wants_socket o)) u
      ∙ ap
          (λ k.
            write_accept libc crypto (ws_write s handshake_msg) (hash_key libc crypto k) >>= λ t.
            ok (t, true))
          k

  pub web_server_handle_client-plain :
      (rounds : ℕ) (p : Peer) (route : List ℕ) (ls : List (List ℕ)) (s : Socket)
      → IsRequest 4096 p route ls
      → (z : IsScanned libc route ls)
      → wants_socket (header_list_get_header libc (headers_of libc ls z.headers) (ascii "Upgrade"))
        ≡ false
      → web_server_handle_client libc crypto (suc (length ls)) (suc (suc rounds)) p s
        ≡ ok (s, false)
  unfolding web_server_handle_client upgrade upgrade_if
  web_server_handle_client-plain rounds p route ls s q z u =
      handle_client_lem 4096 rounds p route ls s q z
      ∙ ap (upgrade_if libc crypto s (headers_of libc ls z.headers)) u
