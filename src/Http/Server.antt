-- ===== src/Http/Server.antt =====
-- `web_server_get_route` and `web_server_handle_client` of backend/networking/web-server.c, up to where
-- the event loop starts. The name of the client's host is found, and small requests for memory are granted.
use mmo_backend.Base.{ℕ, Bool, true, false, Option, none, some, List, Result, ok, ◌>>=◌}
use mmo_backend.Base.Strings.{ascii, same_string}
use mmo_backend.Receiver.{Peer}
use mmo_backend.Socket.{Socket}
use mmo_backend.Http.Reader.{BufferedReader, br_init, br_read_line}
use mmo_backend.Http.Headers.{
  scanned, Header, Libc, header_list_parse_headers, header_list_get_header,
}
use mmo_backend.Http.Handshake.{Crypto, ws_create}

abbrev pub max_line : ℕ
max_line = 1024

-- The method and the route are taken out of the line and printed; nothing else depends on them.
unfoldable pub take_route : Libc → Bool → Option (List ℕ) → Result (Unit {0})
take_route libc true line = ok tt
take_route libc false none = ok tt
take_route libc false (some line) = do
  let (method, route) = libc.scan_route line
  method' ← scanned 32 method
  route' ← scanned max_line route
  ok tt

unfoldable pub web_server_get_route :
    Libc → ℕ → BufferedReader → Peer → Result (BufferedReader × Peer)
unfolding take_route
web_server_get_route libc rounds br p = br_read_line rounds br p >>= λ (line, br', p').
    take_route libc br'.too_long line >>= λ _. ok (br', p')

-- `upgrade && !strcmp(upgrade, "websocket")`
abbrev pub wants_socket : Option (List ℕ) → Bool
wants_socket none = false
wants_socket (some value) = same_string value (ascii "websocket")

module _ (libc : Libc) (crypto : Crypto) where
  unfoldable pub upgrade_if : Socket → List Header → Bool → Result (Socket × Bool)
  upgrade_if s headers true = ws_create libc crypto s headers >>= λ t. ok (t, true)
  upgrade_if s headers false = ok (s, false)

  unfoldable pub upgrade : Socket → List Header → Result (Socket × Bool)
  upgrade s headers =
      upgrade_if s headers (wants_socket (header_list_get_header libc headers (ascii "Upgrade")))

  -- What was written to the client, and whether the event loop starts. `size` is that of the reader's buffer.
  unfoldable pub handle_client : ℕ → ℕ → ℕ → Peer → Socket → Result (Socket × Bool)
  handle_client size fuel rounds p s =
      web_server_get_route libc rounds (br_init size) p >>= λ (br, p'). elim br.too_long [
        | true ↦ ok (s, false)
        | false ↦ header_list_parse_headers libc fuel rounds br p' >>= λ (headers, br', p'').
            upgrade s headers
      ]

  unfoldable pub web_server_handle_client : ℕ → ℕ → Peer → Socket → Result (Socket × Bool)
  web_server_handle_client fuel rounds p s = handle_client 4096 fuel rounds p s
