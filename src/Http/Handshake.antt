-- ===== src/Http/Handshake.antt =====
-- The answer to a client's handshake: `hash_key` and `ws_create` of backend/networking/web-socket.c.
-- SHA-1 is OpenSSL's and the encoding GLib's, outside the program.
use mmo_backend.Base.{
  subst, ℕ, ◌≡◌, sym, ap, Option, none, some, List, [], ◌++◌, Result, ok, fault, null_pointer,
  append_assoc,
}
use mmo_backend.Base.Strings.{ascii}
use mmo_backend.Socket.{Socket, ws_write}
use mmo_backend.Socket.Stream.{IsOpen, Sent, Sent-IsOpen, Sent-append, ws_write-Sent}
use mmo_backend.Http.Headers.{Header, Libc, header_list_get_header}

pub record Crypto : Type 0 where
  pub sha1 : List ℕ → List ℕ
  pub base64 : List ℕ → List ℕ

abbrev pub suffix : List ℕ
suffix = ascii "258EAFA5-E914-47DA-95CA-C5AB0DC85B11"

abbrev pub handshake_msg : List ℕ
handshake_msg =
    ascii
      "HTTP/1.1 101 Switching Protocols\r\nUpgrade: websocket\r\nConnection: Upgrade\r\nSec-WebSocket-Accept: "

module _ (libc : Libc) (crypto : Crypto) where
  unfoldable pub hash_key : Option (List ℕ) → Option (List ℕ)
  hash_key none = none
  hash_key (some key) = some (crypto.sha1 (key ++ suffix))

  -- Without a hash there is no text to write: `strlen` is given a null pointer, after the first message
  -- went out.
  unfoldable pub write_accept : Socket → Option (List ℕ) → Result Socket
  write_accept s none = fault null_pointer
  write_accept s (some hash) = ok (ws_write (ws_write s (crypto.base64 hash)) (ascii "\r\n\r\n"))

  unfoldable pub ws_create : Socket → List Header → Result Socket
  ws_create s headers =
      let hash = hash_key (header_list_get_header libc headers (ascii "Sec-WebSocket-Key")) in
      write_accept (ws_write s handshake_msg) hash

  -- The response of RFC 6455, section 4.2.2: a status line and three headers, each with its end, and
  -- an empty line.
  abbrev line : List ℕ → List ℕ
  line text = text ++ ascii "\r\n"

  abbrev pub response : List ℕ → List ℕ
  response key =
      line (ascii "HTTP/1.1 101 Switching Protocols")
      ++ line (ascii "Upgrade: websocket")
      ++ line (ascii "Connection: Upgrade")
      ++ line (
          ascii "Sec-WebSocket-Accept: "
          ++ crypto.base64 (crypto.sha1 (key ++ ascii "258EAFA5-E914-47DA-95CA-C5AB0DC85B11")))
      ++ line []

  response_eq :
      (key : List ℕ)
      → (handshake_msg ++ crypto.base64 (crypto.sha1 (key ++ suffix))) ++ ascii "\r\n\r\n"
        ≡ response key
  response_eq key =
      let accept = crypto.base64 (crypto.sha1 (key ++ suffix)) in
      ap (◌++◌ handshake_msg) (sym (append_assoc accept (ascii "\r\n") (ascii "\r\n")))

  -- With a key, an open socket is sent the response of RFC 6455 to that key.
  pub ws_create-response :
      (s : Socket) (headers : List Header) (key : List ℕ)
      → IsOpen s
      → header_list_get_header libc headers (ascii "Sec-WebSocket-Key") ≡ some key
      → (t : Socket) × (ws_create s headers ≡ ok t) × Sent s (response key) t
  unfolding ws_create write_accept hash_key
  ws_create-response s headers key o e =
      let accept = crypto.base64 (crypto.sha1 (key ++ suffix)) in
      let first = ws_write-Sent s handshake_msg o in
      let second = ws_write-Sent (ws_write s handshake_msg) accept (Sent-IsOpen first o) in
      let both = Sent-append first second in
      let last = ws_write-Sent _ (ascii "\r\n\r\n") (Sent-IsOpen both o) in
      (
        ws_write (ws_write (ws_write s handshake_msg) accept) (ascii "\r\n\r\n"),
        ap (λ k. write_accept (ws_write s handshake_msg) (hash_key k)) e,
        subst
            (λ bytes.
              Sent s bytes
                (ws_write (ws_write (ws_write s handshake_msg) accept) (ascii "\r\n\r\n")))
            (response_eq key) (Sent-append both last),
      )
