-- ===== src/Tests/Requests.antt =====
-- A client's request for a web socket, and lines in a reader's buffer, at concrete inputs.
use mmo_backend.Base.{
  ℕ, ◌+◌, ◌≡◌, refl, ◌==◌, leb, Bool, true, false, ◌&&◌, not, if◌then◌else◌, Option, none, some,
  List, [], ◌∷◌, ◌++◌, ok, fault, out_of_bounds, arith,
}
use mmo_backend.Base.Strings.{ascii}
use mmo_backend.Receiver.{Peer}
use mmo_backend.Socket.{Socket}
use mmo_backend.Socket.Stream.{Sent}
use mmo_backend.Http.Reader.{br_read_line}
use mmo_backend.Http.Lines.{IsText, br_read_line-full}
use mmo_backend.Http.Headers.{Libc, header_list_get_header, find_header, starts_return}
use mmo_backend.Http.Handshake.{Crypto, response}
use mmo_backend.Http.Upgrade.{IsRequest, IsScanned, web_server_handle_client-upgrade}
use mmo_backend.Http.Parsing.{flat, headers_of}
use mmo_backend.Http.Server.{web_server_handle_client}
use mmo_backend.Tests.Fixtures.{client}

is_text : List ℕ → Bool
is_text [] = true
is_text (b ∷ bytes) = let rest = is_text bytes in not (b == 0) && (not (b == 10) && rest)

is_text-IsText : (bytes : List ℕ) → is_text bytes ≡ true → IsText bytes
unfolding is_text
is_text-IsText [] e = tt
is_text-IsText (b ∷ bytes) e = (
  (λ q. ground (arith, e, q)),
  (λ q. ground (arith, e, q)),
  is_text-IsText bytes (ground (arith, e)),
)

abbrev up_to : (ℕ → Bool) → List ℕ → List ℕ
up_to stop [] = []
up_to stop (b ∷ bytes) = let rest = up_to stop bytes in if stop b then [] else b ∷ rest

abbrev from : (ℕ → Bool) → List ℕ → List ℕ
from stop [] = []
from stop (b ∷ bytes) = let rest = from stop bytes in if stop b then b ∷ bytes else rest

-- A word behind blanks, and a text that is none when it is empty.
abbrev word : List ℕ → List ℕ
word line = up_to (λ b. leb b 32) (from (λ b. not (leb b 32)) line)

abbrev text : List ℕ → Option (List ℕ)
text [] = none
text (b ∷ bytes) = some (b ∷ bytes)

abbrev pub libc : Libc
libc = record {
  tolower = λ b. if leb b'A' b && leb b b'Z' then b + 32 else b;
  scan_header = λ line. (
    text (up_to (λ b. b == b':') line),
    text (word (from (λ b. not (b == b':')) (from (λ b. b == b':') line))),
  );
  scan_route = λ line.
      (text (word line), text (word (from (λ b. leb b 32) (from (λ b. not (leb b 32)) line))));
}

-- Functions that stand for SHA-1 and the encoding.
abbrev pub crypto : Crypto
crypto = record { sha1 = λ bytes. bytes; base64 = λ bytes. bytes }

abbrev pub route : List ℕ
route = ascii "GET / HTTP/1.1\r"

abbrev pub lines : List (List ℕ)
lines = ascii "Upgrade: websocket\r" ∷ ascii "Sec-WebSocket-Key: dGhl\r" ∷ []

abbrev pub browser : Peer
browser = record { arrived = λ i. 9; reads = 0; input = route ++ 10 ∷ flat lines }

pub browser-IsRequest : IsRequest 4096 browser route lines
unfolding is_text starts_return
browser-IsRequest = record {
  prompt = λ i. omega arith;
  input_eq = refl;
  route_text = is_text-IsText route refl;
  route_some = omega arith;
  route_room = omega arith;
  lines = (
    is_text-IsText (ascii "Upgrade: websocket\r") refl,
    omega arith,
    omega arith,
    refl,
    (is_text-IsText (ascii "Sec-WebSocket-Key: dGhl\r") refl, omega arith, omega arith, refl, tt),
  );
}

abbrev pub browser-IsScanned : IsScanned libc route lines
browser-IsScanned = record {
  method = ascii "GET";
  path = ascii "/";
  scan_eq = refl;
  method_fits = omega arith;
  path_fits = omega arith;
  headers = (
    record {
      name = ascii "Upgrade";
      value = ascii "websocket";
      scan_eq = refl;
      name_fits = omega arith;
      value_fits = omega arith;
    },
    (
      record {
        name = ascii "Sec-WebSocket-Key";
        value = ascii "dGhl";
        scan_eq = refl;
        name_fits = omega arith;
        value_fits = omega arith;
      },
      tt,
    ),
  );
}

pub upgrade_header :
    header_list_get_header libc (headers_of libc lines browser-IsScanned.headers) (ascii "Upgrade")
    ≡ some (ascii "websocket")
unfolding header_list_get_header find_header
upgrade_header = refl

pub key_header :
    header_list_get_header libc
      (headers_of libc lines browser-IsScanned.headers)
      (ascii "Sec-WebSocket-Key")
    ≡ some (ascii "dGhl")
unfolding header_list_get_header find_header
key_header = refl

web_server_handle_client-upgrade_example :
    (t : Socket) × (web_server_handle_client libc crypto 3 2 browser (client []) ≡ ok (t, true))
    × Sent (client []) (response libc crypto (ascii "dGhl")) t
web_server_handle_client-upgrade_example =
    web_server_handle_client-upgrade libc crypto 0 browser route lines (client []) (ascii "dGhl")
      browser-IsRequest browser-IsScanned (λ i. omega arith) upgrade_header key_header

br_read_line-full_example :
    br_read_line 1 (record { buf = b'a' ∷ b'b' ∷ 0 ∷ []; too_long = false }) browser
    ≡ fault out_of_bounds
unfolding is_text
br_read_line-full_example =
    br_read_line-full 0 (b'a' ∷ b'b' ∷ []) browser (is_text-IsText (b'a' ∷ b'b' ∷ []) refl)
      (omega arith)
