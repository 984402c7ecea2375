-- ===== src/WebSocket/Echo.antt =====
-- `ws_text_frame` and `ws_echo_server` of backend/networking/web-socket.c.
use mmo_backend.Base.{
  ℕ, zero, suc, ◌+◌, ◌==◌, if◌then◌else◌, Option, none, some, List, [], ◌∷◌, Result, ok, fault,
  ◌>>=◌, out_of_bounds,
}
use mmo_backend.Socket.{Memory, Socket}
use mmo_backend.WebSocket.Frame.{WsFrame, ws_bin_frame}
use mmo_backend.WebSocket.Sender.{ws_write_frame, ws_close}
use mmo_backend.WebSocket.Receiver.{ws_read_frame}

unfoldable pub strlen : List ℕ → Result ℕ
strlen [] = fault out_of_bounds
strlen (zero ∷ block) = ok 0
strlen (suc b ∷ block) = strlen block >>= λ n. ok (n + 1)

-- The size of the payload: the text with its zero byte, or nothing for a null pointer.
unfoldable pub text_size : Option (List ℕ) → Result ℕ
text_size none = ok 0
text_size (some block) = strlen block >>= λ n. ok (n + 1)

unfoldable pub ws_text_frame : Memory → Option (List ℕ) → Result WsFrame
ws_text_frame memory block = do
  size ← text_size block
  frame ← ws_bin_frame memory block size
  ok (record frame { opcode = 1 })

-- The rounds of the loop, of which the first that reads no frame, or a close frame, is the last.
unfoldable pub echo_rounds : ℕ → Memory → Socket → Result Socket
echo_rounds zero memory s = ok s
echo_rounds (suc rounds) memory s = ws_read_frame memory s >>= λ (read, s'). elim read [
  | none ↦ ok s'
  | some frame ↦ if frame.opcode == 8 then ok s' else (do
    answer ← ws_text_frame memory frame.payload
    s'' ← ws_write_frame s' answer
    echo_rounds rounds memory s'')
]

unfoldable pub ws_echo_server : Memory → Socket → Result Socket
ws_echo_server memory s = do s' ← echo_rounds 3 memory s; ws_close memory s' 1000
