-- ===== src/WebSocket/Sender.antt =====
-- Writing a frame on the socket (backend/networking/web-socket.c).
use mmo_backend.Base.{
  ℕ, ◌==◌, if◌then◌else◌, Bool, take, Result, ok, ◌>>=◌, bytes16, bytes32, word16, word32, htons,
  htonl,
}
use mmo_backend.Socket.{Memory, Socket, ws_write, copy_from}
use mmo_backend.WebSocket.Frame.{WsFrame, ws_transcribe_headers, ws_close_frame}

unfoldable pub ws_write_frame : Socket → WsFrame → Result Socket
unfolding ws_transcribe_headers
ws_write_frame s f = do
  let s1 = ws_write s (bytes16 (ws_transcribe_headers f))
  let short : Bool = f.length7 == 126
  let long : Bool = f.length7 == 127
  let s2 : Socket =
      if short
      then ws_write s1 (take 2 f.length_ext)
      else if long
      then ws_write s1 f.length_ext
      else s1
  let data_length : ℕ =
      if short
      then htons (word16 f.length_ext)
      else if long
      then htonl (word32 f.length_ext)
      else f.length7
  let s3 : Socket = if f.mask == 0 then s2 else ws_write s2 (bytes32 f.key)
  bytes ← copy_from f.payload data_length
  ok (ws_write s3 bytes)

unfoldable pub ws_close : Memory → Socket → ℕ → Result Socket
unfolding ws_close_frame ws_write_frame
ws_close memory s code = do f ← ws_close_frame memory (bytes16 (htons code)); ws_write_frame s f
