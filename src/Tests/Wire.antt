-- ===== src/Tests/Wire.antt =====
-- Frames and packets at concrete inputs.
use mmo_backend.Base.{ℕ, ◌≡◌, refl, some, none, List, [], ◌∷◌, ◌++◌, ok, ◌>>=◌, arith}
use mmo_backend.Base.Int.{pos}
use mmo_backend.Socket.{Socket}
use mmo_backend.Socket.Stream.{IsOpen}
use mmo_backend.WebSocket.Frame.{WsFrame, ws_bin_frame}
use mmo_backend.WebSocket.Headers.{HasFields}
use mmo_backend.WebSocket.Protocol.{key_bytes, client_frame, server_frame, IsBytes}
use mmo_backend.WebSocket.Receiver.{ws_read_frame}
use mmo_backend.WebSocket.Reading.{IsClientFrame, ReadsWhole, ws_read_frame-client_frame}
use mmo_backend.WebSocket.Sender.{ws_write_frame}
use mmo_backend.WebSocket.Writing.{Writes, ws_write_frame-server_frame}
use mmo_backend.Packet.{Packet, packet_flatten, packet_read, packet_write}
use mmo_backend.Packet.Templates.{position_bytes}
use mmo_backend.Packet.Reading.{IsPacket, ReadsPacket, packet_read-packet_flatten}
use mmo_backend.Packet.Writing.{packet_write-server_frame}
use mmo_backend.Tests.Fixtures.{
  plain_memory, plain_memory-IsGenerous, client, test_key, all_bytes-IsBytes,
}

client-IsOpen : (input : List ℕ) → IsOpen (client input)
client-IsOpen input i = omega arith

abbrev close_headers : WsFrame
close_headers = record {
  fin = 1;
  rsv1 = 0;
  rsv2 = 1;
  rsv3 = 0;
  opcode = 8;
  mask = 1;
  length7 = 2;
  key = 0;
  length_ext = [];
  payload = none;
}

close_headers-HasFields : HasFields close_headers
close_headers-HasFields = record {
  fin = omega arith;
  rsv1 = omega arith;
  rsv2 = omega arith;
  rsv3 = omega arith;
  opcode = omega arith;
  mask = omega arith;
  length7 = omega arith;
}

abbrev move : Packet
move = record { opcode = 5; id = 7; length = 8; payload = some (position_bytes (pos 3) (pos 258)) }

abbrev move_body : List ℕ
move_body = 5 ∷ 7 ∷ 0 ∷ 0 ∷ 0 ∷ 8 ∷ 0 ∷ 0 ∷ 0 ∷ 3 ∷ 0 ∷ 0 ∷ 0 ∷ 2 ∷ 1 ∷ 0 ∷ 0 ∷ []

move-IsPacket : IsPacket move (position_bytes (pos 3) (pos 258))
move-IsPacket = record {
  opcode_lt = omega arith;
  id_lt = omega arith;
  payload_eq = refl;
  length_eq = refl;
  content_lt = omega arith;
}

test_key-IsBytes : IsBytes (key_bytes test_key)
test_key-IsBytes = all_bytes-IsBytes (key_bytes test_key) refl

small-IsClientFrame : (body : List ℕ) → IsBytes body → IsClientFrame 1 2 test_key body
small-IsClientFrame body h = record {
  fin_lt = omega arith;
  opcode_lt = omega arith;
  allowed = refl;
  key_IsBytes = test_key-IsBytes;
  body_IsBytes = h;
}

abbrev three : List ℕ
three = 200 ∷ 0 ∷ 7 ∷ []

three-IsBytes : IsBytes three
three-IsBytes = all_bytes-IsBytes three refl

abbrev with_three : Socket
with_three = client (client_frame 1 2 test_key three ++ 9 ∷ [])

ws_read_frame-client_frame_example :
    ReadsWhole with_three 1 2 three (9 ∷ []) (ws_read_frame plain_memory with_three)
ws_read_frame-client_frame_example =
    ws_read_frame-client_frame plain_memory with_three 1 2 test_key three (9 ∷ [])
      (small-IsClientFrame three three-IsBytes) plain_memory-IsGenerous (omega arith)
      (refl, λ i. omega arith)

abbrev with_nothing : Socket
with_nothing = client (client_frame 1 2 test_key [] ++ 9 ∷ [])

abbrev with_move : Socket
with_move = client (client_frame 1 2 test_key move_body ++ 9 ∷ [])

move_flattened : packet_flatten move ≡ ok move_body
unfolding packet_flatten
move_flattened = refl

move_body-IsBytes : IsBytes move_body
move_body-IsBytes = all_bytes-IsBytes move_body refl

packet_read-packet_flatten_example :
    ReadsPacket move
      (position_bytes (pos 3) (pos 258))
      (9 ∷ [])
      (packet_read plain_memory with_move)
packet_read-packet_flatten_example =
    packet_read-packet_flatten plain_memory with_move 1 2 test_key move
      (position_bytes (pos 3) (pos 258)) move_body (9 ∷ []) plain_memory-IsGenerous move-IsPacket
      move_flattened (small-IsClientFrame move_body move_body-IsBytes) (omega arith)
      (refl, λ i. omega arith)

packet_write-server_frame_example :
    Writes (client []) (server_frame 1 2 move_body) (packet_write plain_memory (client []) move)
packet_write-server_frame_example =
    packet_write-server_frame plain_memory (client []) move (position_bytes (pos 3) (pos 258))
      move-IsPacket (client-IsOpen []) (omega arith)

ws_write_frame-server_frame_example :
    Writes
      (client [])
      (server_frame 1 2 three)
      (ws_bin_frame plain_memory (some three) 3 >>= ws_write_frame (client []))
ws_write_frame-server_frame_example =
    ws_write_frame-server_frame plain_memory three (client []) (client-IsOpen []) (omega arith)
