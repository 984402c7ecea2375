-- ===== src/Packet.antt =====
-- backend/communication/packet.c: the packets inside the frames.
pub mod Opcode
pub mod Templates
pub mod Reading
pub mod Writing
use mmo_backend.Base.{
  ℕ, ◌+◌, ◌-◌, ◌^◌, ◌%◌, ◌==◌, leb, if◌then◌else◌, Option, none, some, List, [], ◌∷◌, ◌++◌, drop,
  get_elem?, Result, ok, ◌>>=◌, ◌>>◌, guard, or_fault, null_pointer, out_of_bounds, bytes32, word32,
  u8, u32,
}
use mmo_backend.Socket.{Memory, Socket, copy_from}
use mmo_backend.WebSocket.Frame.{WsFrame, ws_length, ws_bin_frame}
use mmo_backend.WebSocket.Sender.{ws_write_frame}
use mmo_backend.WebSocket.Receiver.{ws_read_frame}

pub record Packet : Type 0 where
  pub opcode : ℕ
  pub id : ℕ
  pub length : ℕ
  pub payload : Option (List ℕ)

-- The size of the opcode, the id and the length.
abbrev pub packet_size : ℕ
packet_size = 1 + 4 + 4

unfoldable pub packet_create : ℕ → ℕ → Option (List ℕ) → ℕ → Packet
packet_create opcode id payload len = record {
  opcode = u8 opcode;
  id = u32 id;
  length = u32 len;
  payload = payload;
}

unfoldable pub packet_flatten : Packet → Result (List ℕ)
packet_flatten p = do
  copied ← copy_from p.payload p.length
  guard (leb (packet_size + p.length) (u32 (p.length + packet_size))) out_of_bounds
  ok (u8 p.opcode ∷ bytes32 p.id ++ bytes32 p.length ++ copied)

unfoldable pub packet_write : Memory → Socket → Packet → Result Socket
packet_write memory s p = do
  body ← packet_flatten p
  frame ← ws_bin_frame memory (some body) (u32 (packet_size + p.length))
  ws_write_frame s frame

-- The packet in a frame that is not empty; the length is that of an `unsigned int`.
unfoldable pub frame_packet : WsFrame → Result Packet
frame_packet f = do
  let len = u32 (ws_length f + 2 ^ 64 - packet_size)
  body ← or_fault f.payload null_pointer
  opcode ← or_fault (get_elem? body 0) out_of_bounds
  id ← copy_from (some (drop 1 body)) 4
  copied ← copy_from (some (drop packet_size body)) len
  ok (record { opcode = opcode; id = word32 id; length = len; payload = some (copied ++ 0 ∷ []) })

unfoldable pub packet_read : Memory → Socket → Result (Option Packet × Socket)
unfolding frame_packet
packet_read memory s = do
  (read, s') ← ws_read_frame memory s
  f ← or_fault read null_pointer
  if f.length7 == 0 then ok (none, s') else (do p ← frame_packet f; ok (some p, s'))
