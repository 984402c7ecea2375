-- ===== src/Packet/Writing.antt =====
-- What `packet_write` puts on the wire.
use mmo_backend.Base.{ℕ, ◌+◌, ◌<◌, ◌≡◌, List, ◌∷◌, ◌++◌, length, u32, bytes32, arith, ◌>>=◌, some}
use mmo_backend.Socket.{Memory, Socket}
use mmo_backend.Socket.Stream.{IsOpen}
use mmo_backend.WebSocket.Frame.{ws_bin_frame}
use mmo_backend.WebSocket.Sender.{ws_write_frame}
use mmo_backend.WebSocket.Protocol.{server_frame}
use mmo_backend.WebSocket.Writing.{Writes, ws_write_frame-server_frame}
use mmo_backend.Packet.{Packet, packet_write, packet_size}
use mmo_backend.Packet.Reading.{IsPacket, packet_flatten-packet_bytes}

write_as_frame :
    (memory : Memory) (s : Socket) (p : Packet) (content : List ℕ)
    → IsPacket p content
    → let body = p.opcode ∷ bytes32 p.id ++ bytes32 (length content) ++ content in
      packet_write memory s p ≡ (ws_bin_frame memory (some body) (length body) >>= ws_write_frame s)
unfolding packet_write
write_as_frame memory s p content h = rw (packet_flatten-packet_bytes p content h, size)
  where
    size :
        u32 (packet_size + p.length)
        ≡ length (p.opcode ∷ bytes32 p.id ++ bytes32 (length content) ++ content)
    size = omega (arith, h.content_lt, h.length_eq)

-- A packet whose fields fit, with a content of fewer than 32758 bytes, is written to an open
-- socket as one unmasked binary frame of RFC 6455, which holds the opcode, the id, the length
-- and the content.
pub packet_write-server_frame :
    (memory : Memory) (s : Socket) (p : Packet) (content : List ℕ)
    → IsPacket p content
    → IsOpen s
    → length content < 32758
    → Writes s
        (server_frame 1 2 (p.opcode ∷ bytes32 p.id ++ bytes32 p.length ++ content))
        (packet_write memory s p)
packet_write-server_frame memory s p content h o small =
    rw (write_as_frame memory s p content h, h.length_eq)
      (ws_write_frame-server_frame memory
        (p.opcode ∷ bytes32 p.id ++ bytes32 (length content) ++ content) s o (omega arith))
