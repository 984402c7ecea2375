-- ===== src/WebSocket/Receiver.antt =====
-- Reading a frame from the socket (backend/networking/web-socket.c).
use mmo_backend.Base.{
  ℕ, zero, suc, ◌+◌, ◌-◌, ◌/◌, ◌%◌, ◌^◌, bit_xor, ◌==◌, ltb, leb, if◌then◌else◌, Bool, ◌&&◌, ◌||◌,
  Option, none, some, List, [], ◌∷◌, ◌++◌, take, Result, ok, fault, ◌>>=◌, ◌>>◌, guard,
  null_pointer, out_of_bounds, bytes16, bytes64, word16, word32, htons, htonl, u64,
}
use mmo_backend.Socket.{Memory, Socket, ws_read, overlay}
use mmo_backend.WebSocket.Frame.{WsFrame, frame_bytes, ws_frame_size, sign_extend16}

-- `((char*)&key)[j]`
unfoldable pub key_byte : ℕ → ℕ → ℕ
key_byte key j = key / 256 ^ j % 256

-- The loop of `ws_apply_key` at index `i`, with `left` rounds to go.
unfoldable pub apply_key_loop : ℕ → ℕ → ℕ → List ℕ → Result (List ℕ)
unfolding key_byte
apply_key_loop key zero i bytes = ok bytes
apply_key_loop key (suc left) i [] = fault out_of_bounds
apply_key_loop key (suc left) i (b ∷ bytes) = apply_key_loop key left (i + 1) bytes >>= λ rest.
    ok (bit_xor b (key_byte key (3 - i % 4)) ∷ rest)

unfoldable pub ws_apply_key : ℕ → ℕ → List ℕ → Result (List ℕ)
unfolding apply_key_loop
ws_apply_key key len bytes = apply_key_loop key len 0 bytes

-- What `ws_read_frame` learns of the length: the size of the payload, the union, and the size
-- of the block that is asked for.
pub record Sized : Type 0 where
  pub frame_size : ℕ
  pub length_ext : List ℕ
  pub block : ℕ
  pub socket : Socket

-- `none` is the early return for a frame that is too large.
unfoldable pub read_size : Memory → Socket → ℕ → Option Sized
read_size memory s length7 =
    if length7 == 126
    then (let (got, s') = ws_read s 2 in
        let size = htons (word16 (overlay (memory.junk 8) got)) in
        some (record {
          frame_size = size;
          length_ext = overlay (memory.junk 8) (bytes16 size);
          block = u64 (frame_bytes + sign_extend16 size);
          socket = s';
        }))
    else if length7 == 127
    then (let (got, s') = ws_read s 8 in
        let size = htonl (word32 (overlay (memory.junk 8) got)) in
        if ltb ws_frame_size size
        then none
        else some (record {
          frame_size = size;
          length_ext = bytes64 size;
          block = frame_bytes + size;
          socket = s';
        }))
    else some (record {
      frame_size = length7;
      length_ext = memory.junk 8;
      block = frame_bytes + length7;
      socket = s;
    })

-- The body of a frame that has one: it is read, ended by a zero byte, and unmasked.
unfoldable pub read_body : Memory → Socket → ℕ → ℕ → Result (Option (List ℕ) × Socket)
read_body memory s key frame_size = if frame_size == 0 then ok (none, s) else do
  guard (memory.grants (frame_size + 1)) null_pointer
  let (got, s') = ws_read s frame_size
  body ←
      ws_apply_key key frame_size
        (overlay (take frame_size (memory.junk (frame_size + 1))) got ++ 0 ∷ [])
  ok (some body, s')

-- Opcodes that no frame may have.
abbrev pub is_reserved : ℕ → Bool
is_reserved opcode = (ltb 2 opcode && ltb opcode 8) || ltb 10 opcode

-- The frame once its length is known: the key, the block for it, its body.
unfoldable pub read_rest : Memory → ℕ → Sized → Result (Option WsFrame × Socket)
read_rest memory headers sized = do
  let has_mask : Bool = headers / 2 ^ 7 % 2 == 1
  let read_key = ws_read sized.socket 4
  let raw_key = overlay (memory.junk 4) (if has_mask then read_key.0 else [])
  let key = htonl (word32 raw_key)
  let s2 : Socket = if has_mask then read_key.1 else sized.socket
  guard (memory.grants sized.block) null_pointer
  guard (leb frame_bytes sized.block) out_of_bounds
  (payload, s3) ← read_body memory s2 key sized.frame_size
  let opcode = headers / 2 ^ 8 % 16
  if is_reserved opcode
      then ok (none, s3)
      else ok (
        some (record {
          fin = headers / 2 ^ 15 % 2;
          rsv1 = headers / 2 ^ 14 % 2;
          rsv2 = headers / 2 ^ 13 % 2;
          rsv3 = headers / 2 ^ 12 % 2;
          opcode = opcode;
          mask = headers / 2 ^ 7 % 2;
          length7 = headers % 128;
          key = key;
          length_ext = sized.length_ext;
          payload = payload;
        }),
        s3,
      )

-- The frame, or a null pointer where `none`.
unfoldable pub ws_read_frame : Memory → Socket → Result (Option WsFrame × Socket)
ws_read_frame memory s =
    let (head, s1) = ws_read s 2 in
    let headers = htons (word16 (overlay (0 ∷ 0 ∷ []) head)) in
    elim (read_size memory s1 (headers % 128)) [
      | none ↦ ok (none, (ws_read s1 8).1)
      | some sized ↦ read_rest memory headers sized
    ]
