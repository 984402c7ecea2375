-- ===== src/WebSocket/Frame.antt =====
-- The frames of backend/networking/web-socket.c: their header, their length, and how the server
-- makes them.
use mmo_backend.Base.{
  ℕ, ◌+◌, ◌-◌, ◌*◌, ◌^◌, bit_or, ◌==◌, ltb, if◌then◌else◌, Bool, Option, some, List, drop, Result,
  ok, ◌>>=◌, bytes16, bytes64, word16, word32, htons, htonl, u16,
}
use mmo_backend.Socket.{Memory, overlay, copy_from}

-- `length_ext` is the eight bytes of the union of `short_len` and `long_len`.
pub record WsFrame : Type 0 where
  pub fin : ℕ
  pub rsv1 : ℕ
  pub rsv2 : ℕ
  pub rsv3 : ℕ
  pub opcode : ℕ
  pub mask : ℕ
  pub length7 : ℕ
  pub key : ℕ
  pub length_ext : List ℕ
  pub payload : Option (List ℕ)

abbrev pub frame_bytes : ℕ
frame_bytes = 24

abbrev pub ws_frame_size : ℕ
ws_frame_size = 4 * 1048576

unfoldable pub ws_transcribe_headers : WsFrame → ℕ
ws_transcribe_headers f =
    let h = bit_or 0 (f.fin * 2 ^ 7) in
    let h1 = bit_or h (f.rsv1 * 2 ^ 6) in
    let h2 = bit_or h1 (f.rsv2 * 2 ^ 5) in
    let h3 = bit_or h2 (f.rsv3 * 2 ^ 4) in
    let h4 = bit_or h3 f.opcode in
    let h5 = bit_or h4 (f.mask * 2 ^ 15) in u16 (bit_or h5 (f.length7 * 2 ^ 8))

-- A signed 16-bit value as an unsigned 64-bit one.
abbrev pub sign_extend16 : ℕ → ℕ
sign_extend16 w = if ltb w (2 ^ 15) then w else 2 ^ 64 - 2 ^ 16 + w

abbrev pub word64 : List ℕ → ℕ
word64 ext = word32 ext + 2 ^ 32 * word32 (drop 4 ext)

unfoldable pub ws_length : WsFrame → ℕ
ws_length f =
    if f.length7 == 126
    then sign_extend16 (word16 f.length_ext)
    else if f.length7 == 127
    then word64 f.length_ext
    else f.length7

unfoldable pub ws_bin_frame : Memory → Option (List ℕ) → ℕ → Result WsFrame
ws_bin_frame memory block len = do
  copied ← copy_from block len
  let fresh = memory.junk 8
  let short : Bool = ltb len 126
  let medium : Bool = ltb len 32767
  ok (record {
    fin = 1;
    rsv1 = 0;
    rsv2 = 0;
    rsv3 = 0;
    opcode = 2;
    mask = 0;
    length7 = if short then len else if medium then 126 else 127;
    key = word32 (memory.junk 4);
    length_ext =
        if short
        then fresh
        else if medium
        then overlay fresh (bytes16 (htons len))
        else bytes64 (htonl len);
    payload = some copied;
  })

unfoldable pub ws_close_frame : Memory → List ℕ → Result WsFrame
unfolding ws_bin_frame
ws_close_frame memory status = do
  f ← ws_bin_frame memory (some status) 2
  ok (record f { opcode = 8 })
