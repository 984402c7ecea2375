-- ===== src/WebSocket/Sizes.antt =====
-- What `ws_read_frame` makes of the length of a frame.
use mmo_backend.Base.{
  ℕ, ◌+◌, ◌/◌, ◌%◌, ◌^◌, ◌<◌, ◌≤◌, ◌≡◌, refl, ap, ◌∙◌, Option, some, List, [], ◌∷◌, ◌++◌, take,
  drop, htonl, htons, word16, word32, u64, arith,
}
use mmo_backend.Socket.{Memory, Socket, ws_read, overlay}
use mmo_backend.Socket.Stream.{Arrived, Received, ws_read-Received}
use mmo_backend.WebSocket.Frame.{frame_bytes, sign_extend16}
use mmo_backend.WebSocket.Receiver.{Sized, read_size}
use mmo_backend.WebSocket.Protocol.{length_field}

-- What the length of a frame is read as, and the block that is asked for.
pub record ReadsSize (s : Socket) (n b : ℕ) (rest : List ℕ) (r : Option Sized) : Type 0 where
  pub sized : Sized
  pub returns : r ≡ some sized
  pub frame_size : sized.frame_size ≡ n
  pub block : sized.block ≡ b
  pub word : n < 2 ^ 16 → 125 < n → word16 sized.length_ext ≡ n
  pub input : Arrived sized.socket rest
  pub accepts : sized.socket.accepts ≡ s.accepts
  pub out : sized.socket.out ≡ s.out

pub read_size-short :
    (memory : Memory) (s : Socket) (n : ℕ) (rest : List ℕ)
    → Arrived s rest
    → n < 126
    → ReadsSize s n (frame_bytes + n) rest (read_size memory s n)
unfolding read_size
read_size-short memory s n rest e h = record {
  sized = record {
    frame_size = n;
    length_ext = memory.junk 8;
    block = frame_bytes + n;
    socket = s;
  };
  returns = ground arith;
  frame_size = refl;
  block = refl;
  word = λ p q. absurd (omega arith);
  input = e;
  accepts = refl;
  out = refl;
}

pub read_size-medium :
    (memory : Memory) (s : Socket) (n : ℕ) (rest : List ℕ)
    → Arrived s (n / 256 % 256 ∷ n % 256 ∷ rest)
    → n < 65536
    → ReadsSize s n (u64 (frame_bytes + sign_extend16 n)) rest (read_size memory s 126)
unfolding read_size
read_size-medium memory s n rest e h = record {
  sized = record {
    frame_size = n;
    length_ext = n % 256 ∷ n / 256 % 256 ∷ drop 2 (memory.junk 8);
    block = u64 (frame_bytes + sign_extend16 n);
    socket = (ws_read s 2).1;
  };
  returns = rw size;
  frame_size = refl;
  block = refl;
  word = λ p q. omega arith;
  input = (r.left ∙ ap (drop 2) e.0, r.on);
  accepts = r.accepts;
  out = r.out;
}
  where
    r : Received s 2 (ws_read s 2)
    r = ws_read-Received s 2 e.1

    size : htons (word16 (overlay (memory.junk 8) (ws_read s 2).0)) ≡ n
    size = rw (r.got ∙ ap (take 2) e.0) (omega arith)

-- A 64-bit length is read as its high half.
pub read_size-long :
    (memory : Memory) (s : Socket) (n : ℕ) (rest : List ℕ)
    → Arrived s (length_field n ++ rest)
    → 65536 ≤ n
    → n < 2 ^ 32
    → ReadsSize s 0 frame_bytes rest (read_size memory s 127)
unfolding read_size
read_size-long memory s n rest e lo hi = record {
  sized = record {
    frame_size = 0;
    length_ext = 0 ∷ 0 ∷ 0 ∷ 0 ∷ 0 ∷ 0 ∷ 0 ∷ 0 ∷ [];
    block = frame_bytes;
    socket = (ws_read s 8).1;
  };
  returns = rw size;
  frame_size = refl;
  block = refl;
  word = λ p q. absurd (omega arith);
  input = (r.left ∙ ap (drop 8) bytes, r.on);
  accepts = r.accepts;
  out = r.out;
}
  where
    r : Received s 8 (ws_read s 8)
    r = ws_read-Received s 8 e.1

    bytes :
        s.input
        ≡ 0 ∷ 0 ∷ 0 ∷ 0 ∷ n / 16777216 % 256 ∷ n / 65536 % 256 ∷ n / 256 % 256 ∷ n % 256 ∷ rest
    bytes = e.0 ∙ ground arith

    size : htonl (word32 (overlay (memory.junk 8) (ws_read s 8).0)) ≡ 0
    size = rw (r.got ∙ ap (take 8) bytes)
