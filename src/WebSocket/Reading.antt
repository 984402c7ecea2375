-- ===== src/WebSocket/Reading.antt =====
-- What `ws_read_frame` makes of the frames that a client may send.
use mmo_backend.Base.{
  ℕ, ◌+◌, ◌-◌, ◌*◌, ◌/◌, ◌%◌, ◌^◌, ◌<◌, ◌≤◌, ◌≡◌, refl, ap, ◌∙◌, ◌==◌, if◌then◌else◌, true, false,
  Option, none, some, List, [], ◌∷◌, ◌++◌, length, take, drop, Result, fault, null_pointer,
  out_of_bounds, htons, word16, u64, arith, lt→ltb, le→ltb, dec_lt, ◌⊎◌, inl,
}
use mmo_backend.Socket.{Memory, Socket, ws_read, overlay}
use mmo_backend.Socket.Stream.{Arrived, IsPrompt, Received, ws_read-Received}
use mmo_backend.WebSocket.Frame.{WsFrame, frame_bytes, ws_length, sign_extend16}
use mmo_backend.WebSocket.Receiver.{read_size, ws_read_frame, read_rest, is_reserved}
use mmo_backend.WebSocket.Protocol.{
  IsBytes, Key, key_bytes, masked, client_frame, length_code, length_field,
}
use mmo_backend.WebSocket.Sizes.{ReadsSize, read_size-short, read_size-medium, read_size-long}
use mmo_backend.WebSocket.Bodies.{
  ReadsFrame, HasHeaders, read_rest-masked, read_rest-refused, read_rest-small,
}

-- Requests below eight megabytes are granted.
abbrev pub IsGenerous : Memory → Type 0
IsGenerous memory = (n : ℕ) → n < 2 ^ 23 → memory.grants n ≡ true

-- A frame that a client may send: its fields fit, its opcode is none of the reserved ones, and it
-- is bytes.
pub record IsClientFrame (fin opcode : ℕ) (k : Key) (body : List ℕ) : Type 0 where
  pub fin_lt : fin < 2
  pub opcode_lt : opcode < 16
  pub allowed : is_reserved opcode ≡ false
  pub key_IsBytes : IsBytes (key_bytes k)
  pub body_IsBytes : IsBytes body

headers-HasHeaders :
    (s : Socket) (fin opcode code : ℕ) (field : List ℕ)
    → Arrived s ((fin * 128 + opcode) ∷ (128 + code) ∷ field)
    → fin < 2
    → opcode < 16
    → code < 128
    → HasHeaders fin opcode code (htons (word16 (overlay (0 ∷ 0 ∷ []) (ws_read s 2).0)))
headers-HasHeaders s fin opcode code field e hf ho hc = rw (r.got ∙ ap (take 2) e.0) (record {
  code_eq = omega arith;
  mask_eq = omega arith;
  opcode_eq = omega arith;
  fin_eq = omega arith;
})
  where
    r : Received s 2 (ws_read s 2)
    r = ws_read-Received s 2 e.1

-- The header word of the next frame on the socket, and the socket behind it.
abbrev header_word : Socket → ℕ
header_word s = htons (word16 (overlay (0 ∷ 0 ∷ []) (ws_read s 2).0))

abbrev behind_header : Socket → Socket
behind_header s = (ws_read s 2).1

ws_read_frame-sized :
    (memory : Memory) (s : Socket) (fin opcode code n b : ℕ) (rest : List ℕ)
    → HasHeaders fin opcode code (header_word s)
    → (z : ReadsSize (behind_header s) n b rest (read_size memory (behind_header s) code))
    → ws_read_frame memory s ≡ read_rest memory (header_word s) z.sized
unfolding ws_read_frame
ws_read_frame-sized memory s fin opcode code n b rest h z = rw (h.code_eq, z.returns, ws_read_frame)

-- What is read behind the length is what is read of the frame.
after_length :
    (memory : Memory) (s : Socket) (fin opcode code n b : ℕ) (p : Option (List ℕ))
    (rest left : List ℕ)
    → IsPrompt s
    → HasHeaders fin opcode code (header_word s)
    → (z : ReadsSize (behind_header s) n b left (read_size memory (behind_header s) code))
    → ReadsFrame z.sized.socket fin opcode code p z.sized.length_ext rest
        (read_rest memory (header_word s) z.sized)
    → ReadsFrame s fin opcode code p z.sized.length_ext rest (ws_read_frame memory s)
after_length memory s fin opcode code n b p rest left o h z r =
    let head = ws_read-Received s 2 o in
    record {
      frame = r.frame;
      socket = r.socket;
      returns = ws_read_frame-sized memory s fin opcode code n b left h z ∙ r.returns;
      fin_eq = r.fin_eq;
      opcode_eq = r.opcode_eq;
      mask_eq = r.mask_eq;
      code_eq = r.code_eq;
      payload_eq = r.payload_eq;
      ext_eq = r.ext_eq;
      input = r.input;
      accepts = r.accepts ∙ z.accepts ∙ head.accepts;
      out = r.out ∙ z.out ∙ head.out;
    }

-- A frame read whole: its payload is there, and its length is that of the payload.
pub record ReadsWhole (s : Socket) (fin opcode : ℕ) (body rest : List ℕ)
    (r : Result (Option WsFrame × Socket)) : Type 0 where
  pub ext : List ℕ
  pub code : ℕ
  pub code_lem : code ≡ length_code (length body)
  pub reads :
      ReadsFrame s fin opcode code
        (if length body == 0 then none else some (body ++ 0 ∷ []))
        ext
        rest
        r
  pub size : ws_length reads.frame ≡ length body

-- A frame read with a null pointer for its payload.
pub record ReadsNothing (s : Socket) (fin opcode : ℕ) (rest : List ℕ)
    (r : Result (Option WsFrame × Socket)) : Type 0 where
  pub ext : List ℕ
  pub reads : ReadsFrame s fin opcode 127 none ext rest r

module _ (memory : Memory) (s : Socket) (fin opcode : ℕ) (k : Key) (body rest : List ℕ)
    (c : IsClientFrame fin opcode k body) where
  abbrev n : ℕ
  n = length body

  abbrev tail : List ℕ
  tail = key_bytes k ++ masked k body ++ rest

  -- From the length on, a frame with a block that is granted is read whole.
  sized_reads :
      (code b : ℕ)
      → IsGenerous memory
      → n < 32768
      → b ≡ frame_bytes + n
      → code ≡ length_code n
      → code < 128
      → Arrived s ((fin * 128 + opcode) ∷ (128 + code) ∷ length_field n ++ tail)
      → (z : ReadsSize (behind_header s) n b tail (read_size memory (behind_header s) code))
      → ((f : WsFrame) → f.length7 ≡ code → f.length_ext ≡ z.sized.length_ext → ws_length f ≡ n)
      → ReadsWhole s fin opcode body rest (ws_read_frame memory s)
  sized_reads code b g small eb ec hc e z sizes =
      let h = headers-HasHeaders s fin opcode code _ e c.fin_lt c.opcode_lt hc in
      let r =
        read_rest-masked memory fin opcode code (header_word s) k body rest z.sized h c.allowed
          (g z.sized.block (omega (arith, z.block))) (omega (arith, z.block))
          (g (n + 1) (omega arith)) z.frame_size z.input c.key_IsBytes c.body_IsBytes in
      let w = after_length memory s fin opcode code n b _ rest tail e.1 h z r in
      record {
        ext = z.sized.length_ext;
        code = code;
        code_lem = ec;
        reads = w;
        size = sizes w.frame w.code_eq w.ext_eq;
      }

  short_reads :
      IsGenerous memory
      → n < 126
      → Arrived s (client_frame fin opcode k body ++ rest)
      → ReadsWhole s fin opcode body rest (ws_read_frame memory s)
  unfolding client_frame
  short_reads g small e =
      let start : Arrived s ((fin * 128 + opcode) ∷ (128 + n) ∷ length_field n ++ tail) =
        (e.0 ∙ rw (lt→ltb n 126 small), e.1) in
      let z =
        read_size-short memory (behind_header s) n tail
          (
            (ws_read-Received s 2 e.1).left ∙ ap (drop 2) start.0 ∙ rw (lt→ltb n 126 small),
            (ws_read-Received s 2 e.1).on,
          )
          small in
      sized_reads n (frame_bytes + n) g (omega arith) refl (rw (lt→ltb n 126 small)) (omega arith)
        start z (λ f p q. unfold ws_length in ground arith)

  medium_start :
      125 < n
      → n < 65536
      → Arrived s (client_frame fin opcode k body ++ rest)
      → Arrived s ((fin * 128 + opcode) ∷ 254 ∷ n / 256 % 256 ∷ n % 256 ∷ tail)
  unfolding client_frame
  medium_start large small e = (e.0 ∙ rw (le→ltb n 126 large, lt→ltb n 65536 small), e.1)

  medium_size :
      125 < n
      → n < 65536
      → Arrived s (client_frame fin opcode k body ++ rest)
      → ReadsSize
          (behind_header s)
          n
          (u64 (frame_bytes + sign_extend16 n))
          tail
          (read_size memory (behind_header s) 126)
  medium_size large small e =
      read_size-medium memory (behind_header s) n tail
        (
          (ws_read-Received s 2 e.1).left ∙ ap (drop 2) (medium_start large small e).0,
          (ws_read-Received s 2 e.1).on,
        )
        small

  medium_reads :
      IsGenerous memory
      → 125 < n
      → n < 32768
      → Arrived s (client_frame fin opcode k body ++ rest)
      → ReadsWhole s fin opcode body rest (ws_read_frame memory s)
  medium_reads g large small e =
      let wide : n < 65536 = omega arith in
      let z = medium_size large wide e in
      sized_reads 126 (u64 (frame_bytes + sign_extend16 n)) g small (ground arith)
        (rw (le→ltb n 126 large, lt→ltb n 65536 wide)) (omega arith)
        ((medium_start large wide e).0 ∙ rw (le→ltb n 126 large, lt→ltb n 65536 wide), e.1) z
        (λ f p q. unfold ws_length in ground (arith, z.word wide large, ap word16 q))

  -- A masked frame of RFC 6455 with an opcode that is not reserved and fewer than 32768 bytes is
  -- read as it was sent, with small requests for memory granted: its fields, its length, and its
  -- payload with the mask off and a zero byte behind it, or a null pointer for an empty one; the
  -- input goes on behind the frame.
  pub ws_read_frame-client_frame :
      IsGenerous memory
      → n < 32768
      → Arrived s (client_frame fin opcode k body ++ rest)
      → ReadsWhole s fin opcode body rest (ws_read_frame memory s)
  ws_read_frame-client_frame g small e = elim (dec_lt n 126) [
    | yes p ↦ short_reads g p e
    | no p ↦ medium_reads g (omega arith) small e
  ]

  -- A masked frame of 32768 to 65535 bytes ends ws_read_frame in a null pointer or an access out
  -- of bounds: its length is negative as a short.
  pub ws_read_frame-negative_short :
      32767 < n
      → n < 65536
      → Arrived s (client_frame fin opcode k body ++ rest)
      → (ws_read_frame memory s ≡ fault null_pointer)
        ⊎ (ws_read_frame memory s ≡ fault out_of_bounds)
  ws_read_frame-negative_short large small e =
      let start = medium_start (omega arith) small e in
      let h = headers-HasHeaders s fin opcode 126 _ start c.fin_lt c.opcode_lt (omega arith) in
      let z = medium_size (omega arith) small e in
      let same = ws_read_frame-sized memory s fin opcode 126 n _ tail h z in
      let negative : sign_extend16 n ≡ 2 ^ 64 - 2 ^ 16 + n = ground arith in
      elim (dec_lt n 65512) [
        | yes p ↦
            let huge : 2 ^ 63 ≤ z.sized.block = omega (arith, z.block, negative) in
            inl (same ∙ read_rest-refused memory _ z.sized (memory.grants_bound _ huge))
        | no p ↦
            let tiny : z.sized.block < frame_bytes = omega (arith, z.block, negative) in
            rw same (read_rest-small memory _ z.sized tiny)
      ]

  -- A masked frame of 65536 bytes or more, fewer than 2^32, is read as a frame without a
  -- payload, with small requests for memory granted; the masked payload stays on the input.
  pub ws_read_frame-long :
      IsGenerous memory
      → 65535 < n
      → n < 2 ^ 32
      → Arrived s (client_frame fin opcode k body ++ rest)
      → ReadsNothing s fin opcode (masked k body ++ rest) (ws_read_frame memory s)
  unfolding client_frame
  ws_read_frame-long g large small e =
      let b1 = le→ltb n 126 (omega arith) in
      let b2 = le→ltb n 65536 large in
      let start : Arrived s ((fin * 128 + opcode) ∷ (128 + 127) ∷ (length_field n ++ tail)) =
        (e.0 ∙ rw (b1, b2), e.1) in
      let h = headers-HasHeaders s fin opcode 127 _ start c.fin_lt c.opcode_lt (omega arith) in
      let z =
        read_size-long memory (behind_header s) n tail
          ((ws_read-Received s 2 e.1).left ∙ ap (drop 2) start.0, (ws_read-Received s 2 e.1).on)
          large small in
      let r =
        read_rest-masked memory fin opcode 127 (header_word s) k [] (masked k body ++ rest) z.sized
          h c.allowed (g z.sized.block (omega (arith, z.block))) (omega (arith, z.block))
          (g 1 (omega arith)) z.frame_size z.input c.key_IsBytes tt in
      record {
        ext = z.sized.length_ext;
        reads = after_length memory s fin opcode 127 0 _ _ _ tail e.1 h z r;
      }
