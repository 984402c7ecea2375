-- ===== src/Packet/Reading.antt =====
-- What `packet_read` makes of the frames that a client may send, at every size.
use mmo_backend.Base.{
  ℕ, ◌+◌, ◌-◌, ◌%◌, ◌^◌, ◌<◌, ◌≤◌, ◌≡◌, refl, ap, sym, ◌∙◌, leb, ◌==◌, if◌then◌else◌, true, Option,
  none, some, List, [], ◌∷◌, ◌++◌, length, take, drop, length-append, length-drop, Result, ok,
  fault, ◌>>=◌, ◌⊎◌, inl, inr, null_pointer, out_of_bounds, bytes32, word32-bytes32, u32, arith,
  subst, le→leb, dec_lt,
}
use mmo_backend.Socket.Copy.{copy_past, copy_prefix, copy_all}
use mmo_backend.Socket.{Memory, Socket, copy_from}
use mmo_backend.Socket.Stream.{Arrived}
use mmo_backend.WebSocket.Frame.{WsFrame, ws_length}
use mmo_backend.WebSocket.Protocol.{Key, client_frame}
use mmo_backend.WebSocket.Receiver.{ws_read_frame}
use mmo_backend.WebSocket.Reading.{
  IsGenerous, IsClientFrame, ReadsWhole, ws_read_frame-client_frame, ws_read_frame-negative_short,
  ws_read_frame-long,
}
use mmo_backend.Packet.{Packet, packet_read, packet_flatten, frame_packet, packet_size}

-- A frame of a payload: the fields that a packet is made of.
record HasPayload (f : WsFrame) (body : List ℕ) : Type 0 where
  size : ws_length f ≡ length body
  payload : f.payload ≡ some (body ++ 0 ∷ [])

-- Fewer than nine bytes are no packet: a copy out of them overruns.
frame_packet-short :
    (f : WsFrame) (body : List ℕ)
    → HasPayload f body
    → 0 < length body
    → length body < 9
    → frame_packet f ≡ fault out_of_bounds
unfolding frame_packet
frame_packet-short f [] h lo hi = absurd (omega arith)
frame_packet-short f (x ∷ xs) h lo hi =
    rw (h.size, h.payload)
      (elim (dec_lt (length block) 4) [
        | yes p ↦ rw (copy_past block 4 p)
        | no p ↦ rw (enough (omega arith), rest_past)
      ])
  where
    block : List ℕ
    block = xs ++ 0 ∷ []

    enough : 4 ≤ length block → copy_from (some block) 4 ≡ ok (take 4 block)
    enough p = rw (le→leb 4 (length block) p)

    rest_past :
        copy_from (some (drop 8 block)) (u32 (length (x ∷ xs) + 2 ^ 64 - packet_size))
        ≡ fault out_of_bounds
    rest_past =
        copy_past (drop 8 block) _ (omega (arith, length-drop 8 block, length-append xs (0 ∷ [])))

-- The bytes of a packet.
abbrev packet_bytes : ℕ → ℕ → List ℕ → List ℕ
packet_bytes opcode id content = opcode ∷ bytes32 id ++ bytes32 (length content) ++ content

frame_packet-packet_bytes :
    (f : WsFrame) (opcode id : ℕ) (content : List ℕ)
    → HasPayload f (packet_bytes opcode id content)
    → id < 2 ^ 32
    → length content < 2 ^ 31
    → frame_packet f
      ≡ ok (record {
        opcode = opcode;
        id = id;
        length = length content;
        payload = some (content ++ 0 ∷ []);
      })
unfolding frame_packet
frame_packet-packet_bytes f opcode id content h hid hlen = rw (
  h.size,
  h.payload,
  size,
  id_copy,
  copy_prefix content (0 ∷ []) (length content) refl,
  word32-bytes32 id hid,
)
  where
    size : u32 (length (packet_bytes opcode id content) + 2 ^ 64 - packet_size) ≡ length content
    size = omega arith

    id_copy :
        copy_from (some (drop 1 (packet_bytes opcode id content ++ 0 ∷ []))) 4 ≡ ok (bytes32 id)
    id_copy = copy_prefix (bytes32 id) (bytes32 (length content) ++ content ++ 0 ∷ []) 4 refl

module _ (memory : Memory) (s : Socket) (fin opcode : ℕ) (k : Key) (body rest : List ℕ)
    (c : IsClientFrame fin opcode k body) where
  whole_payload :
      {r : Result (Option WsFrame × Socket)} (w : ReadsWhole s fin opcode body rest r)
      → 0 < length body
      → HasPayload w.reads.frame body
  whole_payload w h = record { size = w.size; payload = w.reads.payload_eq ∙ present }
    where
      present : (if length body == 0 then none else some (body ++ 0 ∷ [])) ≡ some (body ++ 0 ∷ [])
      present = ground arith

  -- A frame that is not empty is handed on as a packet.
  read_whole :
      (w : ReadsWhole s fin opcode body rest (ws_read_frame memory s))
      → 0 < length body
      → packet_read memory s ≡ (frame_packet w.reads.frame >>= λ p. ok (some p, w.reads.socket))
  unfolding packet_read
  read_whole w h = rw w.reads.returns (ground (arith, w.reads.code_eq, w.code_lem))

  -- A masked frame without a payload is read as no packet, with small requests for memory
  -- granted, and is taken off the input.
  pub packet_read-empty :
      IsGenerous memory
      → length body ≡ 0
      → Arrived s (client_frame fin opcode k body ++ rest)
      → (s' : Socket) × (packet_read memory s ≡ ok (none, s')) × Arrived s' rest
  unfolding packet_read
  packet_read-empty g h e =
      let w = ws_read_frame-client_frame memory s fin opcode k body rest c g (omega arith) e in
      (
        w.reads.socket,
        rw w.reads.returns (ground (arith, w.reads.code_eq, w.code_lem)),
        w.reads.input,
      )

  -- A masked frame of one to eight bytes ends packet_read in an access out of bounds, with small
  -- requests for memory granted.
  pub packet_read-short :
      IsGenerous memory
      → 0 < length body
      → length body < 9
      → Arrived s (client_frame fin opcode k body ++ rest)
      → packet_read memory s ≡ fault out_of_bounds
  packet_read-short g lo hi e =
      let w = ws_read_frame-client_frame memory s fin opcode k body rest c g (omega arith) e in
      rw (read_whole w lo, frame_packet-short w.reads.frame body (whole_payload w lo) lo hi)

  -- A masked frame of 32768 bytes or more, fewer than 2^32, ends packet_read in a null pointer
  -- or an access out of bounds, with small requests for memory granted.
  pub packet_read-large :
      IsGenerous memory
      → 32767 < length body
      → length body < 2 ^ 32
      → Arrived s (client_frame fin opcode k body ++ rest)
      → (packet_read memory s ≡ fault null_pointer) ⊎ (packet_read memory s ≡ fault out_of_bounds)
  unfolding packet_read
  packet_read-large g lo hi e = elim (dec_lt (length body) 65536) [
    | yes p ↦ elim (ws_read_frame-negative_short memory s fin opcode k body rest c lo p e) [
      | inl q ↦ inl (rw q)
      | inr q ↦ inr (rw q)
    ]
    | no p ↦
        let w = ws_read_frame-long memory s fin opcode k body rest c g (omega arith) hi e in
        inl (
          rw w.reads.returns
            (unfold frame_packet in ground (arith, w.reads.code_eq, w.reads.payload_eq)))
  ]

-- A packet whose fields fit, with its content.
pub record IsPacket (p : Packet) (content : List ℕ) : Type 0 where
  pub opcode_lt : p.opcode < 256
  pub id_lt : p.id < 2 ^ 32
  pub payload_eq : p.payload ≡ some content
  pub length_eq : p.length ≡ length content
  pub content_lt : length content < 2 ^ 31

pub packet_flatten-packet_bytes :
    (p : Packet) (content : List ℕ)
    → IsPacket p content
    → packet_flatten p ≡ ok (packet_bytes p.opcode p.id content)
unfolding packet_flatten
packet_flatten-packet_bytes p content h =
    rw (h.payload_eq, h.length_eq, copy_all content, fits) (rw same_opcode)
  where
    fits : leb (packet_size + length content) (u32 (length content + packet_size)) ≡ true
    fits = le→leb _ _ (omega (arith, h.content_lt))

    same_opcode : p.opcode % 2 ^ 8 ≡ p.opcode
    same_opcode = omega (arith, h.opcode_lt)

-- The packet that is read, and the socket behind it.
pub record ReadsPacket (p : Packet) (content rest : List ℕ) (r : Result (Option Packet × Socket))
    : Type 0 where
  pub packet : Packet
  pub socket : Socket
  pub returns : r ≡ ok (some packet, socket)
  pub opcode_eq : packet.opcode ≡ p.opcode
  pub id_eq : packet.id ≡ p.id
  pub length_eq : packet.length ≡ p.length
  pub payload_eq : packet.payload ≡ some (content ++ 0 ∷ [])
  pub input : Arrived socket rest

-- A packet whose fields fit, with a content of fewer than 32759 bytes, that a client flattens
-- and sends in one masked frame that has arrived is read back, in whatever pieces it is read and
-- with small requests for memory granted: opcode, id and length, and the content with a zero
-- byte behind it; the input goes on behind the frame.
pub packet_read-packet_flatten :
    (memory : Memory) (s : Socket) (fin opcode : ℕ) (k : Key) (p : Packet)
    (content body rest : List ℕ)
    → IsGenerous memory
    → IsPacket p content
    → packet_flatten p ≡ ok body
    → IsClientFrame fin opcode k body
    → length content < 32759
    → Arrived s (client_frame fin opcode k body ++ rest)
    → ReadsPacket p content rest (packet_read memory s)
packet_read-packet_flatten memory s fin opcode k p content body rest g h flat c small e =
    let same : body ≡ packet_bytes p.opcode p.id content =
      ground (arith, flat, packet_flatten-packet_bytes p content h) in
    let size : length body ≡ packet_size + length content = omega (arith, ap length same) in
    let w = ws_read_frame-client_frame memory s fin opcode k body rest c g (omega arith) e in
    let present : 0 < length body = omega arith in
    let f = whole_payload memory s fin opcode k body rest c w present in
    record {
      packet = record {
        opcode = p.opcode;
        id = p.id;
        length = length content;
        payload = some (content ++ 0 ∷ []);
      };
      socket = w.reads.socket;
      returns = rw (
        read_whole memory s fin opcode k body rest c w present,
        frame_packet-packet_bytes w.reads.frame p.opcode p.id content
            (subst (HasPayload w.reads.frame) same f) h.id_lt h.content_lt,
      );
      opcode_eq = refl;
      id_eq = refl;
      length_eq = sym h.length_eq;
      payload_eq = refl;
      input = w.reads.input;
    }
