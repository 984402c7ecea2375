-- ===== src/WebSocket/Bodies.antt =====
-- What `ws_read_frame` makes of what stands behind the length: the key, and the masked payload.
use mmo_backend.Base.{
  ℕ, ◌+◌, ◌/◌, ◌%◌, ◌^◌, ◌<◌, ◌≤◌, ◌≡◌, refl, ap, sym, ◌∙◌, ◌==◌, if◌then◌else◌, true, false,
  Option, none, some, List, [], ◌∷◌, ◌++◌, length, take, drop, take_prefix, drop_prefix, drop_all,
  length-take, append-nil, Result, ok, fault, null_pointer, out_of_bounds, htonl, word32, arith,
  Bool-cases, leb, ◌⊎◌, inl, inr, le→leb,
}
use mmo_backend.Socket.{Memory, Socket, ws_read, overlay}
use mmo_backend.Socket.Stream.{Arrived, Received, ws_read-Received}
use mmo_backend.WebSocket.Frame.{WsFrame, frame_bytes}
use mmo_backend.WebSocket.Receiver.{Sized, read_body, read_rest, is_reserved}
use mmo_backend.WebSocket.Protocol.{IsBytes, Key, key_bytes, masked}
use mmo_backend.WebSocket.Masking.{key_word, ws_apply_key-masked, length-masked}

-- The body behind a masking key.
pub record ReadsBody (s : Socket) (body rest : List ℕ) (r : Result (Option (List ℕ) × Socket))
    : Type 0 where
  pub socket : Socket
  pub returns : r ≡ ok (if length body == 0 then none else some (body ++ 0 ∷ []), socket)
  pub input : Arrived socket rest
  pub accepts : socket.accepts ≡ s.accepts
  pub out : socket.out ≡ s.out

pub read_body-masked :
    (memory : Memory) (s : Socket) (k : Key) (body rest : List ℕ)
    → memory.grants (length body + 1) ≡ true
    → IsBytes (key_bytes k)
    → IsBytes body
    → Arrived s (masked k body ++ rest)
    → ReadsBody s body rest (read_body memory s (key_word k) (length body))
unfolding read_body
read_body-masked memory s k [] rest g hk hb e = record {
  socket = s;
  returns = refl;
  input = e;
  accepts = refl;
  out = refl;
}
read_body-masked memory s k (x ∷ xs) rest g hk hb e = record {
  socket = (ws_read s (length body)).1;
  returns = rw (nonempty, g, buffer, ws_apply_key-masked k body (0 ∷ []) hk hb);
  input =
      (r.left ∙ ap (drop (length body)) e.0 ∙ drop_prefix _ (masked k body) rest same_length, r.on);
  accepts = r.accepts;
  out = r.out;
}
  where
    body : List ℕ
    body = x ∷ xs

    nonempty : (length body == 0) ≡ false
    nonempty = ground arith

    r : Received s (length body) (ws_read s (length body))
    r = ws_read-Received s (length body) e.1

    same_length : length body ≡ length (masked k body)
    same_length = sym (length-masked k body)

    got : (ws_read s (length body)).0 ≡ masked k body
    got = r.got ∙ ap (take (length body)) e.0 ∙ take_prefix _ (masked k body) rest same_length

    junk : List ℕ
    junk = take (length body) (memory.junk (length body + 1))

    none_left : drop (length (masked k body)) junk ≡ []
    none_left =
        drop_all (length (masked k body)) junk
          (omega (arith, length-take (length body) (memory.junk (length body + 1)), same_length))

    buffer : overlay junk (ws_read s (length body)).0 ++ 0 ∷ [] ≡ masked k body ++ 0 ∷ []
    buffer =
        ap (λ (z : List ℕ). overlay junk z ++ 0 ∷ []) got
        ∙ ap (λ (z : List ℕ). masked k body ++ z ++ 0 ∷ []) none_left
        ∙ ap (λ (z : List ℕ). z ++ 0 ∷ []) (append-nil (masked k body))

-- The frame that is read: its fields, its payload with a zero byte behind it (none if it is
-- empty), and the socket, from which the frame is gone.
pub record ReadsFrame (s : Socket) (fin opcode code : ℕ) (payload : Option (List ℕ))
    (ext rest : List ℕ) (r : Result (Option WsFrame × Socket)) : Type 0 where
  pub frame : WsFrame
  pub socket : Socket
  pub returns : r ≡ ok (some frame, socket)
  pub fin_eq : frame.fin ≡ fin
  pub opcode_eq : frame.opcode ≡ opcode
  pub mask_eq : frame.mask ≡ 1
  pub code_eq : frame.length7 ≡ code
  pub payload_eq : frame.payload ≡ payload
  pub ext_eq : frame.length_ext ≡ ext
  pub input : Arrived socket rest
  pub accepts : socket.accepts ≡ s.accepts
  pub out : socket.out ≡ s.out

-- What the header word says, for a masked frame.
pub record HasHeaders (fin opcode code headers : ℕ) : Type 0 where
  pub code_eq : headers % 128 ≡ code
  pub mask_eq : headers / 2 ^ 7 % 2 ≡ 1
  pub opcode_eq : headers / 2 ^ 8 % 16 ≡ opcode
  pub fin_eq : headers / 2 ^ 15 % 2 ≡ fin

pub read_rest-masked :
    (memory : Memory) (fin opcode code headers : ℕ) (k : Key) (body rest : List ℕ) (sized : Sized)
    → HasHeaders fin opcode code headers
    → is_reserved opcode ≡ false
    → memory.grants sized.block ≡ true
    → 24 ≤ sized.block
    → memory.grants (length body + 1) ≡ true
    → sized.frame_size ≡ length body
    → Arrived sized.socket (key_bytes k ++ masked k body ++ rest)
    → IsBytes (key_bytes k)
    → IsBytes body
    → ReadsFrame sized.socket fin opcode code
        (if length body == 0 then none else some (body ++ 0 ∷ []))
        sized.length_ext
        rest
        (read_rest memory headers sized)
unfolding read_rest
read_rest-masked memory fin opcode code headers k body rest sized h r g l g' e i hk hb = record {
  frame = record {
    fin = headers / 2 ^ 15 % 2;
    rsv1 = headers / 2 ^ 14 % 2;
    rsv2 = headers / 2 ^ 13 % 2;
    rsv3 = headers / 2 ^ 12 % 2;
    opcode = opcode;
    mask = 1;
    length7 = headers % 128;
    key = key_word k;
    length_ext = sized.length_ext;
    payload = if length body == 0 then none else some (body ++ 0 ∷ []);
  };
  socket = read.socket;
  returns = rw (h.mask_eq, key, g, le→leb 24 sized.block l, e, read.returns, h.opcode_eq, r);
  fin_eq = h.fin_eq;
  opcode_eq = refl;
  mask_eq = refl;
  code_eq = h.code_eq;
  payload_eq = refl;
  ext_eq = refl;
  input = read.input;
  accepts = read.accepts ∙ got.accepts;
  out = read.out ∙ got.out;
}
  where
    got : Received sized.socket 4 (ws_read sized.socket 4)
    got = ws_read-Received sized.socket 4 i.1

    key : htonl (word32 (overlay (memory.junk 4) (ws_read sized.socket 4).0)) ≡ key_word k
    key = rw (got.got ∙ ap (take 4) i.0)

    read :
        ReadsBody
          (ws_read sized.socket 4).1
          body
          rest
          (read_body memory (ws_read sized.socket 4).1 (key_word k) (length body))
    read =
        read_body-masked memory (ws_read sized.socket 4).1 k body rest g' hk hb
          (got.left ∙ ap (drop 4) i.0, got.on)

-- A block that is refused is a null pointer, and one below the size of a frame is overrun.
pub read_rest-refused :
    (memory : Memory) (headers : ℕ) (sized : Sized)
    → memory.grants sized.block ≡ false
    → read_rest memory headers sized ≡ fault null_pointer
unfolding read_rest
read_rest-refused memory headers sized h = rw h

pub read_rest-small :
    (memory : Memory) (headers : ℕ) (sized : Sized)
    → sized.block < frame_bytes
    → (read_rest memory headers sized ≡ fault null_pointer)
      ⊎ (read_rest memory headers sized ≡ fault out_of_bounds)
unfolding read_rest
read_rest-small memory headers sized h = elim (Bool-cases (memory.grants sized.block)) [
  | inl granted ↦ inr (rw (granted, lt→leb_not frame_bytes sized.block h))
  | inr refused ↦ inl (read_rest-refused memory headers sized refused)
]
  where
    lt→leb_not : (a b : ℕ) → b < a → leb a b ≡ false
    lt→leb_not a b p = ground arith
