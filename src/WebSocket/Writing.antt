-- ===== src/WebSocket/Writing.antt =====
-- What the server's frames are on the wire.
use mmo_backend.Base.{
  ℕ, ◌*◌, ◌/◌, ◌%◌, ◌^◌, ◌<◌, ◌≤◌, ◌≡◌, refl, ap, ◌∙◌, ltb, ◌==◌, if◌then◌else◌, false, some, List,
  [], ◌∷◌, ◌++◌, length, take, drop, Result, ok, ◌>>=◌, htonl, htons, bytes16, word16, word32,
  arith, subst, lt→ltb, le→ltb, Bool-cases, inl, inr, ap₂, bytes64, dec_lt,
}
use mmo_backend.Socket.{Memory, Socket, ws_write, copy_from}
use mmo_backend.Socket.Copy.{copy_all}
use mmo_backend.Socket.Stream.{IsOpen, Sent, Sent-nil, Sent-append, Sent-IsOpen, ws_write-Sent}
use mmo_backend.WebSocket.Frame.{WsFrame, ws_transcribe_headers, ws_bin_frame}
use mmo_backend.WebSocket.Headers.{ws_transcribe_headers-sum}
use mmo_backend.WebSocket.Sender.{ws_write_frame}
use mmo_backend.WebSocket.Protocol.{server_frame, length_field}

-- The extended length of a frame, and the number of bytes behind it.
abbrev ext_bytes : WsFrame → List ℕ
ext_bytes f =
    if f.length7 == 126 then take 2 f.length_ext else if f.length7 == 127 then f.length_ext else []

abbrev data_length : WsFrame → ℕ
data_length f =
    if f.length7 == 126
    then htons (word16 f.length_ext)
    else if f.length7 == 127
    then htonl (word32 f.length_ext)
    else f.length7

abbrev header_bytes : WsFrame → List ℕ
header_bytes f = bytes16 (ws_transcribe_headers f)

-- The socket once `bytes` went out on it, as the result of a call.
pub record Writes (s : Socket) (bytes : List ℕ) (r : Result Socket) : Type 0 where
  pub after : Socket
  pub returns : r ≡ ok after
  pub sent : Sent s bytes after

module _ (s : Socket) (f : WsFrame) (o : IsOpen s) where
  abbrev s1 : Socket
  s1 = ws_write s (header_bytes f)

  abbrev s2 : Socket
  s2 =
      if f.length7 == 126
      then ws_write s1 (take 2 f.length_ext)
      else if f.length7 == 127
      then ws_write s1 f.length_ext
      else s1

  sent1 : Sent s (header_bytes f) s1
  sent1 = ws_write-Sent s (header_bytes f) o

  sent2 : Sent s1 (ext_bytes f) s2
  sent2 = elim (Bool-cases (f.length7 == 126)) [
    | inl e ↦ rw e (ws_write-Sent s1 (take 2 f.length_ext) (Sent-IsOpen sent1 o))
    | inr e ↦ elim (Bool-cases (f.length7 == 127)) [
      | inl e' ↦ rw (e, e') (ws_write-Sent s1 f.length_ext (Sent-IsOpen sent1 o))
      | inr e' ↦ rw (e, e') (Sent-nil s1)
    ]
  ]

  -- An unmasked frame is its header, its extended length and its payload.
  pub ws_write_frame-Writes :
      (body : List ℕ)
      → f.mask ≡ 0
      → copy_from f.payload (data_length f) ≡ ok body
      → Writes s (header_bytes f ++ ext_bytes f ++ body) (ws_write_frame s f)
  unfolding ws_write_frame
  ws_write_frame-Writes body m e =
      let before = Sent-append sent1 sent2 in
      record {
        after = ws_write s2 body;
        returns = rw (e, m);
        sent = Sent-append before (ws_write-Sent s2 body (Sent-IsOpen before o));
      }

module _ (memory : Memory) (body : List ℕ) where
  abbrev n : ℕ
  n = length body

  -- The binary frame of a whole block, with its header and extended length for each size.
  abbrev bin_frame : ℕ → List ℕ → WsFrame
  bin_frame code ext = record {
    fin = 1;
    rsv1 = 0;
    rsv2 = 0;
    rsv3 = 0;
    opcode = 2;
    mask = 0;
    length7 = code;
    key = word32 (memory.junk 4);
    length_ext = ext;
    payload = some body;
  }

  bin_header :
      (code : ℕ) (ext : List ℕ) → code < 128 → header_bytes (bin_frame code ext) ≡ 130 ∷ code ∷ []
  bin_header code ext h =
      let sum = ws_transcribe_headers-sum (bin_frame code ext) (record {
        fin = omega arith;
        rsv1 = omega arith;
        rsv2 = omega arith;
        rsv3 = omega arith;
        opcode = omega arith;
        mask = omega arith;
        length7 = h;
      }) in
      rw sum (ap₂ (λ (a b : ℕ). a ∷ b ∷ []) (omega arith) (omega arith))

  bin_frame-short : n < 126 → ws_bin_frame memory (some body) n ≡ ok (bin_frame n (memory.junk 8))
  unfolding ws_bin_frame
  bin_frame-short h = rw (copy_all body, lt→ltb n 126 h)

  abbrev medium_ext : List ℕ
  medium_ext = bytes16 (htons n) ++ drop 2 (memory.junk 8)

  bin_frame-medium :
      125 < n → n < 32767 → ws_bin_frame memory (some body) n ≡ ok (bin_frame 126 medium_ext)
  unfolding ws_bin_frame
  bin_frame-medium l h = rw (copy_all body, le→ltb n 126 l, lt→ltb n 32767 h)

  abbrev long_ext : List ℕ
  long_ext = bytes64 (htonl n)

  bin_frame-long : 32766 < n → ws_bin_frame memory (some body) n ≡ ok (bin_frame 127 long_ext)
  unfolding ws_bin_frame
  bin_frame-long l =
      let not_short : 126 ≤ n = omega arith in
      rw (copy_all body, le→ltb n 126 not_short, le→ltb n 32767 l)

  overlong_field : 32766 < n → n < 2 ^ 32 → long_ext ≡ length_field (n * 2 ^ 32)
  overlong_field l h = rw (big 126 (omega arith), big 65536 (omega arith)) (ground arith)
    where
      big : (b : ℕ) → b ≤ 65536 → ltb (n * 2 ^ 32) b ≡ false
      big b p = le→ltb (n * 2 ^ 32) b (omega arith)

  module _ (s : Socket) (o : IsOpen s) where
    -- One frame made and written.
    bin_Writes :
        (code : ℕ) (ext bytes : List ℕ)
        → ws_bin_frame memory (some body) n ≡ ok (bin_frame code ext)
        → code < 128
        → data_length (bin_frame code ext) ≡ n
        → ext_bytes (bin_frame code ext) ≡ bytes
        → Writes s
            (130 ∷ code ∷ bytes ++ body)
            (ws_bin_frame memory (some body) n >>= ws_write_frame s)
    bin_Writes code ext bytes made small size e =
        let w =
          ws_write_frame-Writes s (bin_frame code ext) o body refl
            (ap (copy_from (some body)) size ∙ copy_all body) in
        record {
          after = w.after;
          returns = rw made w.returns;
          sent =
              subst (λ (z : List ℕ). Sent s z w.after)
                (ap₂ (λ (x y : List ℕ). x ++ y ++ body) (bin_header code ext small) e) w.sent;
        }

    -- The binary frame of a block of fewer than 32767 bytes is written to an open socket as the
    -- unmasked frame of RFC 6455.
    pub ws_write_frame-server_frame :
        n < 32767
        → Writes s (server_frame 1 2 body) (ws_bin_frame memory (some body) n >>= ws_write_frame s)
    unfolding server_frame
    ws_write_frame-server_frame h = elim (dec_lt n 126) [
      | yes p ↦ rw (lt→ltb n 126 p) (
          bin_Writes n (memory.junk 8) [] (bin_frame-short p) (omega arith) (ground arith)
            (ground arith))
      | no p ↦
          let l : 125 < n = omega arith in
          let w : n < 65536 = omega arith in
          rw (le→ltb n 126 l, lt→ltb n 65536 w)
            (bin_Writes 126 medium_ext (n / 256 % 256 ∷ n % 256 ∷ []) (bin_frame-medium l h)
              (omega arith) (omega arith)
              (ap₂ (λ (a b : ℕ). a ∷ b ∷ []) (omega arith) (omega arith)))
    ]

    -- The binary frame of a block of 32767 bytes or more, fewer than 2^32, is written to an open
    -- socket with a length field that says 2^32 times the length of the payload behind it.
    pub ws_write_frame-overlong :
        32766 < n
        → n < 2 ^ 32
        → Writes s
            (130 ∷ 127 ∷ length_field (n * 2 ^ 32) ++ body)
            (ws_bin_frame memory (some body) n >>= ws_write_frame s)
    ws_write_frame-overlong l h =
        bin_Writes 127 long_ext (length_field (n * 2 ^ 32)) (bin_frame-long l) (omega arith)
          (omega arith) (overlong_field l h)
