-- ===== src/WebSocket/Headers.antt =====
-- The two header bytes: the bit fields of a frame put together, and taken apart.
use mmo_backend.Base.{
  ℕ, ◌+◌, ◌*◌, ◌^◌, ◌<◌, ◌≡◌, refl, ◌==◌, true, passes_below, passes_below-at, ==_iff, bit_or, u16,
}
use mmo_backend.WebSocket.Frame.{WsFrame, ws_transcribe_headers}

abbrev fields_or : ℕ → ℕ → ℕ → ℕ → ℕ → ℕ → ℕ → ℕ
fields_or fin r1 r2 r3 opcode mask len = u16 (
    bit_or
      (bit_or
        (bit_or
          (bit_or (bit_or (bit_or (bit_or 0 (fin * 2 ^ 7)) (r1 * 2 ^ 6)) (r2 * 2 ^ 5)) (r3 * 2 ^ 4))
          opcode)
        (mask * 2 ^ 15))
      (len * 2 ^ 8))

abbrev fields_sum : ℕ → ℕ → ℕ → ℕ → ℕ → ℕ → ℕ → ℕ
fields_sum fin r1 r2 r3 opcode mask len =
    fin * 128 + r1 * 64 + r2 * 32 + r3 * 16 + opcode + 256 * (mask * 128 + len)

fields_table :
    passes_below 2 (λ a. passes_below 2 (λ b. passes_below 2 (λ c. passes_below 2 (λ d.
      passes_below 16 (λ e.
        passes_below 2
          (λ f. passes_below 128 (λ g. fields_or a b c d e f g == fields_sum a b c d e f g)))))))
    ≡ true
unfolding passes_below
fields_table = refl

-- The fields of a frame fit their widths.
pub record HasFields (f : WsFrame) : Type 0 where
  pub fin : f.fin < 2
  pub rsv1 : f.rsv1 < 2
  pub rsv2 : f.rsv2 < 2
  pub rsv3 : f.rsv3 < 2
  pub opcode : f.opcode < 16
  pub mask : f.mask < 2
  pub length7 : f.length7 < 128

-- When the fields of a frame fit their bits, the header word holds each at its place: the flags
-- and the opcode in the first byte on the wire, the mask bit and the length in the second.
pub ws_transcribe_headers-sum :
    (f : WsFrame)
    → HasFields f
    → ws_transcribe_headers f
      ≡ f.fin * 128
        + f.rsv1 * 64
        + f.rsv2 * 32
        + f.rsv3 * 16
        + f.opcode
        + 256 * (f.mask * 128 + f.length7)
unfolding ws_transcribe_headers
ws_transcribe_headers-sum f h = (==_iff _ _).0 (
    passes_below-at 128 _ f.length7
      (passes_below-at 2 _ f.mask
        (passes_below-at 16 _ f.opcode
          (passes_below-at 2 _ f.rsv3
            (passes_below-at 2 _ f.rsv2
              (passes_below-at 2 _ f.rsv1 (passes_below-at 2 _ f.fin fields_table h.fin) h.rsv1)
              h.rsv2)
            h.rsv3)
          h.opcode)
        h.mask)
      h.length7)
