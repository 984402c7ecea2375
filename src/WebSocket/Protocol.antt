-- ===== src/WebSocket/Protocol.antt =====
-- The wire format of RFC 6455, apart from the code: the frames that a client sends, which are
-- masked, and those that a server sends, which are not.
use mmo_backend.Base.{
  ℕ, ◌+◌, ◌*◌, ◌/◌, ◌%◌, ◌^◌, ◌<◌, ltb, if◌then◌else◌, List, [], ◌∷◌, ◌++◌, length, bit_xor,
}

abbrev pub IsBytes : List ℕ → Type 0
IsBytes [] = Unit {0}
IsBytes (b ∷ bytes) = (b < 256) × IsBytes bytes

-- A number as two or four bytes, highest first.
abbrev pub big_endian16 : ℕ → List ℕ
big_endian16 n = n / 256 % 256 ∷ n % 256 ∷ []

abbrev pub big_endian32 : ℕ → List ℕ
big_endian32 n = n / 16777216 % 256 ∷ n / 65536 % 256 ∷ n / 256 % 256 ∷ n % 256 ∷ []

-- The 7-bit length, and the extended length behind it.
abbrev pub length_code : ℕ → ℕ
length_code n = if ltb n 126 then n else if ltb n 65536 then 126 else 127

abbrev pub length_field : ℕ → List ℕ
length_field n =
    if ltb n 126
    then []
    else if ltb n 65536
    then big_endian16 n
    else big_endian32 (n / 2 ^ 32) ++ big_endian32 n

-- The four bytes of a masking key, in the order in which they are sent.
pub record Key : Type 0 where
  pub k0 : ℕ
  pub k1 : ℕ
  pub k2 : ℕ
  pub k3 : ℕ

abbrev pub key_bytes : Key → List ℕ
key_bytes k = k.k0 ∷ k.k1 ∷ k.k2 ∷ k.k3 ∷ []

-- Each byte is joined with the next byte of the key, round and round.
abbrev pub masked_by : ℕ → ℕ → ℕ → ℕ → List ℕ → List ℕ
masked_by a b c d [] = []
masked_by a b c d (x ∷ xs) = bit_xor x a ∷ masked_by b c d a xs

abbrev pub masked : Key → List ℕ → List ℕ
masked k = masked_by k.k0 k.k1 k.k2 k.k3

unfoldable pub client_frame : ℕ → ℕ → Key → List ℕ → List ℕ
client_frame fin opcode k body =
    (fin * 128 + opcode) ∷ (128 + length_code (length body)) ∷ length_field (length body)
    ++ (key_bytes k ++ masked k body)

unfoldable pub server_frame : ℕ → ℕ → List ℕ → List ℕ
server_frame fin opcode body =
    (fin * 128 + opcode) ∷ length_code (length body) ∷ length_field (length body) ++ body
