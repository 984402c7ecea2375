-- ===== src/Base/Words.antt =====
-- Machine words as native numbers, on a little-endian machine: the bytes of a word, and the
-- byte order of the network.
use Prim.Native.Nat.{ℕ, ◌+◌, ◌*◌, ◌/◌, ◌%◌, ◌^◌, ◌<◌}
use mathlib.Core.Path.{◌≡◌}
use mathlib.Core.List.{List, [], ◌∷◌}
use native.Mathlib.Omega.{arith}

abbrev pub u8 : ℕ → ℕ
u8 n = n % 2 ^ 8

abbrev pub u16 : ℕ → ℕ
u16 n = n % 2 ^ 16

abbrev pub u32 : ℕ → ℕ
u32 n = n % 2 ^ 32

abbrev pub u64 : ℕ → ℕ
u64 n = n % 2 ^ 64

-- The bytes of a word in memory, lowest first.
abbrev pub bytes16 : ℕ → List ℕ
bytes16 n = n % 256 ∷ n / 256 % 256 ∷ []

abbrev pub bytes32 : ℕ → List ℕ
bytes32 n = n % 256 ∷ n / 256 % 256 ∷ n / 65536 % 256 ∷ n / 16777216 % 256 ∷ []

abbrev pub bytes64 : ℕ → List ℕ
bytes64 n =
    n % 256 ∷ n / 256 % 256 ∷ n / 65536 % 256 ∷ n / 16777216 % 256 ∷ bytes32 (n / 4294967296)

-- The word that the first bytes of a block hold; a block that is too short reads as 0 there.
abbrev pub word8 : List ℕ → ℕ
word8 [] = 0
word8 (a ∷ _) = a

abbrev pub word16 : List ℕ → ℕ
word16 [] = 0
word16 (a ∷ r) = a + 256 * word8 r

abbrev pub word24 : List ℕ → ℕ
word24 [] = 0
word24 (a ∷ r) = a + 256 * word16 r

abbrev pub word32 : List ℕ → ℕ
word32 [] = 0
word32 (a ∷ r) = a + 256 * word24 r

-- `htons` and `ntohs`: the two bytes of a 16-bit word change places.
abbrev pub htons : ℕ → ℕ
htons n = n % 256 * 256 + n / 256 % 256

-- `htonl` and `ntohl`, on the low 32 bits of their argument.
abbrev pub htonl : ℕ → ℕ
htonl n = n % 256 * 16777216 + n / 256 % 256 * 65536 + n / 65536 % 256 * 256 + n / 16777216 % 256

pub htons-htons : (n : ℕ) → n < 2 ^ 16 → htons (htons n) ≡ n
htons-htons n h = omega arith

pub htonl-htonl : (n : ℕ) → n < 2 ^ 32 → htonl (htonl n) ≡ n
htonl-htonl n h = omega arith

pub word16-bytes16 : (n : ℕ) → n < 2 ^ 16 → word16 (bytes16 n) ≡ n
word16-bytes16 n h = omega arith

pub word32-bytes32 : (n : ℕ) → n < 2 ^ 32 → word32 (bytes32 n) ≡ n
word32-bytes32 n h = omega arith
