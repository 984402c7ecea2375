-- ===== src/Tests/Fixtures.antt =====
-- Inputs for the tests: memory that grants what fits, a socket of a client, a masking key.
use mmo_backend.Base.{
  ℕ, ◌^◌, ◌≡◌, true, ltb, replicate, le→ltb, Bool, ◌&&◌, Bool-cases, inl, inr, length-replicate,
  List, [], ◌∷◌, arith,
}
use mmo_backend.Socket.{Memory, Socket}
use mmo_backend.WebSocket.Protocol.{Key, IsBytes}
use mmo_backend.WebSocket.Reading.{IsGenerous}

abbrev pub plain_memory : Memory
plain_memory = record {
  junk = λ n. replicate n 0;
  length-junk = λ n. length-replicate n 0;
  grants = λ n. ltb n (2 ^ 63);
  grants_bound = λ n h. le→ltb n (2 ^ 63) h;
}

pub plain_memory-IsGenerous : IsGenerous plain_memory
plain_memory-IsGenerous n h = ground arith

-- Writes take up to three bytes, reads give up to four.
abbrev pub client : List ℕ → Socket
client input = record {
  accepts = λ i. 3;
  writes = 0;
  out = [];
  chunks = λ i. 4;
  reads = 0;
  input = input;
}

abbrev pub test_key : Key
test_key = record { k0 = 17; k1 = 34; k2 = 251; k3 = 68 }

pub zeros-IsBytes : (n : ℕ) → IsBytes (replicate n 0)
zeros-IsBytes ℕ.zero = tt
zeros-IsBytes (ℕ.suc n) = (omega arith, zeros-IsBytes n)

abbrev pub all_bytes : List ℕ → Bool
all_bytes [] = true
all_bytes (b ∷ bytes) = ltb b 256 && all_bytes bytes

-- Bytes are recognised by a test.
pub all_bytes-IsBytes : (bytes : List ℕ) → all_bytes bytes ≡ true → IsBytes bytes
all_bytes-IsBytes [] h = tt
all_bytes-IsBytes (b ∷ bytes) h = elim (Bool-cases (ltb b 256)) [
  | inl e ↦ (ground (arith, e), all_bytes-IsBytes bytes (ground (arith, e)))
  | inr e ↦ absurd (ground (arith, e))
]
