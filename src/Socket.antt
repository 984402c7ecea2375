-- ===== src/Socket.antt =====
-- `ws_write` and `ws_read` of backend/networking/web-socket.c, and what they rest on. The kernel
-- and the allocator are outside the program: `Socket` holds what the kernel does at each call,
-- `Memory` what a fresh block holds and which requests are granted.
pub mod Stream
pub mod Copy
use mmo_backend.Base.{
  ℕ, zero, suc, ◌+◌, ◌-◌, ◌*◌, ◌/◌, ◌%◌, ◌^◌, ◌≤◌, ◌≡◌, min, bit_or, bit_xor, ◌==◌, ltb, leb,
  if◌then◌else◌, Bool, true, false, ◌&&◌, ◌||◌, not, Option, none, some, List, [], ◌∷◌, ◌++◌,
  length, take, drop, Result, ok, fault, ◌>>=◌, ◌>>◌, guard, or_fault, null_pointer, out_of_bounds,
  bytes16, bytes32, bytes64, word16, word32, htons, htonl, u16, u32, u64,
}

pub record Memory : Type 0 where
  -- What a fresh block of `n` bytes holds.
  pub junk : ℕ → List ℕ
  pub length-junk : (n : ℕ) → length (junk n) ≡ n
  -- Whether a request of `n` bytes is granted; none above PTRDIFF_MAX is.
  pub grants : ℕ → Bool
  pub grants_bound : (n : ℕ) → 2 ^ 63 ≤ n → grants n ≡ false

-- The `i`th call of `write` takes up to `accepts i` bytes, and the `i`th call of `read` gives up
-- to `chunks i` of the bytes that the client sends, which is none when the next ones have not arrived
-- yet. The descriptor does not block, so a call that moves no byte ends the loop.
pub record Socket : Type 0 where
  pub accepts : ℕ → ℕ
  pub writes : ℕ
  pub out : List ℕ
  pub chunks : ℕ → ℕ
  pub reads : ℕ
  pub input : List ℕ

-- Each round but the last moves a byte, so one round more than there are bytes is enough.
write_loop : ℕ → Socket → List ℕ → Socket
write_loop zero s bytes = s
write_loop (suc fuel) s bytes =
    let wrote = min (s.accepts s.writes) (length bytes) in
    let s' : Socket = record s { writes = s.writes + 1; out = s.out ++ take wrote bytes } in
    elim (wrote == 0) [ true ↦ s' | false ↦ write_loop fuel s' (drop wrote bytes) ]

unfoldable pub ws_write : Socket → List ℕ → Socket
unfolding write_loop
ws_write s bytes = write_loop (suc (length bytes)) s bytes

read_loop : ℕ → Socket → ℕ → List ℕ → List ℕ × Socket
read_loop zero s left got = (got, s)
read_loop (suc fuel) s left got =
    let amount = min (s.chunks s.reads) (min left (length s.input)) in
    let s' : Socket = record s { reads = s.reads + 1; input = drop amount s.input } in
    elim (amount == 0) [
      | true ↦ (got, s')
      | false ↦ read_loop fuel s' (left - amount) (got ++ take amount s.input)
    ]

-- The bytes that arrive in the buffer, `len` of them at most.
unfoldable pub ws_read : Socket → ℕ → List ℕ × Socket
unfolding read_loop
ws_read s len = read_loop (suc len) s len []

-- The buffer after a read: what arrived, and behind it what was there.
abbrev pub overlay : List ℕ → List ℕ → List ℕ
overlay old got = got ++ drop (length got) old

-- A copy of `n` bytes out of a block.
abbrev pub copy_from : Option (List ℕ) → ℕ → Result (List ℕ)
copy_from block zero = ok []
copy_from none (suc n) = fault null_pointer
copy_from (some block) (suc n) =
    if leb (suc n) (length block) then ok (take (suc n) block) else fault out_of_bounds
