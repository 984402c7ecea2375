-- ===== src/Http/Reader.antt =====
-- The reader of lines of backend/networking/buffered-reader.c.
use mmo_backend.Base.{
  ℕ, zero, suc, ◌+◌, ◌-◌, ◌==◌, ltb, if◌then◌else◌, Bool, true, false, ◌||◌, Option, none, some,
  List, [], ◌∷◌, ◌++◌, length, take, drop, replicate, Result, ok, fault, ◌>>=◌, ◌>>◌, guard,
  out_of_bounds, out_of_fuel,
}
use mmo_backend.Receiver.{Peer, read_socket, c_string}

-- `buf_size` is the length of the buffer.
pub record BufferedReader : Type 0 where
  pub buf : List ℕ
  pub too_long : Bool

unfoldable pub br_init : ℕ → BufferedReader
br_init buf_size = record { buf = replicate buf_size 0; too_long = false }

-- The buffer with bytes at a place, as far as they are within it.
abbrev pub write_at : List ℕ → ℕ → List ℕ → List ℕ
write_at buf start bytes = take start buf ++ bytes ++ drop (start + length bytes) buf

-- The loop is that of `read_socket`, and the last byte of the buffer is left alone.
unfoldable pub br_read : BufferedReader → Peer → ℕ → BufferedReader × Peer
br_read br p start =
    let size = length br.buf - start - 1 in
    let (got, p') = read_socket p size in (record br { buf = write_at br.buf start got }, p')

-- The search for the end of the line, which looks at a byte before it tests the index.
unfoldable pub line_end : List ℕ → Result ℕ
line_end [] = fault out_of_bounds
line_end (b ∷ buf) =
    let rest = line_end buf in if (b == 0) || (b == b'\n') then ok 0 else (rest >>= λ i. ok (suc i))

-- A line of `i` bytes and its end leave the buffer. The second size is negative, and as a `size_t` huge, for
-- the last index.
unfoldable pub shift_line : List ℕ → ℕ → Result (List ℕ)
shift_line buf i = do
  guard (ltb (i + 1) (length buf)) out_of_bounds
  let size = length buf - i - 2
  let moved = take size (drop (i + 1) buf) ++ drop size buf
  ok (take (length buf - i) moved ++ replicate i 0)

-- The line that was found; the room that it leaves is filled from the socket.
unfoldable pub found_line : BufferedReader → Peer → ℕ → Result (List ℕ × BufferedReader × Peer)
found_line br p i = do
  buf ← shift_line br.buf i
  let (br', p') = br_read (record br { buf = buf }) p (length br.buf - i - 2)
  ok (c_string (take (i + 1) br.buf), br', p')

-- `none` is a null pointer, for a line that is too long. Fuel bounds how often the reader looks for data.
unfoldable pub br_read_line :
    ℕ → BufferedReader → Peer → Result (Option (List ℕ) × BufferedReader × Peer)
br_read_line zero br p = fault out_of_fuel
br_read_line (suc fuel) br p = line_end br.buf >>= λ i. elim i [
  | zero ↦ (let (br', p') = br_read br p 0 in br_read_line fuel br' p')
  | suc i ↦
      if suc i == length br.buf
      then ok (none, record br { too_long = true }, p)
      else (found_line br p (suc i) >>= λ (line, br', p'). ok (some line, br', p'))
]
