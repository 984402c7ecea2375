-- ===== src/Http/Bounds.antt =====
-- The bounds of the reader of lines, whatever a client sends.
use mmo_backend.Base.{
  Bool, ap, ℕ, zero, suc, ◌+◌, ◌-◌, ◌<◌, ◌≡◌, ◌⊎◌, inl, inr, refl, ◌∙◌, ◌==◌, true, false, ◌||◌,
  some, List, [], ◌∷◌, ◌++◌, length, take, drop, replicate, ok, fault, out_of_bounds, out_of_fuel,
  arith, Result, Option, length-append, length-replicate, length-take, length-drop, lt→ltb, le→ltb,
  Bool-cases, dec_lt, ◌>>=◌, if◌then◌else◌,
}
use mmo_backend.Receiver.{Peer, c_string}
use mmo_backend.Http.Reader.{
  BufferedReader, br_read, br_read_line, line_end, shift_line, found_line,
}
use mmo_backend.Http.Buffers.{
  EndsZero, EndsZero-append, EndsZero-zeros, EndsZero-some, IsReader, br_read-IsReader,
}

-- The search for the end of a line stays in the buffer.
record Found (buf : List ℕ) : Type 0 where
  at : ℕ
  found : line_end buf ≡ ok at
  bound : at < length buf

line_end-Found : (buf : List ℕ) → EndsZero buf → Found buf
unfolding line_end
line_end-Found [] h = absurd h
line_end-Found (b ∷ []) h = record { at = 0; found = rw h refl; bound = omega arith }
line_end-Found (b ∷ c ∷ buf) h =
    let rest = line_end-Found (c ∷ buf) h in
    elim (Bool-cases ((b == 0) || (b == b'\n'))) [
      | inl e ↦ record { at = 0; found = ground (arith, e); bound = omega arith }
      | inr e ↦ record {
        at = suc rest.at;
        found = ground (arith, e, rest.found);
        bound = omega (arith, rest.bound);
      }
    ]

shift_line-Fits :
    (buf : List ℕ) (i : ℕ)
    → suc i + 1 < length buf
    → (moved : List ℕ) × (shift_line buf (suc i) ≡ ok moved)
      × (length moved ≡ length buf)
      × EndsZero moved
unfolding shift_line
shift_line-Fits buf i l =
    let size = length buf - suc i - 2 in
    let moved = take size (drop (suc i + 1) buf) ++ drop size buf in
    (
      take (length buf - suc i) moved ++ replicate (suc i) 0,
      rw (lt→ltb (suc i + 1) (length buf) l) refl,
      omega (
        arith,
        length-append (take (length buf - suc i) moved) (replicate (suc i) 0),
        length-take (length buf - suc i) moved,
        length-append (take size (drop (suc i + 1) buf)) (drop size buf),
        length-take size (drop (suc i + 1) buf),
        length-drop (suc i + 1) buf,
        length-drop size buf,
        length-replicate {A = ℕ} (suc i) 0,
      ),
      EndsZero-append (take (length buf - suc i) moved) (replicate (suc i) 0)
          (EndsZero-zeros (suc i) (omega arith)),
    )

shift_line-full :
    (buf : List ℕ) (i : ℕ) → length buf ≡ i + 1 → shift_line buf i ≡ fault out_of_bounds
unfolding shift_line
shift_line-full buf i e = rw (le→ltb (i + 1) (length buf) (omega (arith, e))) refl

-- A reader comes, by looks for data while its buffer is empty, to the reader that it is behind them.
pub data Looks (br : BufferedReader) (p : Peer) : BufferedReader → Peer → Type 0 where
  here : Looks br p br p
  again :
      (c : BufferedReader) (q : Peer)
      → Looks br p c q
      → line_end c.buf ≡ ok 0
      → Looks br p (br_read c q 0).0 (br_read c q 0).1

-- Behind its looks for data, the reader's buffer is filled to its last byte by the line in it.
pub record IsFull (n : ℕ) (br : BufferedReader) (p : Peer) : Type 0 where
  pub reader : BufferedReader
  pub peer : Peer
  pub looks : Looks br p reader peer
  pub size : length reader.buf ≡ n
  pub line : ℕ
  pub found : line_end reader.buf ≡ ok line
  pub last_byte : line + 1 ≡ n

-- The line is the text up to the line's end or a zero byte in the buffer behind the looks for data, and
-- the reader is as it has to be.
pub record IsTaken (n : ℕ) (flag : Bool) (br : BufferedReader) (p : Peer) (line : List ℕ)
    (br' : BufferedReader) : Type 0 where
  pub reader : BufferedReader
  pub peer : Peer
  pub looks : Looks br p reader peer
  pub at : ℕ
  pub found : line_end reader.buf ≡ ok (suc at)
  pub line_eq : line ≡ c_string (take (at + 2) reader.buf)
  pub stays : IsReader n flag br'

-- A line was taken; or none came in time; or the buffer was full.
abbrev pub StaysIn :
    ℕ → Bool → BufferedReader → Peer → Result (Option (List ℕ) × BufferedReader × Peer) → Type 0
StaysIn n flag br p (ok (Option.none, br', p')) = ⊥
StaysIn n flag br p (ok (some line, br', p')) = IsTaken n flag br p line br'
StaysIn n flag br p (fault e) = (e ≡ out_of_fuel) ⊎ ((e ≡ out_of_bounds) × IsFull n br p)

module _ (n : ℕ) (flag : Bool) (start : BufferedReader) (first : Peer) where
  line_taken :
      (br : BufferedReader) (p : Peer) (i : ℕ)
      → IsReader n flag br
      → line_end br.buf ≡ ok (suc i)
      → suc i < n
      → Looks start first br p
      → StaysIn n flag start first
          (found_line br p (suc i) >>= λ (line, br', p'). ok (some line, br', p'))
  unfolding found_line
  line_taken br p i h found l looks = elim (dec_lt (suc i + 1) n) [
    | yes room ↦
        let (moved, shifted, size, last) = shift_line-Fits br.buf i (omega (arith, h.size)) in
        let r =
          br_read-IsReader n flag (record br { buf = moved }) p (length br.buf - suc i - 2)
            (omega (arith, h.size))
            (record { size = size ∙ h.size; last = last; flag_eq = h.flag_eq }) in
        rw shifted (record {
          reader = br;
          peer = p;
          looks = looks;
          at = i;
          found = found;
          line_eq = ap (λ (k : ℕ). c_string (take k br.buf)) (omega arith);
          stays = r;
        })
    | no full ↦ rw (shift_line-full br.buf (suc i) (omega (arith, h.size))) (
        inr (
          refl,
          record {
            reader = br;
            peer = p;
            looks = looks;
            size = h.size;
            line = suc i;
            found = found;
            last_byte = omega arith;
          },
        ))
  ]

  line_done :
      (fuel : ℕ) (br : BufferedReader) (p : Peer)
      → IsReader n flag br
      → Looks start first br p
      → (line_end br.buf ≡ ok 0
          → StaysIn n flag start first (br_read_line fuel (br_read br p 0).0 (br_read br p 0).1))
      → (i : ℕ) → line_end br.buf ≡ ok i
      → i < n
      → StaysIn n flag start first
          (elim i as (λ i. Result (Option (List ℕ) × BufferedReader × Peer)) [
            | zero ↦ br_read_line fuel (br_read br p 0).0 (br_read br p 0).1
            | suc i ↦
                if suc i == length br.buf
                then ok (Option.none, record br { too_long = true }, p)
                else (found_line br p (suc i) >>= λ (line, br', p'). ok (some line, br', p'))
          ])
  line_done fuel br p h looks retry zero found l = retry found
  line_done fuel br p h looks retry (suc i) found l =
      let inside : (suc i == length br.buf) ≡ false = ground (arith, h.size, l) in
      rw inside (line_taken br p i h found l looks)

  stays_in :
      (fuel : ℕ) (br : BufferedReader) (p : Peer)
      → IsReader n flag br
      → Looks start first br p
      → StaysIn n flag start first (br_read_line fuel br p)
  unfolding br_read_line
  stays_in zero br p h looks = inl refl
  stays_in (suc fuel) br p h looks =
      let next =
        br_read-IsReader n flag br p 0 (omega (arith, h.size, EndsZero-some br.buf h.last)) h in
      let f = line_end-Found br.buf h.last in
      rw f.found (
        line_done fuel br p h looks
          (λ e. stays_in fuel (br_read br p 0).0 (br_read br p 0).1 next (again br p looks e)) f.at
          f.found (omega (arith, f.bound, h.size)))

-- Whatever a client sends and however it arrives, a reader whose buffer ends in a zero byte
-- looks for data until its buffer is not empty, and then gives the text in it up to a line's end
-- or a zero byte, without leaving the buffer, which still has its size and a zero byte at its
-- end; unless no data comes in time, or that text fills that buffer to its last byte, which is
-- an access out of bounds. The line is never reported as too long.
pub br_read_line-StaysIn :
    (n : ℕ) (flag : Bool) (fuel : ℕ) (br : BufferedReader) (p : Peer)
    → IsReader n flag br
    → StaysIn n flag br p (br_read_line fuel br p)
br_read_line-StaysIn n flag fuel br p h = stays_in n flag br p fuel br p h here
