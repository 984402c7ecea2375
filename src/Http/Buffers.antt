-- ===== src/Http/Buffers.antt =====
-- The buffer of a reader, which keeps its size and its last byte.
use mmo_backend.Base.{
  Bool, ℕ, zero, suc, ◌+◌, ◌-◌, ◌≤◌, ◌<◌, ◌≡◌, refl, ap, false, List, [], ◌∷◌, ◌++◌, length, take,
  drop, replicate, arith, length-append, length-replicate, length-take, length-drop,
}
use mmo_backend.Receiver.{Peer, read_socket}
use mmo_backend.Receiver.Arrivals.{read_socket-Prefix}
use mmo_backend.Http.Reader.{BufferedReader, br_init, br_read, write_at}

-- The last byte is zero.
abbrev pub EndsZero : List ℕ → Type 0
EndsZero [] = ⊥
EndsZero (b ∷ []) = b ≡ 0
EndsZero (b ∷ c ∷ buf) = EndsZero (c ∷ buf)

pub EndsZero-append : (xs ys : List ℕ) → EndsZero ys → EndsZero (xs ++ ys)
EndsZero-append [] ys h = h
EndsZero-append (x ∷ []) [] h = absurd h
EndsZero-append (x ∷ []) (y ∷ ys) h = h
EndsZero-append (x ∷ x' ∷ xs) ys h = EndsZero-append (x' ∷ xs) ys h

pub EndsZero-drop : (n : ℕ) (buf : List ℕ) → n < length buf → EndsZero buf → EndsZero (drop n buf)
EndsZero-drop zero buf l h = h
EndsZero-drop (suc n) [] l h = absurd h
EndsZero-drop (suc n) (b ∷ []) l h = absurd (omega arith)
EndsZero-drop (suc n) (b ∷ c ∷ buf) l h = EndsZero-drop n (c ∷ buf) (omega arith) h

pub EndsZero-zeros : (n : ℕ) → 0 < n → EndsZero (replicate n 0)
EndsZero-zeros zero h = absurd (omega arith)
EndsZero-zeros (suc zero) h = refl
EndsZero-zeros (suc (suc n)) h = EndsZero-zeros (suc n) (omega arith)

pub EndsZero-some : (buf : List ℕ) → EndsZero buf → 0 < length buf
EndsZero-some [] h = absurd h
EndsZero-some (b ∷ buf) h = omega arith

read_short : (p : Peer) (n : ℕ) → length (read_socket p n).0 ≤ n
read_short p n =
    let r = read_socket-Prefix p n in
    omega (arith, ap length r.read_eq, length-take r.count p.input, r.count_bound)

-- A reader with its size, whose last byte is zero.
pub record IsReader (n : ℕ) (flag : Bool) (br : BufferedReader) : Type 0 where
  pub size : length br.buf ≡ n
  pub last : EndsZero br.buf
  pub flag_eq : br.too_long ≡ flag

pub br_init-IsReader : (n : ℕ) → 0 < n → IsReader n false (br_init n)
unfolding br_init
br_init-IsReader n h = record {
  size = length-replicate n 0;
  last = EndsZero-zeros n h;
  flag_eq = refl;
}

-- A reader into which bytes were written that fit.
write_at-IsReader :
    (n : ℕ) (flag : Bool) (br : BufferedReader) (start : ℕ) (got : List ℕ)
    → start + length got < n
    → IsReader n flag br
    → IsReader n flag (record br { buf = write_at br.buf start got })
write_at-IsReader n flag br start got l h = record {
  size = omega (
    arith,
    h.size,
    length-append (take start br.buf ++ got) (drop (start + length got) br.buf),
    length-append (take start br.buf) got,
    length-take start br.buf,
    length-drop (start + length got) br.buf,
  );
  last =
      EndsZero-append (take start br.buf ++ got) (drop (start + length got) br.buf)
        (EndsZero-drop (start + length got) br.buf (omega (arith, h.size)) h.last);
  flag_eq = h.flag_eq;
}

pub br_read-IsReader :
    (n : ℕ) (flag : Bool) (br : BufferedReader) (p : Peer) (start : ℕ)
    → start < n
    → IsReader n flag br
    → IsReader n flag (br_read br p start).0
unfolding br_read
br_read-IsReader n flag br p start l h =
    write_at-IsReader n flag br start (read_socket p (length br.buf - start - 1)).0
      (omega (arith, h.size, read_short p (length br.buf - start - 1))) h
