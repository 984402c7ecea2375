-- ===== src/Http/Lines.antt =====
-- What `br_read_line` makes of a buffer that holds lines.
use mmo_backend.Base.{
  take-append-drop, ap₂, ℕ, zero, suc, ◌+◌, ◌-◌, ◌≤◌, ◌<◌, ◌≡◌, ◌≢◌, refl, sym, ap, ◌∙◌, ◌==◌, min,
  false, some, List, [], ◌∷◌, ◌++◌, length, take, drop, replicate, ok, fault, out_of_bounds, arith,
  append_assoc, append-nil, length-append, length-replicate, lt→ltb, le→ltb,
}
use mmo_backend.Receiver.{Peer, read_socket, read_socket_loop, c_string}
use mmo_backend.Http.Reader.{
  BufferedReader, br_read, br_read_line, line_end, shift_line, found_line, write_at,
}

abbrev pub zeros : ℕ → List ℕ
zeros k = replicate k 0

-- The bytes of a line before its end.
abbrev pub IsText : List ℕ → Type 0
IsText [] = Unit {0}
IsText (b ∷ bytes) = (b ≢ 0) × (b ≢ 10) × IsText bytes

line_end-text : (l rest : List ℕ) → IsText l → line_end (l ++ 10 ∷ rest) ≡ ok (length l)
unfolding line_end
line_end-text [] rest h = refl
line_end-text (b ∷ l) rest (h, h', t) = ground (arith, line_end-text l rest t)

c_string-text : (l : List ℕ) → IsText l → c_string (l ++ 10 ∷ []) ≡ l ++ 10 ∷ []
c_string-text [] h = refl
c_string-text (zero ∷ l) (h, h', t) = absurd (h refl)
c_string-text (suc b ∷ l) (h, h', t) = ap (◌∷◌ (suc b)) (c_string-text l t)

zeros-append : (a b c : ℕ) → c ≡ a + b → zeros a ++ zeros b ≡ zeros c
zeros-append zero b c e = ap (λ n. zeros n) (omega arith)
zeros-append (suc a) b zero e = absurd (omega arith)
zeros-append (suc a) b (suc c) e = ap (◌∷◌ 0) (zeros-append a b c (omega arith))

take-zeros : (j k : ℕ) → j ≤ k → take j (zeros k) ≡ zeros j
take-zeros zero k h = refl
take-zeros (suc j) zero h = absurd (omega arith)
take-zeros (suc j) (suc k) h = ap (◌∷◌ 0) (take-zeros j k (omega arith))

pub drop-zeros : (j k c : ℕ) → k ≡ j + c → drop j (zeros k) ≡ zeros c
drop-zeros zero k c e = ap (λ n. zeros n) (omega arith)
drop-zeros (suc j) zero c e = absurd (omega arith)
drop-zeros (suc j) (suc k) c e = drop-zeros j k c (omega arith)

-- The content of a buffer, and the zeros behind it.
take_into :
    (xs : List ℕ) (n j k : ℕ) → n ≡ length xs + j → j ≤ k → take n (xs ++ zeros k) ≡ xs ++ zeros j
take_into [] n j k e h = ap (λ m. take m (zeros k)) (omega arith) ∙ take-zeros j k h
take_into (x ∷ xs) zero j k e h = absurd (omega arith)
take_into (x ∷ xs) (suc n) j k e h = ap (◌∷◌ x) (take_into xs n j k (omega arith) h)

drop_into :
    (xs : List ℕ) (n k c : ℕ)
    → n + c ≡ length xs + k
    → length xs ≤ n
    → drop n (xs ++ zeros k) ≡ zeros c
drop_into [] n k c e h = drop-zeros n k c (omega arith)
drop_into (x ∷ xs) zero k c e h = absurd (omega arith)
drop_into (x ∷ xs) (suc n) k c e h = drop_into xs n k c (omega arith) (omega arith)

drop-line : (l rest : List ℕ) (n : ℕ) → n ≡ length l + 1 → drop n (l ++ 10 ∷ rest) ≡ rest
drop-line [] rest n e = let e' : n ≡ 1 = omega arith in ap (λ m. drop m (10 ∷ rest)) e'
drop-line (x ∷ l) rest zero e = absurd (omega arith)
drop-line (x ∷ l) rest (suc n) e = drop-line l rest n (omega arith)

take-line : (l rest : List ℕ) (n : ℕ) → n ≡ length l + 1 → take n (l ++ 10 ∷ rest) ≡ l ++ 10 ∷ []
take-line [] rest n e = let e' : n ≡ 1 = omega arith in ap (λ m. take m (10 ∷ rest)) e'
take-line (x ∷ l) rest zero e = absurd (omega arith)
take-line (x ∷ l) rest (suc n) e = ap (◌∷◌ x) (take-line l rest n (omega arith))

abbrev buffer : List ℕ → List ℕ → ℕ → List ℕ
buffer l rest k = l ++ 10 ∷ (rest ++ zeros k)

length-buffer :
    (l rest : List ℕ) (k : ℕ) → length (buffer l rest k) ≡ length l + 1 + (length rest + k)
length-buffer l rest k = omega (
  arith,
  length-append l (10 ∷ (rest ++ zeros k)),
  length-append rest (zeros k),
  length-replicate {A = ℕ} k 0,
)

join_zeros :
    (rest : List ℕ) (a b c : ℕ) → c ≡ a + b → (rest ++ zeros a) ++ zeros b ≡ rest ++ zeros c
join_zeros rest a b c e =
    append_assoc rest (zeros a) (zeros b) ∙ ap (◌++◌ rest) (zeros-append a b c e)

moved_content :
    (l rest : List ℕ) (k n : ℕ)
    → n + 1 ≡ length rest + k
    → length l + 2 ≤ k
    → take n (drop (length l + 1) (buffer l rest k)) ++ drop n (buffer l rest k)
      ≡ rest ++ zeros (k + length l + 1)
moved_content l rest k n e h =
    ap₂ (λ x y. x ++ y)
      (ap (take n) (drop-line l (rest ++ zeros k) (length l + 1) refl)
        ∙ take_into rest n (k - 1) k (omega arith) (omega arith))
      (ap (drop n) (sym (append_assoc l (10 ∷ rest) (zeros k)))
        ∙ drop_into (l ++ 10 ∷ rest) n k (length l + 2) (omega (arith, length-append l (10 ∷ rest)))
            (omega (arith, length-append l (10 ∷ rest))))
    ∙ join_zeros rest (k - 1) (length l + 2) (k + length l + 1) (omega arith)

-- A line leaves a buffer that has room for it twice.
shift_line-content :
    (l rest : List ℕ) (k : ℕ)
    → length l + 2 ≤ k
    → shift_line (buffer l rest k) (length l) ≡ ok (rest ++ zeros (k + length l + 1))
unfolding shift_line
shift_line-content l rest k h =
    let n = length (buffer l rest k) in
    let size = length-buffer l rest k in
    rw (lt→ltb (length l + 1) n (omega (arith, size))) (
      ap (λ b. ok (take (n - length l) b ++ zeros (length l)))
        (moved_content l rest k (n - length l - 2) (omega (arith, size)) h)
      ∙ ap (λ b. ok (b ++ zeros (length l)))
          (take_into rest (n - length l) (k + 1) (k + length l + 1) (omega (arith, size))
            (omega arith))
      ∙ ap ok (join_zeros rest (k + 1) (length l) (k + length l + 1) (omega arith)))

read_none :
    (p : Peer) (n : ℕ)
    → p.input ≡ []
    → read_socket p n ≡ ([], record p { reads = p.reads + 1; input = [] })
unfolding read_socket
read_none p n e =
    rw (nothing, read_socket_loop)
      (ap (λ (i : List ℕ). ([], record p { reads = p.reads + 1; input = i }))
        (ap (λ m. drop m p.input) nothing ∙ e))
  where
    nothing : min (p.arrived p.reads) (min n (length p.input)) ≡ 0
    nothing = omega (arith, ap (λ (i : List ℕ). length i) e)

write_nothing : (buf : List ℕ) (start : ℕ) → write_at buf start [] ≡ buf
write_nothing buf start =
    let e : start + 0 ≡ start = omega arith in
    ap (λ n. (take start buf ++ []) ++ drop n buf) e
    ∙ ap (λ z. z ++ drop start buf) (append-nil (take start buf))
    ∙ take-append-drop start buf

-- A peer that sends nothing more.
abbrev pub quiet : Peer → Peer
quiet p = record p { reads = p.reads + 1; input = [] }

br_read-quiet :
    (br : BufferedReader) (p : Peer) (start : ℕ) → p.input ≡ [] → br_read br p start ≡ (br, quiet p)
unfolding br_read
br_read-quiet br p start e =
    let n = length br.buf - start - 1 in
    rw (read_none p n e)
      (ap (λ (b : List ℕ). (record br { buf = b }, quiet p)) (write_nothing br.buf start))

abbrev pub lines_in : List ℕ → ℕ → BufferedReader
lines_in content k = record { buf = content ++ zeros k; too_long = false }

found_line-text :
    (l rest : List ℕ) (k : ℕ) (p : Peer)
    → IsText l
    → length l + 2 ≤ k
    → p.input ≡ []
    → found_line (record { buf = buffer l rest k; too_long = false }) p (length l)
      ≡ ok (l ++ 10 ∷ [], lines_in rest (k + length l + 1), quiet p)
unfolding found_line
found_line-text l rest k p t h e =
    rw
      (
        shift_line-content l rest k h,
        br_read-quiet (lines_in rest (k + length l + 1)) p (length (buffer l rest k) - length l - 2)
            e,
        take-line l (rest ++ zeros k) (length l + 1) refl,
        c_string-text l t,
      )
      refl

pub br_read_line-text :
    (fuel : ℕ) (l rest : List ℕ) (k : ℕ) (p : Peer)
    → IsText l
    → 0 < length l
    → length l + 2 ≤ k
    → p.input ≡ []
    → br_read_line (suc fuel) (record { buf = buffer l rest k; too_long = false }) p
      ≡ ok (some (l ++ 10 ∷ []), lines_in rest (k + length l + 1), quiet p)
unfolding br_read_line
br_read_line-text fuel [] rest k p t h r e = absurd (omega arith)
br_read_line-text fuel (b ∷ l) rest k p t h r e =
    rw (line_end-text (b ∷ l) (rest ++ zeros k) t, not_full, found_line-text (b ∷ l) rest k p t r e)
      refl
  where
    not_full : (length (b ∷ l) == length (buffer (b ∷ l) rest k)) ≡ false
    not_full = ground (arith, length-buffer (b ∷ l) rest k)

line_end-full : (l : List ℕ) → IsText l → line_end (l ++ 0 ∷ []) ≡ ok (length l)
unfolding line_end
line_end-full [] h = refl
line_end-full (b ∷ l) (h, h', t) = ground (arith, line_end-full l t)

shift_line-full : (l : List ℕ) → shift_line (l ++ 0 ∷ []) (length l) ≡ fault out_of_bounds
unfolding shift_line
shift_line-full l =
    rw (le→ltb (length l + 1) (length (l ++ 0 ∷ [])) (omega (arith, length-append l (0 ∷ [])))) refl

-- When the text in the buffer fills it up to the last byte, which is zero, and has no line end,
-- br_read_line moves bytes out of bounds, and the line is not reported as too long.
pub br_read_line-full :
    (fuel : ℕ) (l : List ℕ) (p : Peer)
    → IsText l
    → 0 < length l
    → br_read_line (suc fuel) (record { buf = l ++ 0 ∷ []; too_long = false }) p
      ≡ fault out_of_bounds
unfolding br_read_line found_line
br_read_line-full fuel [] p t h = absurd (omega arith)
br_read_line-full fuel (b ∷ l) p t h =
    rw (line_end-full (b ∷ l) t, not_full, shift_line-full (b ∷ l)) refl
  where
    not_full : (length (b ∷ l) == length (b ∷ (l ++ 0 ∷ []))) ≡ false
    not_full = ground (arith, length-append l (0 ∷ []))
