-- ===== src/Socket/Stream.antt =====
-- What the loops of `ws_write` and `ws_read` come to.
use mmo_backend.Base.{
  ℕ, zero, suc, ◌+◌, ◌-◌, ◌<◌, ◌≡◌, refl, ap, sym, ◌∙◌, min, ◌==◌, true, false, List, [], ◌∷◌, ◌++◌,
  length, take, drop, take_all, take-take, drop-drop, length-drop, take-append-drop, append_assoc,
  append-nil, Bool-cases, inl, inr, arith, subst,
}
use mmo_backend.Socket.{Socket, ws_write, ws_read, write_loop, read_loop}

-- Every call of `write` takes something.
abbrev pub IsOpen : Socket → Type 0
IsOpen s = (i : ℕ) → 0 < s.accepts i

-- The socket after `bytes` went out: nothing else about its streams has changed.
pub record Sent (s : Socket) (bytes : List ℕ) (t : Socket) : Type 0 where
  pub out : t.out ≡ s.out ++ bytes
  pub accepts : t.accepts ≡ s.accepts
  pub input : t.input ≡ s.input
  pub chunks : t.chunks ≡ s.chunks

pub Sent-IsOpen : {s t : Socket} {bytes : List ℕ} → Sent s bytes t → IsOpen s → IsOpen t
Sent-IsOpen sent open_s i = rw (sent.accepts) (open_s i)

pub Sent-nil : (s : Socket) → Sent s [] s
Sent-nil s = record { out = sym (append-nil s.out); accepts = refl; input = refl; chunks = refl }

pub Sent-append :
    {s t u : Socket} {xs ys : List ℕ} → Sent s xs t → Sent t ys u → Sent s (xs ++ ys) u
Sent-append {s} {xs} {ys} p q = record {
  out = q.out ∙ ap (λ z. z ++ ys) p.out ∙ append_assoc s.out xs ys;
  accepts = q.accepts ∙ p.accepts;
  input = q.input ∙ p.input;
  chunks = q.chunks ∙ p.chunks;
}

write_loop-Sent :
    (fuel : ℕ) (s : Socket) (bytes : List ℕ)
    → IsOpen s
    → length bytes < fuel
    → Sent s bytes (write_loop fuel s bytes)
unfolding write_loop
write_loop-Sent zero s bytes o h = absurd (omega arith)
write_loop-Sent (suc fuel) s bytes o h = elim (Bool-cases (wrote == 0)) [
  | inl done ↦
      rw (done, write_loop)
        (record {
          out = ap (◌++◌ s.out) (take_all wrote bytes (ground (arith, o s.writes)));
          accepts = refl;
          input = refl;
          chunks = refl;
        })
  | inr more ↦
      let rest =
        write_loop-Sent fuel s' (drop wrote bytes) o (ground (arith, length-drop wrote bytes)) in
      rw (more, write_loop)
        (subst (λ (z : List ℕ). Sent s z (write_loop fuel s' (drop wrote bytes)))
          (take-append-drop wrote bytes) (Sent-append first rest))
]
  where
    wrote : ℕ
    wrote = min (s.accepts s.writes) (length bytes)

    s' : Socket
    s' = record s { writes = s.writes + 1; out = s.out ++ take wrote bytes }

    first : Sent s (take wrote bytes) s'
    first = record { out = refl; accepts = refl; input = refl; chunks = refl }

-- On a socket whose calls of write all take something, ws_write puts out exactly the bytes, in
-- order, and leaves the input alone.
pub ws_write-Sent : (s : Socket) (bytes : List ℕ) → IsOpen s → Sent s bytes (ws_write s bytes)
unfolding ws_write
ws_write-Sent s bytes o = write_loop-Sent (suc (length bytes)) s bytes o (omega arith)

-- Whenever the server reads, the bytes that it reads have arrived.
abbrev pub IsPrompt : Socket → Type 0
IsPrompt s = (i : ℕ) → 0 < s.chunks i

-- The client sends these bytes and no others, and they are there when the server reads them.
abbrev pub Arrived : Socket → List ℕ → Type 0
Arrived s bytes = (s.input ≡ bytes) × IsPrompt s

-- The result of a read, and the socket after it.
pub record Received (s : Socket) (n : ℕ) (r : List ℕ × Socket) : Type 0 where
  pub got : r.0 ≡ take n s.input
  pub left : r.1.input ≡ drop n s.input
  pub accepts : r.1.accepts ≡ s.accepts
  pub out : r.1.out ≡ s.out
  pub on : IsPrompt r.1

take_nothing : (n : ℕ) (xs : List ℕ) → min n (length xs) ≡ 0 → take n xs ≡ []
take_nothing zero xs h = refl
take_nothing (suc n) [] h = refl
take_nothing (suc n) (x ∷ xs) h = absurd (omega arith)

drop_nothing : (n : ℕ) (xs : List ℕ) → min n (length xs) ≡ 0 → drop n xs ≡ xs
drop_nothing zero xs h = refl
drop_nothing (suc n) [] h = refl
drop_nothing (suc n) (x ∷ xs) h = absurd (omega arith)

read_loop-Received :
    (fuel : ℕ) (s : Socket) (n : ℕ) (got : List ℕ)
    → IsPrompt s
    → n < fuel
    → let r = read_loop fuel s n got in
      (r.0 ≡ got ++ take n s.input)
      × (r.1.input ≡ drop n s.input)
      × (r.1.accepts ≡ s.accepts)
      × (r.1.out ≡ s.out)
      × (r.1.chunks ≡ s.chunks)
unfolding read_loop
read_loop-Received zero s n got o h = absurd (omega arith)
read_loop-Received (suc fuel) s n got o h = elim (Bool-cases (amount == 0)) [
  | inl done ↦
      let none_left : min n (length s.input) ≡ 0 = ground (arith, o s.reads) in
      let idle : amount ≡ 0 = ground arith in
      rw
        (
          stops done,
          take_nothing n s.input none_left,
          append-nil,
          drop_nothing n s.input none_left,
          idle,
        )
        (refl, refl, refl, refl, refl)
  | inr more ↦
      let rest =
        read_loop-Received fuel s' (n - amount) (got ++ take amount s.input) o (ground arith) in
      let whole : amount + (n - amount) ≡ n = ground arith in
      rw (goes more) (
        rest.0
            ∙ append_assoc got (take amount s.input) (take (n - amount) (drop amount s.input))
            ∙ ap (◌++◌ got)
                (take-take amount (n - amount) s.input ∙ ap (λ (k : ℕ). take k s.input) whole),
        rest.1 ∙ drop-drop amount (n - amount) s.input ∙ ap (λ (k : ℕ). drop k s.input) whole,
        rest.2,
        rest.3,
        rest.4,
      )
]
  where
    amount : ℕ
    amount = min (s.chunks s.reads) (min n (length s.input))

    s' : Socket
    s' = record s { reads = s.reads + 1; input = drop amount s.input }

    stops : (amount == 0) ≡ true → read_loop (suc fuel) s n got ≡ (got, s')
    stops e = ground arith

    goes :
        (amount == 0) ≡ false
        → read_loop (suc fuel) s n got ≡ read_loop fuel s' (n - amount) (got ++ take amount s.input)
    goes e = ground arith

-- When the bytes have arrived, in whatever pieces they are read, ws_read gives the next bytes of the input up to the number asked
-- for, takes them off the input, and leaves the output alone.
pub ws_read-Received : (s : Socket) (n : ℕ) → IsPrompt s → Received s n (ws_read s n)
unfolding ws_read
ws_read-Received s n o =
    let r = read_loop-Received (suc n) s n [] o (omega arith) in
    record { got = r.0; left = r.1; accepts = r.2; out = r.3; on = λ i. rw r.4 (o i) }
