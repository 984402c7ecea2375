-- ===== src/Receiver/Arrivals.antt =====
-- What `read_socket` reads.
use mmo_backend.Base.{
  subst, dec_le, Bool-cases, inl, inr, append-nil, ℕ, zero, suc, ◌+◌, ◌-◌, ◌≤◌, ◌<◌, ◌≡◌, refl, ap,
  ◌∙◌, sym, min, ◌==◌, List, [], ◌++◌, length, take, drop, arith, take-take, drop-drop,
  append_assoc, length-drop, take_all, drop_all,
}
use mmo_backend.Receiver.{Peer, read_socket, read_socket_loop}

-- However much a call finds, it finds something.
abbrev pub IsPrompt : Peer → Type 0
IsPrompt p = (i : ℕ) → 0 < p.arrived i

-- What was read is the first bytes of the input, and these are gone.
pub record Prefix (p : Peer) (got : List ℕ) (n : ℕ) (r : List ℕ × Peer) : Type 0 where
  pub count : ℕ
  pub count_bound : count ≤ n
  pub read_eq : r.0 ≡ got ++ take count p.input
  pub input_eq : r.1.input ≡ drop count p.input
  pub arrived_eq : r.1.arrived ≡ p.arrived
  pub whole : IsPrompt p → min n (length p.input) ≤ count

abbrev after : Peer → ℕ → Peer
after p m = record p { reads = p.reads + 1; input = drop m p.input }

Prefix-stop :
    (p : Peer) (got : List ℕ) (n m : ℕ)
    → m ≡ min (p.arrived p.reads) (min n (length p.input))
    → m ≡ 0
    → Prefix p got n (got, after p m)
Prefix-stop p got n m e z = record {
  count = 0;
  count_bound = omega arith;
  read_eq = sym (append-nil got);
  input_eq = ap (λ k. drop k p.input) z;
  arrived_eq = refl;
  whole = λ prompt. omega (arith, prompt p.reads);
}

Prefix-step :
    (p : Peer) (got : List ℕ) (n m : ℕ) (r : List ℕ × Peer)
    → m ≤ n
    → m ≤ length p.input
    → Prefix (after p m) (got ++ take m p.input) (n - m) r
    → Prefix p got n r
Prefix-step p got n m r a b rest = record {
  count = m + rest.count;
  count_bound = omega (arith, rest.count_bound);
  read_eq =
      rest.read_eq
      ∙ append_assoc got (take m p.input) (take rest.count (drop m p.input))
      ∙ ap (◌++◌ got) (take-take m rest.count p.input);
  input_eq = rest.input_eq ∙ drop-drop m rest.count p.input;
  arrived_eq = rest.arrived_eq;
  whole = λ prompt. omega (arith, rest.whole prompt, length-drop m p.input);
}

read_socket_loop-Prefix :
    (fuel : ℕ) (p : Peer) (left : ℕ) (got : List ℕ)
    → left < fuel
    → Prefix p got left (read_socket_loop fuel p left got)
unfolding read_socket_loop
read_socket_loop-Prefix zero p left got h = absurd (omega arith)
read_socket_loop-Prefix (suc fuel) p left got h =
    let m = min (p.arrived p.reads) (min left (length p.input)) in
    elim (Bool-cases (m == 0)) [
      | inl done ↦
          rw (done, read_socket_loop) (Prefix-stop p got left m refl (ground (arith, done)))
      | inr more ↦
          rw (more, read_socket_loop)
            (Prefix-step p got left m _ (omega arith) (omega arith) (
              read_socket_loop-Prefix fuel (after p m) (left - m) (got ++ take m p.input)
                (ground (arith, more))))
    ]

pub read_socket-Prefix : (p : Peer) (n : ℕ) → Prefix p [] n (read_socket p n)
unfolding read_socket
read_socket-Prefix p n = read_socket_loop-Prefix (suc n) p n [] (omega arith)

take_enough :
    (count n : ℕ) (xs : List ℕ)
    → count ≤ n
    → min n (length xs) ≤ count
    → (take count xs ≡ take n xs) × (drop count xs ≡ drop n xs)
take_enough count n xs a b = elim (dec_le n (length xs)) [
  | yes h ↦ (let e : count ≡ n = omega arith in (ap (λ k. take k xs) e, ap (λ k. drop k xs) e))
  | no h ↦ (
    take_all count xs (omega arith) ∙ sym (take_all n xs (omega arith)),
    drop_all count xs (omega arith) ∙ sym (drop_all n xs (omega arith)),
  )
]

-- A prompt peer's input is read up to the size.
pub read_socket-IsPrompt :
    (p : Peer) (n : ℕ)
    → IsPrompt p
    → ((read_socket p n).0 ≡ take n p.input)
      × ((read_socket p n).1.input ≡ drop n p.input)
      × IsPrompt (read_socket p n).1
read_socket-IsPrompt p n prompt =
    let r = read_socket-Prefix p n in
    let (t, d) = take_enough r.count n p.input r.count_bound (r.whole prompt) in
    (
      r.read_eq ∙ t,
      r.input_eq ∙ d,
      λ i. subst (λ (f : ℕ → ℕ). 0 < f i) (sym r.arrived_eq) (prompt i),
    )
