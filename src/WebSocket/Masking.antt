-- ===== src/WebSocket/Masking.antt =====
-- `ws_apply_key` takes the mask of RFC 6455 off.
use mmo_backend.Base.{
  ℕ, suc, ◌+◌, ◌-◌, ◌%◌, ◌<◌, ◌≡◌, refl, ap, ◌∙◌, List, [], ◌∷◌, ◌++◌, length, ok, bit_xor_twice,
  htonl, word32, arith,
}
use mmo_backend.WebSocket.Receiver.{key_byte, apply_key_loop, ws_apply_key}
use mmo_backend.WebSocket.Protocol.{IsBytes, Key, key_bytes, masked, masked_by}

-- The byte of the key that index `i` is joined with.
abbrev key_at : ℕ → ℕ → ℕ
key_at key i = key_byte key (3 - i % 4)

key_at-lt : (key i : ℕ) → key_at key i < 256
unfolding key_byte
key_at-lt key i = omega arith

key_at_period : (key i : ℕ) → key_at key (i + 4) ≡ key_at key i
key_at_period key i = ap (λ (j : ℕ). key_byte key (3 - j)) (omega arith)

length-masked_by : (a b c d : ℕ) (xs : List ℕ) → length (masked_by a b c d xs) ≡ length xs
length-masked_by a b c d [] = refl
length-masked_by a b c d (x ∷ xs) = ap suc (length-masked_by b c d a xs)

pub length-masked : (k : Key) (xs : List ℕ) → length (masked k xs) ≡ length xs
length-masked k xs = length-masked_by k.k0 k.k1 k.k2 k.k3 xs

apply_key_loop-masked :
    (key i a b c d : ℕ) (body rest : List ℕ)
    → IsBytes body
    → key_at key i ≡ a
    → key_at key (i + 1) ≡ b
    → key_at key (i + 2) ≡ c
    → key_at key (i + 3) ≡ d
    → apply_key_loop key (length body) i (masked_by a b c d body ++ rest) ≡ ok (body ++ rest)
unfolding apply_key_loop
apply_key_loop-masked key i a b c d [] rest h ea eb ec ed = refl
apply_key_loop-masked key i a b c d (x ∷ body) rest h ea eb ec ed =
    let ih =
      apply_key_loop-masked key (i + 1) b c d a body rest h.1 eb (rw (shift 1) ec) (rw (shift 2) ed)
        (rw (shift 3) (key_at_period key i ∙ ea)) in
    rw (ih, ea) (rw (bit_xor_twice x a h.0 (rw (← ea) (key_at-lt key i))))
  where
    shift : (j : ℕ) → i + 1 + j ≡ i + (j + 1)
    shift j = omega arith

-- The key as `ws_read_frame` makes it of the four bytes on the wire.
abbrev pub key_word : Key → ℕ
key_word k = htonl (word32 (key_bytes k))

-- Applied to bytes that were masked with a key of RFC 6455, with that key as ws_read_frame reads
-- it, ws_apply_key gives the bytes back, and leaves what follows them alone.
pub ws_apply_key-masked :
    (k : Key) (body rest : List ℕ)
    → IsBytes (key_bytes k)
    → IsBytes body
    → ws_apply_key (key_word k) (length body) (masked k body ++ rest) ≡ ok (body ++ rest)
unfolding ws_apply_key key_byte
ws_apply_key-masked k body rest hk h =
    apply_key_loop-masked (key_word k) 0 k.k0 k.k1 k.k2 k.k3 body rest h (omega arith) (omega arith)
      (omega arith) (omega arith)
