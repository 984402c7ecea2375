-- ===== src/Base/Bits.antt =====
-- The bits of a byte, and exclusive or on bytes, checked over all values.
use Prim.Native.Nat.{ℕ, zero, suc, ◌<◌, bit_xor}
use mathlib.Core.Path.{◌≡◌, refl}
use mathlib.Core.Bool.{Bool, true, false, not, ◌&&◌}
use native.Mathlib.Omega.{arith}
use mmo_backend.Base.Compare.{◌==◌, ==_iff}

-- Whether a test passes for each number below a bound.
unfoldable pub passes_below : (bound : ℕ) → (test : ℕ → Bool) → Bool
passes_below zero test = true
passes_below (suc k) test = passes_below k test && test k

pub passes_below-at :
    (bound : ℕ) (test : ℕ → Bool) (k : ℕ)
    → passes_below bound test ≡ true
    → k < bound
    → test k ≡ true
unfolding passes_below
passes_below-at zero test k passes below = absurd (omega arith)
passes_below-at (suc b) test k passes below = ground (arith, passes_below-at b test k)

-- Both tests agree.
unfoldable pub same : Bool → Bool → Bool
same true b = b
same false b = not b

pub same_sound : (a b : Bool) → same a b ≡ true → a ≡ b
unfolding same
same_sound a b h = ground arith

xor_table : passes_below 256 (λ x. passes_below 256 (λ k. bit_xor (bit_xor x k) k == x)) ≡ true
unfolding passes_below
xor_table = refl

pub bit_xor_twice : (x k : ℕ) → x < 256 → k < 256 → bit_xor (bit_xor x k) k ≡ x
bit_xor_twice x k hx hk = (==_iff _ x).0 (
    passes_below-at 256 (λ k. bit_xor (bit_xor x k) k == x) k
      (passes_below-at 256 (λ x. passes_below 256 (λ k. bit_xor (bit_xor x k) k == x)) x xor_table
        hx)
      hk)
