-- ===== src/Maps/Collision/Segments.antt =====
-- Bits of a segment, checked over all bytes and all bit positions.
use mmo_backend.Base.{
  ℕ, ◌^◌, ◌<◌, ◌≡◌, refl, bit_and, ◌==◌, if◌then◌else◌, Bool, true, false, not, passes_below,
  passes_below-at, same, same_sound, arith,
}
use mmo_backend.Maps.Collision.{toggle_bit}

-- Toggling bit `k` decides whether bit `k` is clear, and no other bit.
abbrev toggles : Bool → ℕ → ℕ → ℕ → Bool
toggles disable segment k j =
    same (bit_and (toggle_bit disable segment (2 ^ k)) (2 ^ j) == 0)
      (if k == j then not disable else (bit_and segment (2 ^ j) == 0))

toggle_table :
    (d : Bool)
    → passes_below 256 (λ s. passes_below 8 (λ k. passes_below 8 (λ j. toggles d s k j))) ≡ true
unfolding passes_below same toggle_bit
toggle_table true = refl
toggle_table false = refl

pub toggle_bit-clear :
    (d : Bool) (s k j : ℕ)
    → s < 256
    → k < 8
    → j < 8
    → (bit_and (toggle_bit d s (2 ^ k)) (2 ^ j) == 0)
      ≡ (if k == j then not d else (bit_and s (2 ^ j) == 0))
toggle_bit-clear d s k j hs hk hj =
    let row = passes_below-at 256 _ s (toggle_table d) hs in
    same_sound _ _ (passes_below-at 8 _ j (passes_below-at 8 _ k row hk) hj)

pub toggle_bit-lt : (d : Bool) (s b : ℕ) → toggle_bit d s b < 256
unfolding toggle_bit
toggle_bit-lt d s b = ground arith

pub zero-clear : (j : ℕ) → j < 8 → (bit_and 0 (2 ^ j) == 0) ≡ true
zero-clear j hj = passes_below-at 8 (λ j. bit_and 0 (2 ^ j) == 0) j table hj
  where
    table : passes_below 8 (λ j. bit_and 0 (2 ^ j) == 0) ≡ true
    table = unfold passes_below in refl
