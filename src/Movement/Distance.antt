-- ===== src/Movement/Distance.antt =====
-- The distance that movement.c counts is the taxicab distance, wherever that is an `int`.
use mmo_backend.Base.{
  ℕ, ◌+◌, ◌-◌, ◌^◌, ◌≡◌, refl, Result, ok, fault, int_overflow, ltb, if◌then◌else◌, arith, ◌>>=◌,
}
use mmo_backend.Base.Int.{ℤ, pos, pos_part, neg_part, ◌+ℤ◌, ◌-ℤ◌, ltb_ℤ, leb_ℤ}
use mmo_backend.Movement.{movement_count_distance, movement_check_valid, int_value}

-- |a - b|, a number.
abbrev pub gap : ℤ → ℤ → ℕ
gap a b = let m = pos_part a + neg_part b in let n = pos_part b + neg_part a in (m - n) + (n - m)

abbrev pub taxicab : ℤ → ℤ → ℤ → ℤ → ℕ
taxicab x1 y1 x2 y2 = gap x1 x2 + gap y1 y2

-- One of the two distances, for values of an `int`.
side : ℤ → ℤ → Result ℤ
unfolding int_value
side a b = if ltb_ℤ b a then int_value (a -ℤ b) else int_value (b -ℤ a)

abbrev int_or_overflow : ℕ → Result ℤ
int_or_overflow n = if ltb n (2 ^ 31) then ok (pos n) else fault int_overflow

side_lem : (a b : ℤ) → side a b ≡ int_or_overflow (gap a b)
unfolding side ◌-ℤ◌
side_lem a b = ground arith

sum_lem : (m n : ℕ) → int_value (pos m +ℤ pos n) ≡ int_or_overflow (m + n)
unfolding int_value ◌+ℤ◌
sum_lem m n = ground arith

count_by_sides :
    (x1 y1 x2 y2 : ℤ)
    → movement_count_distance x1 y1 x2 y2
      ≡ (side x1 x2 >>= λ x_dist. side y1 y2 >>= λ y_dist. int_value (x_dist +ℤ y_dist))
unfolding movement_count_distance side
count_by_sides x1 y1 x2 y2 = refl

-- The count is the taxicab distance of the two places where that is below 2^31, and an overflow
-- where it is not.
pub movement_count_distance-taxicab :
    (x1 y1 x2 y2 : ℤ)
    → movement_count_distance x1 y1 x2 y2 ≡ (
        if ltb (taxicab x1 y1 x2 y2) (2 ^ 31)
        then ok (pos (taxicab x1 y1 x2 y2))
        else fault int_overflow)
movement_count_distance-taxicab x1 y1 x2 y2 =
    rw (count_by_sides x1 y1 x2 y2, side_lem x1 x2, side_lem y1 y2)
      (ground (arith, sum_lem (gap x1 x2) (gap y1 y2)))

-- A move is valid just when the taxicab distance to the target is at most the player's greatest
-- move; it is an overflow when that distance is 2^31 or more.
pub movement_check_valid-taxicab :
    (max x1 y1 x2 y2 : ℤ)
    → movement_check_valid max x1 y1 x2 y2 ≡ (
        if ltb (taxicab x1 y1 x2 y2) (2 ^ 31)
        then ok (leb_ℤ (pos (taxicab x1 y1 x2 y2)) max)
        else fault int_overflow)
unfolding movement_check_valid
movement_check_valid-taxicab max x1 y1 x2 y2 =
    rw (movement_count_distance-taxicab x1 y1 x2 y2) (ground arith)
