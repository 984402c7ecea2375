-- ===== src/Movement.antt =====
-- backend/player/movement.c: how far a move goes, in the 32-bit `int` of C, whose overflow is
-- undefined and so a fault.
pub mod Distance
use mmo_backend.Base.{if◌then◌else◌, Bool, Result, ok, fault, ◌>>=◌, int_overflow}
use mmo_backend.Base.Int.{ℤ, ◌+ℤ◌, ◌-ℤ◌, ltb_ℤ, leb_ℤ, fits_int}

-- The value of an `int` expression.
unfoldable pub int_value : ℤ → Result ℤ
int_value a = if fits_int a then ok a else fault int_overflow

unfoldable pub movement_count_distance : ℤ → ℤ → ℤ → ℤ → Result ℤ
unfolding int_value
movement_count_distance x1 y1 x2 y2 = do
  x_dist ← if ltb_ℤ x2 x1 then int_value (x1 -ℤ x2) else int_value (x2 -ℤ x1)
  y_dist ← if ltb_ℤ y2 y1 then int_value (y1 -ℤ y2) else int_value (y2 -ℤ y1)
  int_value (x_dist +ℤ y_dist)

unfoldable pub movement_check_valid : ℤ → ℤ → ℤ → ℤ → ℤ → Result Bool
unfolding movement_count_distance
movement_check_valid max x1 y1 x2 y2 = do
  distance ← movement_count_distance x1 y1 x2 y2
  ok (leb_ℤ distance max)
