-- ===== src/Tests/Grid.antt =====
-- The bitmap and the distance at concrete inputs.
use mmo_backend.Base.{◌≡◌, refl, true, false, List, [], ◌∷◌, ok}
use mmo_backend.Base.Int.{pos, negsuc}
use mmo_backend.Maps.{Map, map_create}
use mmo_backend.Maps.Collision.Refinement.{
  FreeSet, Represents, Toggle, Answers, run_free, run_toggles, run_toggles-Answers,
}
use mmo_backend.Maps.Collision.Create.{map_create-Represents}
use mmo_backend.Movement.{movement_check_valid}
use mmo_backend.Movement.Distance.{movement_check_valid-taxicab}

abbrev meadow : Map
meadow = map_create 0 16 4

abbrev all_free : FreeSet
all_free = record { columns = 16; rows = 4; free = λ u v. true }

meadow-Represents : Represents all_free meadow
meadow-Represents = map_create-Represents 0 16 4 refl

abbrev history : List Toggle
history =
    record { x = pos 9; y = pos 2; disable = true }
    ∷ record { x = pos 9; y = pos 2; disable = true }
    ∷ record { x = pos 9; y = pos 2; disable = false }
    ∷ record { x = pos 16; y = pos 0; disable = true }
    ∷ []

run_toggles-Answers_example : Answers (run_free all_free history) (run_toggles meadow history)
run_toggles-Answers_example = run_toggles-Answers all_free meadow history meadow-Represents

movement_check_valid-taxicab_example :
    movement_check_valid (pos 5) (pos 1) (negsuc 1) (pos 4) (pos 3) ≡ ok false
movement_check_valid-taxicab_example =
    movement_check_valid-taxicab (pos 5) (pos 1) (negsuc 1) (pos 4) (pos 3)
