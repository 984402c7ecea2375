-- ===== src/Base/Strings.antt =====
-- C strings as the lists of their bytes, and their comparison by `strcmp`.
use Prim.Native.Nat.{ℕ}
use Prim.Native.Char.{code}
use Prim.Native.String.{String}
use mathlib.Core.Path.{◌≡◌, refl}
use mathlib.Core.Bool.{Bool, true, false, ◌&&◌}
use mathlib.Core.List.{List, [], ◌∷◌}
use native.Mathlib.Omega.{arith}
use mmo_backend.Base.Compare.{◌==◌}

-- The bytes of a text in ASCII.
abbrev pub ascii : String → List ℕ
ascii String.[] = []
ascii (String.◌∷◌ c text) = code c ∷ ascii text

abbrev pub same_string : List ℕ → List ℕ → Bool
same_string [] [] = true
same_string [] (b ∷ t) = false
same_string (a ∷ s) [] = false
same_string (a ∷ s) (b ∷ t) = a == b && same_string s t

pub same_string_refl : (s : List ℕ) → same_string s s ≡ true
same_string_refl [] = refl
same_string_refl (a ∷ s) = ground (arith, same_string_refl s)

pub same_string→eq : (s t : List ℕ) → same_string s t ≡ true → s ≡ t
same_string→eq [] [] h = refl
same_string→eq [] (b ∷ t) h = cc
same_string→eq (a ∷ s) [] h = cc
same_string→eq (a ∷ s) (b ∷ t) h = ground (arith, same_string→eq s t)
