-- ===== src/Socket/Copy.antt =====
-- `memcpy` out of a block, whole, in part, and past its end.
use mmo_backend.Base.{
  ℕ, zero, suc, ◌<◌, ◌≡◌, refl, ap, leb, false, some, List, [], ◌∷◌, ◌++◌, length, take_all,
  take_prefix, length-append, ok, fault, out_of_bounds, arith, le→leb,
}
use mmo_backend.Socket.{copy_from}

lt→leb : (a b : ℕ) → b < a → leb a b ≡ false
lt→leb a b h = ground arith

-- A copy that reaches past the end of a block.
pub copy_past :
    (block : List ℕ) (n : ℕ) → length block < n → copy_from (some block) n ≡ fault out_of_bounds
copy_past block zero h = absurd (omega arith)
copy_past block (suc n) h = rw (lt→leb (suc n) (length block) h)

pub copy_prefix : (xs ys : List ℕ) (n : ℕ) → n ≡ length xs → copy_from (some (xs ++ ys)) n ≡ ok xs
copy_prefix [] ys zero e = refl
copy_prefix [] ys (suc n) e = absurd (omega arith)
copy_prefix (x ∷ xs) ys zero e = absurd (omega arith)
copy_prefix (x ∷ xs) ys (suc n) e =
    rw (le→leb (suc n) (length (x ∷ xs ++ ys)) (omega (arith, length-append xs ys)))
      (ap (λ (z : List ℕ). ok (x ∷ z)) (take_prefix n xs ys (omega arith)))

pub copy_all : (body : List ℕ) → copy_from (some body) (length body) ≡ ok body
copy_all [] = refl
copy_all (x ∷ xs) =
    rw (le→leb (length (x ∷ xs)) (length (x ∷ xs)) (omega arith))
      (ap (λ (z : List ℕ). ok (x ∷ z)) (take_all (length xs) xs (omega arith)))
