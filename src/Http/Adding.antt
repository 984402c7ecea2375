-- ===== src/Http/Adding.antt =====
-- `header_add_header` of backend/networking/header-list.c, which puts a node behind the others.
use mmo_backend.Base.{
  ◌≡◌, refl, if◌then◌else◌, Bool, true, false, Option, none, some, List, [], ◌∷◌, ◌++◌, ℕ, ok,
  fault, Result, ◌>>=◌, dangling, null_pointer,
}
use mmo_backend.Http.Headers.{Header}

-- A node without a name is `none`. `ended` says whether the last node's pointer to the next one was
-- set, to null; reading one that was not is a fault.
pub record HeaderNodes : Type 0 where
  pub nodes : List (Option Header)
  pub ended : Bool

-- The loop that looks for the last node.
unfoldable pub walk_to_end : HeaderNodes → Result (Unit {0})
walk_to_end head = if head.ended then ok tt else fault dangling

unfoldable pub header_add_header : HeaderNodes → List ℕ → List ℕ → Result HeaderNodes
unfolding walk_to_end
header_add_header head header_name header_value =
    let added : Header = record { header_name = header_name; header_value = header_value } in
    elim head.nodes [
      | [] ↦ fault null_pointer
      | none ∷ nodes ↦ ok (record head { nodes = some added ∷ nodes })
      | some first ∷ nodes ↦ walk_to_end head >>= λ _.
          ok (record { nodes = some first ∷ (nodes ++ some added ∷ []); ended = false })
    ]

-- A second header that is added behind another one reads a pointer that was never set.
pub header_add_header-twice :
    (first : Header) (nodes : List (Option Header)) (name value name' value' : List ℕ)
    → (header_add_header (record { nodes = some first ∷ nodes; ended = true }) name value
        >>= λ head. header_add_header head name' value')
      ≡ fault dangling
unfolding header_add_header walk_to_end
header_add_header-twice first nodes name value name' value' = refl
