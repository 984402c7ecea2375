-- ===== src/LinkedList.antt =====
-- backend/structures/linked-list.c. A pointer to a node is the list of the payloads from that node
-- on, and the null pointer is the empty list; payloads are addresses.
pub mod Ends
use mmo_backend.Base.{
  ℕ, ◌==◌, if◌then◌else◌, Bool, true, false, List, [], ◌∷◌, Result, ok, fault, null_pointer,
}

unfoldable pub link_next : List ℕ → Result (List ℕ)
link_next [] = fault null_pointer
link_next (payload ∷ rest) = ok rest

unfoldable pub link_has_next : List ℕ → Bool
link_has_next [] = false
link_has_next (payload ∷ []) = false
link_has_next (payload ∷ next ∷ rest) = true

-- The payloads that the function is called on, in order.
unfoldable pub link_map : List ℕ → List ℕ
unfolding link_has_next
link_map [] = []
link_map (payload ∷ rest) =
    let later = link_map rest in if link_has_next (payload ∷ rest) then payload ∷ later else []

unfoldable pub link_contains : List ℕ → ℕ → Bool
unfolding link_has_next
link_contains [] item = false
link_contains (payload ∷ rest) item =
    let later = link_contains rest item in
    if link_has_next (payload ∷ rest) then (if payload == item then true else later) else false

unfoldable pub link_add_first : List ℕ → ℕ → List ℕ
link_add_first head payload = payload ∷ head

-- The list at `head` after the call, and the new node, which is returned.
unfoldable pub link_add_next : List ℕ → ℕ → List ℕ × List ℕ
link_add_next [] payload = ([], payload ∷ [])
link_add_next (first ∷ rest) payload = (first ∷ payload ∷ [], payload ∷ [])
