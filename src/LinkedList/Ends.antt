-- ===== src/LinkedList/Ends.antt =====
-- How far the loops of the linked list go.
use mmo_backend.Base.{ℕ, ◌==◌, ◌||◌, ◌≡◌, refl, Bool, true, false, List, [], ◌∷◌, ◌++◌, arith}
use mmo_backend.LinkedList.{link_map, link_contains, link_has_next}

abbrev pub is_among : ℕ → List ℕ → Bool
is_among item [] = false
is_among item (x ∷ xs) = x == item || is_among item xs

has_next-snoc : (x : ℕ) (xs : List ℕ) (last : ℕ) → link_has_next (x ∷ xs ++ last ∷ []) ≡ true
unfolding link_has_next
has_next-snoc x [] last = refl
has_next-snoc x (y ∷ xs) last = refl

-- On a list that is not empty, link_contains answers whether the item is among the payloads
-- before the last one.
pub link_contains-snoc :
    (xs : List ℕ) (last item : ℕ) → link_contains (xs ++ last ∷ []) item ≡ is_among item xs
unfolding link_contains link_has_next
link_contains-snoc [] last item = refl
link_contains-snoc (x ∷ xs) last item =
    ground (arith, has_next-snoc x xs last, link_contains-snoc xs last item)

-- On a list that is not empty, link_map calls the function on every payload but the last, in
-- order.
pub link_map-snoc : (xs : List ℕ) (last : ℕ) → link_map (xs ++ last ∷ []) ≡ xs
unfolding link_map link_has_next
link_map-snoc [] last = refl
link_map-snoc (x ∷ xs) last = ground (arith, has_next-snoc x xs last, link_map-snoc xs last)
