-- ===== src/Tables/Assoc.antt =====
-- A table that satisfies the laws: an association list.
use mmo_backend.Base.{
  ℕ, ◌≡◌, refl, ap, ◌∙◌, Bool, true, false, if◌then◌else◌, Option, none, some, List, [], ◌∷◌, arith,
  Bool-cases, inl, inr,
}
use mathlib.Core.List.{Memᴰ}
use mmo_backend.Base.Strings.{same_string, same_string_refl, same_string→eq}
use mmo_backend.Tables.{HashTable}

module _ {V : Type 0} where
  abbrev pub assoc_lookup : List (List ℕ × V) → List ℕ → Option V
  assoc_lookup [] k = none
  assoc_lookup ((j, v) ∷ t) k = if same_string j k then some v else assoc_lookup t k

  abbrev pub assoc_remove : List (List ℕ × V) → List ℕ → List (List ℕ × V)
  assoc_remove [] k = []
  assoc_remove ((j, v) ∷ t) k =
      let rest = assoc_remove t k in if same_string j k then rest else (j, v) ∷ rest

  pub lookup-assoc_remove :
      (t : List (List ℕ × V)) (j k : List ℕ)
      → assoc_lookup (assoc_remove t j) k ≡ (if same_string j k then none else assoc_lookup t k)
  lookup-assoc_remove [] j k = ground arith
  lookup-assoc_remove ((i, v) ∷ t) j k = ground (
    arith,
    lookup-assoc_remove t j k,
    same_string→eq i j,
    same_string→eq i k,
    same_string→eq j k,
    same_string_refl i,
    same_string_refl j,
  )

  pub lookup-assoc_insert :
      (t : List (List ℕ × V)) (j k : List ℕ) (v : V)
      → assoc_lookup ((j, v) ∷ assoc_remove t j) k
        ≡ (if same_string j k then some v else assoc_lookup t k)
  lookup-assoc_insert t j k v = ground (arith, lookup-assoc_remove t j k)

  -- The list may hold an entry that an earlier one hides.
  abbrev pub assoc_entries : List (List ℕ × V) → List (List ℕ × V)
  assoc_entries [] = []
  assoc_entries ((j, v) ∷ t) = (j, v) ∷ assoc_remove (assoc_entries t) j

  lookup-assoc_entries :
      (t : List (List ℕ × V)) (k : List ℕ) → assoc_lookup (assoc_entries t) k ≡ assoc_lookup t k
  lookup-assoc_entries [] k = refl
  lookup-assoc_entries ((j, v) ∷ t) k =
      ground (arith, lookup-assoc_entries t k, lookup-assoc_remove (assoc_entries t) j k)

  Memᴰ-assoc_lookup :
      (t : List (List ℕ × V)) (k : List ℕ) (v : V) → assoc_lookup t k ≡ some v → Memᴰ (k, v) t
  Memᴰ-assoc_lookup [] k v e = absurd (cc)
  Memᴰ-assoc_lookup ((j, u) ∷ t) k v e = elim (Bool-cases (same_string j k)) [
    | inl same ↦ Memᴰ.head (ground (arith, same_string→eq j k))
    | inr differ ↦ Memᴰ.tail (Memᴰ-assoc_lookup t k v (ground arith))
  ]

  abbrev Kept : List (List ℕ × V) → List ℕ → List ℕ → V → Type 0
  Kept t j k v = (same_string k j ≡ false) × Memᴰ (k, v) t

  Kept-cons :
      (i : List ℕ) (u : V) (t : List (List ℕ × V)) (j k : List ℕ) (v : V)
      → Kept t j k v
      → Kept ((i, u) ∷ t) j k v
  Kept-cons i u t j k v (differ, m) = (differ, Memᴰ.tail m)

  entry-Kept :
      (i : List ℕ) (u : V) (t : List (List ℕ × V)) (j k : List ℕ) (v : V)
      → (Memᴰ (k, v) (assoc_remove t j) → Kept t j k v)
      → (b : Bool) → same_string i j ≡ b
      → Memᴰ (k, v) (if b then assoc_remove t j else (i, u) ∷ assoc_remove t j)
      → Kept ((i, u) ∷ t) j k v
  entry-Kept i u t j k v below true e m = Kept-cons i u t j k v (below m)
  entry-Kept i u t j k v below false e (Memᴰ.head q) =
      (ap (λ (p : List ℕ × V). same_string p.0 j) q ∙ e, Memᴰ.head q)
  entry-Kept i u t j k v below false e (Memᴰ.tail m) = Kept-cons i u t j k v (below m)

  Memᴰ-assoc_remove :
      (t : List (List ℕ × V)) (j k : List ℕ) (v : V) → Memᴰ (k, v) (assoc_remove t j) → Kept t j k v
  Memᴰ-assoc_remove [] j k v m = elim m [ ]
  Memᴰ-assoc_remove ((i, u) ∷ t) j k v m =
      entry-Kept i u t j k v (λ n. Memᴰ-assoc_remove t j k v n) (same_string i j) refl m

  pub assoc_entries-held :
      (t : List (List ℕ × V)) (k : List ℕ) (v : V)
      → Memᴰ (k, v) (assoc_entries t)
      → assoc_lookup t k ≡ some v
  assoc_entries-held [] k v m = elim m [ ]
  assoc_entries-held ((j, u) ∷ t) k v (Memᴰ.head e) =
      ground
        (arith, ap (λ (p : List ℕ × V). p.0) e, ap (λ (p : List ℕ × V). p.1) e, same_string_refl k)
  assoc_entries-held ((j, u) ∷ t) k v (Memᴰ.tail m) =
      let (differ, m') = Memᴰ-assoc_remove (assoc_entries t) j k v m in
      ground (arith, assoc_entries-held t k v m', same_string→eq j k, same_string_refl k)

  pub assoc_entries_all :
      (t : List (List ℕ × V)) (k : List ℕ) (v : V)
      → assoc_lookup t k ≡ some v
      → Memᴰ (k, v) (assoc_entries t)
  assoc_entries_all t k v e = Memᴰ-assoc_lookup (assoc_entries t) k v (lookup-assoc_entries t k ∙ e)

  abbrev pub assoc : HashTable V
  assoc = record {
    Table = List (List ℕ × V);
    empty = [];
    lookup = assoc_lookup;
    insert = λ t k v. (k, v) ∷ assoc_remove t k;
    remove = assoc_remove;
    entries = assoc_entries;
    lookup-empty = λ k. refl;
    lookup-insert = lookup-assoc_insert;
    lookup-remove = lookup-assoc_remove;
    entries-held = assoc_entries-held;
    entries_all = assoc_entries_all;
  }
