-- ===== src/Awaiting/Printing.antt =====
-- `awaiting_connections_table_print_all` on a table that shows what waits.
use mathlib.Core.List.{Memᴰ}
use mmo_backend.Base.{
  ℕ, ◌≡◌, refl, ap, sym, ◌∙◌, Option, some, List, [], ◌∷◌, ok, arith, inl, inr, Option-cases,
}
use mmo_backend.Tables.{HashTable}
use mmo_backend.Awaiting.{Entry, Registry, load_string, load_connection}
use mmo_backend.Awaiting.Shows.{Waiting, some-inj, Placed, Shows}
use mmo_backend.Awaiting.{
  awaiting_connections_print_connection, print_each, awaiting_connections_table_print_all,
}

module _ (h : HashTable Entry) where
  print-Placed :
      (s : Registry h) (owner : ℕ → Option (List ℕ)) (k text : List ℕ) (due : ℕ)
      (p : Placed h s owner k text due)
      → awaiting_connections_print_connection h p.entry s ≡ ok (tt, s)
  unfolding awaiting_connections_print_connection load_string load_connection
  print-Placed s owner k text due p = ground (arith, p.token_eq, p.connection_eq, p.id_eq)

  module _ (s : Registry h) (owner : ℕ → Option (List ℕ)) (waiting : Waiting)
      (shows : Shows h s owner waiting) where
    print_entry :
        (k : List ℕ) (e : Entry)
        → h.lookup s.table k ≡ some e
        → awaiting_connections_print_connection h e s ≡ ok (tt, s)
    print_entry k e l = elim (Option-cases (waiting k)) [
      | inl w ↦ absurd (ground (arith, l, shows.vacant k w))
      | inr ((text, due), w) ↦
          (let p = shows.placed k text due w in
            let q : p.entry ≡ e = some-inj (sym p.entry_eq ∙ l) in
            ap (λ e. awaiting_connections_print_connection h e s) (sym q)
            ∙ print-Placed s owner k text due p)
    ]

    print_each-held :
        (entries : List (List ℕ × Entry))
        → ((k : List ℕ) (e : Entry) → Memᴰ (k, e) entries → h.lookup s.table k ≡ some e)
        → print_each h entries s ≡ ok (tt, s)
    unfolding print_each
    print_each-held [] held = refl
    print_each-held ((k, e) ∷ rest) held = ground (
      arith,
      print_entry k e (held k e (Memᴰ.head refl)),
      print_each-held rest (λ j f m. held j f (Memᴰ.tail m)),
    )

    pub awaiting_connections_table_print_all-Shows :
        awaiting_connections_table_print_all h s ≡ ok (tt, s)
    unfolding awaiting_connections_table_print_all
    awaiting_connections_table_print_all-Shows =
        print_each-held (h.entries s.table) (λ k e m. h.entries-held s.table k e m)
