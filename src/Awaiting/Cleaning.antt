-- ===== src/Awaiting/Cleaning.antt =====
-- A turn of `awaiting_connections_table_cleaner` on a table that shows what waits.
use mathlib.Core.List.{Memᴰ}
use mmo_backend.Base.{
  invalid_iteration, ◌≤◌, ℕ, ◌<◌, ◌≡◌, refl, ap, sym, ◌∙◌, Bool, true, false, Option, some, List,
  [], ◌∷◌, ok, fault, arith, inl, inr, Option-cases, dec_le,
}
use mmo_backend.Tables.{HashTable}
use mmo_backend.Awaiting.{Entry, Registry, R, load_connection}
use mmo_backend.Awaiting.{awaiting_connections_table_check_if_expired, check_each, cleaner_turn}
use mmo_backend.Awaiting.Shows.{Waiting, some-inj, Placed, Shows}
use mmo_backend.Awaiting.Removing.{removed, remove-Placed}

module _ (h : HashTable Entry) where
  check-late :
      (s : Registry h) (owner : ℕ → Option (List ℕ)) (k text : List ℕ) (due now : ℕ)
      (p : Placed h s owner k text due)
      → due ≤ now
      → awaiting_connections_table_check_if_expired h now p.entry s
        ≡ ok (true, removed h s p.id p.entry.token true k)
  unfolding awaiting_connections_table_check_if_expired load_connection
  check-late s owner k text due now p late = ground (
    arith,
    p.connection_eq,
    remove-Placed h s owner k text due p p.entry.token true p.token_eq p.apart,
  )

  check-early :
      (s : Registry h) (owner : ℕ → Option (List ℕ)) (k text : List ℕ) (due now : ℕ)
      (p : Placed h s owner k text due)
      → now < due
      → awaiting_connections_table_check_if_expired h now p.entry s ≡ ok (false, s)
  unfolding awaiting_connections_table_check_if_expired load_connection
  check-early s owner k text due now p early = ground (arith, p.connection_eq)

  module _ (s : Registry h) (owner : ℕ → Option (List ℕ)) (waiting : Waiting)
      (shows : Shows h s owner waiting) (now : ℕ) where
    abbrev check : Entry → R h Bool
    check e = awaiting_connections_table_check_if_expired h now e

    -- What the check of an entry that the table has comes to.
    record Checked (k : List ℕ) (e : Entry) : Type 0 where
      text : List ℕ
      due : ℕ
      waiting_eq : waiting k ≡ some (text, due)
      late : due ≤ now → (v : Registry h) × (check e s ≡ ok (true, v))
      early : now < due → check e s ≡ ok (false, s)

    entry-Checked : (k : List ℕ) (e : Entry) → h.lookup s.table k ≡ some e → Checked k e
    entry-Checked k e l = elim (Option-cases (waiting k)) [
      | inl w ↦ absurd (ground (arith, l, shows.vacant k w))
      | inr ((text, due), w) ↦
          (let p = shows.placed k text due w in
            let q : p.entry ≡ e = some-inj (sym p.entry_eq ∙ l) in
            record {
              text = text;
              due = due;
              waiting_eq = w;
              late = λ n. (
                removed h s p.id p.entry.token true k,
                ap (λ e. check e s) (sym q) ∙ (check-late s owner k text due now p n),
              );
              early = λ n. ap (λ e. check e s) (sym q) ∙ (check-early s owner k text due now p n);
            })
    ]

    abbrev Listed : List (List ℕ × Entry) → Type 0
    Listed entries = (k : List ℕ) (e : Entry) → Memᴰ (k, e) entries → h.lookup s.table k ≡ some e

    check_each-early :
        (entries : List (List ℕ × Entry))
        → Listed entries
        → ((k text : List ℕ) (due : ℕ) → waiting k ≡ some (text, due) → now < due)
        → check_each h now entries s ≡ ok (tt, s)
    unfolding check_each
    check_each-early [] listed early = refl
    check_each-early ((k, e) ∷ rest) listed early =
        let c = entry-Checked k e (listed k e (Memᴰ.head refl)) in
        ground (
          arith,
          c.early (early k c.text c.due c.waiting_eq),
          check_each-early rest (λ j f m. listed j f (Memᴰ.tail m)) early,
        )

    check_each-late :
        (entries : List (List ℕ × Entry))
        → Listed entries
        → (k text : List ℕ) (due : ℕ) (e : Entry) → waiting k ≡ some (text, due)
        → due ≤ now
        → Memᴰ (k, e) entries
        → check_each h now entries s ≡ fault invalid_iteration
    unfolding check_each
    check_each-late [] listed k text due e w late m = elim m [ ]
    check_each-late ((j, f) ∷ rest) listed k text due e w late m =
        let c = entry-Checked j f (listed j f (Memᴰ.head refl)) in
        elim (dec_le c.due now) [
          | yes n ↦ ground (arith, (c.late n).1)
          | no n ↦ elim m [
            | Memᴰ.head q ↦ absurd (
                ground (
                  arith,
                  some-inj (sym w ∙ ap (λ (o : List ℕ × Entry). waiting o.0) q ∙ c.waiting_eq),
                ))
            | Memᴰ.tail m' ↦ ground (
              arith,
              c.early (omega arith),
              check_each-late rest (λ i g o. listed i g (Memᴰ.tail o)) k text due e w late m',
            )
          ]
        ]

    -- On a table that shows what waits, a turn of the cleaner before the times of all tokens
    -- that wait changes nothing.
    pub cleaner_turn-early :
        ((k text : List ℕ) (due : ℕ) → waiting k ≡ some (text, due) → now < due)
        → cleaner_turn h now s ≡ ok (tt, s)
    unfolding cleaner_turn
    cleaner_turn-early early =
        check_each-early (h.entries s.table) (λ k e m. h.entries-held s.table k e m) early

    -- On a table that shows what waits, a turn of the cleaner at or after the time until which
    -- some token waits changes the table while it goes through it.
    pub cleaner_turn-late :
        (k text : List ℕ) (due : ℕ)
        → waiting k ≡ some (text, due)
        → due ≤ now
        → cleaner_turn h now s ≡ fault invalid_iteration
    unfolding cleaner_turn
    cleaner_turn-late k text due w late =
        let p = shows.placed k text due w in
        check_each-late (h.entries s.table) (λ k e m. h.entries-held s.table k e m) k text due
          p.entry w late (h.entries_all s.table k p.entry p.entry_eq)
