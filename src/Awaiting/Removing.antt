-- ===== src/Awaiting/Removing.antt =====
-- `awaiting_connections_table_remove` on a table that shows what waits.
use mmo_backend.Base.{
  ℕ, ◌≡◌, ◌≢◌, ap, sym, ◌∙◌, Bool, true, false, Option, none, some, List, ok, arith, Bool-cases,
  inl, inr,
}
use mmo_backend.Base.Strings.{same_string, same_string_refl}
use mmo_backend.Tables.{HashTable}
use mmo_backend.World.State.{update}
use mmo_backend.Awaiting.{
  Entry, Registry, awaiting_connections_table_remove, remove_entry, awaiting_connection_destroy,
  load_string, lookup_key, load_connection, free_string,
}
use mmo_backend.Awaiting.Shows.{Waiting, put, Placed, Shows}

-- The blocks of text after a removal.
abbrev pub freed : (ℕ → Option (List ℕ)) → ℕ → ℕ → Bool → ℕ → Option (List ℕ)
freed strings id token true = update (update strings id none) token none
freed strings id token false = update strings id none

module _ (h : HashTable Entry) where
  abbrev pub removed : Registry h → ℕ → ℕ → Bool → List ℕ → Registry h
  removed s id token remove_token k = record s {
    strings = freed s.strings id token remove_token;
    table = h.remove s.table k;
  }

  -- The token that is given is the table's own, or another block with the same text.
  pub remove-Placed :
      (s : Registry h) (owner : ℕ → Option (List ℕ)) (k text : List ℕ) (due : ℕ)
      (p : Placed h s owner k text due) (token : ℕ) (remove_token : Bool)
      → s.strings token ≡ some k
      → p.id ≢ token
      → awaiting_connections_table_remove h token remove_token s
        ≡ ok (true, removed s p.id token remove_token k)
  unfolding awaiting_connections_table_remove load_string lookup_key remove_entry
      awaiting_connection_destroy free_string load_connection
  remove-Placed s owner k text due p token true e apart =
      ground (arith, e, p.entry_eq, p.connection_eq, p.id_eq)
  remove-Placed s owner k text due p token false e apart =
      ground (arith, e, p.entry_eq, p.connection_eq, p.id_eq)

  freed-other :
      (strings : ℕ → Option (List ℕ)) (id token : ℕ) (remove_token : Bool) (q : ℕ)
      → id ≢ q
      → token ≢ q
      → freed strings id token remove_token q ≡ strings q
  freed-other strings id token true q a b = ground arith
  freed-other strings id token false q a b = ground arith

  unowned_apart :
      (owner : ℕ → Option (List ℕ)) (p q : ℕ) (k : List ℕ)
      → owner p ≡ none
      → owner q ≡ some k
      → p ≢ q
  unowned_apart owner p q k e f r = cc

  owners_apart :
      (owner : ℕ → Option (List ℕ)) (p q : ℕ) (j k : List ℕ)
      → owner p ≡ some k
      → owner q ≡ some j
      → same_string k j ≡ false
      → p ≢ q
  owners_apart owner p q j k e f differ r =
      let same : some k ≡ some j = sym e ∙ ap owner r ∙ f in
      ground (arith, same, differ, same_string_refl k)

  removed-Placed :
      (s : Registry h) (owner : ℕ → Option (List ℕ)) (id token : ℕ) (remove_token : Bool)
      (k j text : List ℕ) (due : ℕ)
      → owner token ≡ none
      → owner id ≡ some k
      → same_string k j ≡ false
      → Placed h s owner j text due
      → Placed h (removed s id token remove_token k) owner j text due
  removed-Placed s owner id token remove_token k j text due ft fi differ p = record {
    entry = p.entry;
    id = p.id;
    entry_eq = ground (arith, h.lookup-remove s.table k j, p.entry_eq);
    older = p.older;
    connection_eq = p.connection_eq;
    id_eq =
        freed-other s.strings id token remove_token p.id
          (owners_apart owner id p.id j k fi p.owner_id differ)
          (unowned_apart owner token p.id j ft p.owner_id)
        ∙ p.id_eq;
    token_eq =
        freed-other s.strings id token remove_token p.entry.token
          (owners_apart owner id p.entry.token j k fi p.owner_token differ)
          (unowned_apart owner token p.entry.token j ft p.owner_token)
        ∙ p.token_eq;
    owner_id = p.owner_id;
    owner_token = p.owner_token;
    apart = p.apart;
  }

  module _ (s : Registry h) (owner : ℕ → Option (List ℕ)) (waiting : Waiting)
      (shows : Shows h s owner waiting) where
    -- On a table that shows what waits, removing a token that waits, by a block that belongs to
    -- no token and whether that block is freed or not, succeeds, and the table that is left
    -- shows what waited without that token.
    pub awaiting_connections_table_remove-Shows :
        (token : ℕ) (remove_token : Bool) (k text : List ℕ) (due : ℕ)
        → s.strings token ≡ some k
        → owner token ≡ none
        → waiting k ≡ some (text, due)
        → (v : Registry h) × (awaiting_connections_table_remove h token remove_token s
            ≡ ok (true, v))
          × Shows h v owner (put waiting k none)
    awaiting_connections_table_remove-Shows token remove_token k text due e ft w =
        let p = shows.placed k text due w in
        (
          removed s p.id token remove_token k,
          remove-Placed s owner k text due p token remove_token e
              (λ r. unowned_apart owner token p.id k ft p.owner_id (sym r)),
          record {
            vacant = λ j q. ground (arith, h.lookup-remove s.table k j, shows.vacant j, q);
            placed = λ j mine due' q. elim (Bool-cases (same_string k j)) [
              | inl same ↦ absurd (ground (arith, same, q))
              | inr differ ↦
                  removed-Placed s owner p.id token remove_token k j mine due' ft p.owner_id differ
                    (shows.placed j mine due' (ground (arith, differ, q)))
            ];
          },
        )

    -- Removing a token that does not wait answers false and changes nothing.
    pub awaiting_connections_table_remove-missing :
        (token : ℕ) (remove_token : Bool) (k : List ℕ)
        → s.strings token ≡ some k
        → waiting k ≡ none
        → awaiting_connections_table_remove h token remove_token s ≡ ok (false, s)
    unfolding awaiting_connections_table_remove load_string lookup_key remove_entry
    awaiting_connections_table_remove-missing token remove_token k e w =
        ground (arith, e, shows.vacant k w)
