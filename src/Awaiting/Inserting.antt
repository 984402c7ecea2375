-- ===== src/Awaiting/Inserting.antt =====
-- `awaiting_connections_table_insert` on a table that shows what waits.
use mmo_backend.Base.{
  ℕ, ◌+◌, ◌≡◌, ◌≢◌, true, false, Option, none, some, List, ok, fault, dangling, arith,
}
use mmo_backend.Base.Strings.{same_string, same_string_refl}
use mmo_backend.Tables.{HashTable}
use mmo_backend.World.State.{update}
use mmo_backend.Awaiting.{
  Entry, Registry, awaiting_connections_table_insert, replace_entry, tear_down, put_entry,
  awaiting_connection_destroy, load_string, lookup_key,
}
use mmo_backend.Awaiting.Shows.{Waiting, put, put_elim, Placed, Shows}

module _ (h : HashTable Entry) where
  abbrev pub inserted : Registry h → ℕ → ℕ → ℕ → List ℕ → Registry h
  inserted s now token id k = record s {
    next = s.next + 1;
    connections = update s.connections s.next (some (record { id = id; expiration = now + 300 }));
    table = h.insert s.table k (record { token = token; connection = s.next });
  }

  insert-vacant :
      (s : Registry h) (now token id : ℕ) (k : List ℕ)
      → s.strings token ≡ some k
      → h.lookup s.table k ≡ none
      → awaiting_connections_table_insert h now token id s ≡ ok (true, inserted s now token id k)
  unfolding awaiting_connections_table_insert load_string lookup_key replace_entry tear_down
      put_entry
  insert-vacant s now token id k e v = ground (arith, e, v)

  inserted-Placed :
      (s : Registry h) (owner : ℕ → Option (List ℕ)) (now token id : ℕ) (k j text : List ℕ)
      (due : ℕ)
      → owner token ≡ none
      → owner id ≡ none
      → same_string k j ≡ false
      → Placed h s owner j text due
      → Placed h
          (inserted s now token id k)
          (update (update owner token (some k)) id (some k))
          j
          text
          due
  inserted-Placed s owner now token id k j text due ft fi differ p = record {
    entry = p.entry;
    id = p.id;
    entry_eq = ground (
      arith,
      h.lookup-insert s.table k j (record { token = token; connection = s.next }),
      p.entry_eq,
    );
    older = ground (arith, p.older);
    connection_eq = ground (arith, p.connection_eq, p.older);
    id_eq = p.id_eq;
    token_eq = p.token_eq;
    owner_id = ground (arith, p.owner_id);
    owner_token = ground (arith, p.owner_token);
    apart = p.apart;
  }

  inserted_new :
      (s : Registry h) (owner : ℕ → Option (List ℕ)) (now token id : ℕ) (k text : List ℕ)
      → s.strings token ≡ some k
      → s.strings id ≡ some text
      → id ≢ token
      → Placed h
          (inserted s now token id k)
          (update (update owner token (some k)) id (some k))
          k
          text
          (now + 300)
  inserted_new s owner now token id k text e et apart = record {
    entry = record { token = token; connection = s.next };
    id = id;
    entry_eq = ground (
      arith,
      h.lookup-insert s.table k k (record { token = token; connection = s.next }),
      same_string_refl k,
    );
    older = omega arith;
    connection_eq = ground arith;
    id_eq = et;
    token_eq = e;
    owner_id = ground arith;
    owner_token = ground arith;
    apart = apart;
  }

  module _ (s : Registry h) (owner : ℕ → Option (List ℕ)) (waiting : Waiting)
      (shows : Shows h s owner waiting) where
    -- On a table that shows what waits, inserting a token that waits already reads a block that
    -- was freed.
    pub awaiting_connections_table_insert-taken :
        (now token id : ℕ) (k text : List ℕ) (due : ℕ)
        → s.strings token ≡ some k
        → waiting k ≡ some (text, due)
        → awaiting_connections_table_insert h now token id s ≡ fault dangling
    unfolding awaiting_connections_table_insert load_string lookup_key replace_entry tear_down
        put_entry awaiting_connection_destroy
    awaiting_connections_table_insert-taken now token id k text due e w =
        let p = shows.placed k text due w in
        ground (arith, e, p.entry_eq, p.connection_eq, p.id_eq, p.older)

    -- On a table that shows what waits, inserting a token that does not wait, in blocks of text
    -- that belong to no token, succeeds, and the table that is left shows what waited and the
    -- new token, with its id, until 300 seconds from now.
    pub awaiting_connections_table_insert-Shows :
        (now token id : ℕ) (k text : List ℕ)
        → s.strings token ≡ some k
        → s.strings id ≡ some text
        → id ≢ token
        → owner token ≡ none
        → owner id ≡ none
        → waiting k ≡ none
        → (awaiting_connections_table_insert h now token id s
            ≡ ok (true, inserted s now token id k))
          × Shows h
              (inserted s now token id k)
              (update (update owner token (some k)) id (some k))
              (put waiting k (some (text, now + 300)))
    awaiting_connections_table_insert-Shows now token id k text e et apart ft fi w = (
      insert-vacant s now token id k e (shows.vacant k w),
      record {
        vacant = λ j v. ground (
          arith,
          h.lookup-insert s.table k j (record { token = token; connection = s.next }),
          shows.vacant j,
        );
        placed = λ j mine due q.
            put_elim
              (λ j (u : List ℕ × ℕ).
                Placed h (inserted s now token id k)
                  (update (update owner token (some k)) id (some k)) j u.0 u.1)
              waiting k (text, now + 300) (inserted_new s owner now token id k text e et apart)
              (λ j u differ r.
                inserted-Placed s owner now token id k j u.0 u.1 ft fi differ
                  (shows.placed j u.0 u.1 r))
              j (mine, due) q;
      },
    )
