-- ===== src/Awaiting/Shows.antt =====
-- The table of `awaiting-connections.c` as a map from tokens to ids and times.
use mmo_backend.Base.{
  subst, ℕ, ◌<◌, ◌≡◌, ◌≢◌, if◌then◌else◌, false, Option, none, some, List, ok, arith, Bool-cases,
  inl, inr,
}
use mmo_backend.Base.Strings.{same_string, same_string→eq}
use mmo_backend.Tables.{HashTable}
use mmo_backend.Awaiting.{
  Entry, Registry, awaiting_connections_table_find, entry_id, load_string, lookup_key,
  load_connection,
}

-- What waits: under a token, the text of the id and the time until which it holds.
abbrev pub Waiting : Type 0
Waiting = List ℕ → Option (List ℕ × ℕ)

abbrev pub put {ℓ} : {A : Type ℓ} → (List ℕ → A) → List ℕ → A → List ℕ → A
put f k v j = if same_string k j then v else f j

pub some-inj : {A : Type 0} {a b : A} → some a ≡ some b → a ≡ b
some-inj e = cc

-- What holds at the new key and, of what was there, at the other keys, holds at every key.
pub put_elim :
    {A : Type 0} (P : List ℕ → A → Type 0) (f : List ℕ → Option A) (k : List ℕ) (v : A)
    → P k v
    → ((j : List ℕ) (u : A) → same_string k j ≡ false → f j ≡ some u → P j u)
    → (j : List ℕ) (u : A) → put f k (some v) j ≡ some u
    → P j u
put_elim P f k v here there j u q = elim (Bool-cases (same_string k j)) [
  | inl same ↦
      subst (λ j. P j u) (same_string→eq k j same)
        (subst (P k) (some-inj (ground (arith, same, q))) here)
  | inr differ ↦ there j u differ (ground (arith, differ, q))
]

module _ (h : HashTable Entry) where
  -- The blocks behind a token that waits. `owner` says which token a block of text belongs to.
  pub record Placed (s : Registry h) (owner : ℕ → Option (List ℕ)) (k text : List ℕ) (due : ℕ)
      : Type 0 where
    pub entry : Entry
    pub id : ℕ
    pub entry_eq : h.lookup s.table k ≡ some entry
    pub older : entry.connection < s.next
    pub connection_eq : s.connections entry.connection ≡ some (record { id = id; expiration = due })
    pub id_eq : s.strings id ≡ some text
    pub token_eq : s.strings entry.token ≡ some k
    pub owner_id : owner id ≡ some k
    pub owner_token : owner entry.token ≡ some k
    pub apart : id ≢ entry.token

  pub record Shows (s : Registry h) (owner : ℕ → Option (List ℕ)) (waiting : Waiting) : Type 0 where
    pub vacant : (k : List ℕ) → waiting k ≡ none → h.lookup s.table k ≡ none
    pub placed :
        (k text : List ℕ) (due : ℕ) → waiting k ≡ some (text, due) → Placed s owner k text due

  module _ (s : Registry h) (owner : ℕ → Option (List ℕ)) (waiting : Waiting)
      (shows : Shows s owner waiting) where
    -- On a table that shows what waits, looking a token up that waits gives a pointer to the
    -- text of its id, and changes nothing.
    pub awaiting_connections_table_find-waiting :
        (key : ℕ) (k text : List ℕ) (due : ℕ)
        → s.strings key ≡ some k
        → waiting k ≡ some (text, due)
        → (id : ℕ) × (awaiting_connections_table_find h key s ≡ ok (some id, s))
          × (s.strings id ≡ some text)
    unfolding awaiting_connections_table_find load_string lookup_key entry_id load_connection
    awaiting_connections_table_find-waiting key k text due e w =
        let p = shows.placed k text due w in
        (p.id, ground (arith, e, p.entry_eq, p.connection_eq), p.id_eq)

    pub awaiting_connections_table_find-missing :
        (key : ℕ) (k : List ℕ)
        → s.strings key ≡ some k
        → waiting k ≡ none
        → awaiting_connections_table_find h key s ≡ ok (none, s)
    unfolding awaiting_connections_table_find load_string lookup_key entry_id
    awaiting_connections_table_find-missing key k e w = ground (arith, e, shows.vacant k w)
