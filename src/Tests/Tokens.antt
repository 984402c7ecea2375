-- ===== src/Tests/Tokens.antt =====
-- The table of tokens, and the thread that fills it, at concrete inputs.
use mmo_backend.Base.{
  length, ◌++◌, ℕ, ◌<◌, ◌≡◌, refl, ◌==◌, true, if◌then◌else◌, Option, none, some, List, [], ◌∷◌,
  drop, replicate, ok, fault, dangling, invalid_iteration, arith,
}
use mmo_backend.Base.Strings.{ascii}
use mmo_backend.Tables.Assoc.{assoc}
use mmo_backend.World.State.{update}
use mmo_backend.Awaiting.{
  Entry, Registry, awaiting_connections_table_insert, awaiting_connections_table_find,
  awaiting_connections_table_remove, cleaner_turn,
}
use mmo_backend.Awaiting.Shows.{
  Waiting, put, put_elim, Placed, Shows, awaiting_connections_table_find-waiting,
}
use mmo_backend.Awaiting.Inserting.{
  inserted, awaiting_connections_table_insert-Shows, awaiting_connections_table_insert-taken,
}
use mmo_backend.Awaiting.Removing.{awaiting_connections_table_remove-Shows}
use mmo_backend.Awaiting.Cleaning.{cleaner_turn-late}
use mmo_backend.Receiver.{Peer}
use mmo_backend.Receiver.Arrivals.{IsPrompt}
use mmo_backend.Receiver.Registering.{IsFresh}

abbrev entry : Entry
entry = record { token = 1; connection = 3 }

-- Under "tok" waits "id7"; a copy of that token, a new token and a new id are at hand.
abbrev registry : Registry assoc
registry = record {
  next = 8;
  strings = λ p.
      if p == 1
      then some (ascii "tok")
      else if p == 2
      then some (ascii "id7")
      else if p == 5
      then some (ascii "tok")
      else if p == 6
      then some (ascii "new")
      else if p == 7
      then some (ascii "id9")
      else none;
  connections = λ p. if p == 3 then some (record { id = 2; expiration = 500 }) else none;
  table = (ascii "tok", entry) ∷ [];
}

abbrev owner : ℕ → Option (List ℕ)
owner p = if p == 1 then some (ascii "tok") else if p == 2 then some (ascii "tok") else none

abbrev waiting : Waiting
waiting = put (λ k. none) (ascii "tok") (some (ascii "id7", 500))

token-Placed : Placed assoc registry owner (ascii "tok") (ascii "id7") 500
token-Placed = record {
  entry = entry;
  id = 2;
  entry_eq = refl;
  older = omega arith;
  connection_eq = refl;
  id_eq = refl;
  token_eq = refl;
  owner_id = refl;
  owner_token = refl;
  apart = λ e. omega (arith, e);
}

registry-Shows : Shows assoc registry owner waiting
registry-Shows = record {
  vacant = λ k w. ground (arith, w);
  placed = λ j text due q.
      put_elim (λ j (u : List ℕ × ℕ). Placed assoc registry owner j u.0 u.1) (λ k. none)
        (ascii "tok") (ascii "id7", 500) token-Placed (λ j u differ e. absurd (ground (arith, e))) j
        (text, due) q;
}

registry-IsFresh : IsFresh assoc registry owner
registry-IsFresh p l = ground arith

awaiting_connections_table_insert-Shows_example :
    (awaiting_connections_table_insert assoc 100 6 7 registry
      ≡ ok (true, inserted assoc registry 100 6 7 (ascii "new")))
    × Shows assoc
        (inserted assoc registry 100 6 7 (ascii "new"))
        (update (update owner 6 (some (ascii "new"))) 7 (some (ascii "new")))
        (put waiting (ascii "new") (some (ascii "id9", 400)))
awaiting_connections_table_insert-Shows_example =
    awaiting_connections_table_insert-Shows assoc registry owner waiting registry-Shows 100 6 7
      (ascii "new") (ascii "id9") refl refl (λ e. omega (arith, e)) refl refl refl

awaiting_connections_table_insert-taken_example :
    awaiting_connections_table_insert assoc 100 5 7 registry ≡ fault dangling
awaiting_connections_table_insert-taken_example =
    awaiting_connections_table_insert-taken assoc registry owner waiting registry-Shows 100 5 7
      (ascii "tok") (ascii "id7") 500 refl refl

awaiting_connections_table_find-waiting_example :
    (id : ℕ) × (awaiting_connections_table_find assoc 5 registry ≡ ok (some id, registry))
    × (registry.strings id ≡ some (ascii "id7"))
awaiting_connections_table_find-waiting_example =
    awaiting_connections_table_find-waiting assoc registry owner waiting registry-Shows 5
      (ascii "tok") (ascii "id7") 500 refl refl

awaiting_connections_table_remove-Shows_example :
    (v : Registry assoc) × (awaiting_connections_table_remove assoc 5 true registry ≡ ok (true, v))
    × Shows assoc v owner (put waiting (ascii "tok") none)
awaiting_connections_table_remove-Shows_example =
    awaiting_connections_table_remove-Shows assoc registry owner waiting registry-Shows 5 true
      (ascii "tok") (ascii "id7") 500 refl refl refl

all_early : (k text : List ℕ) (due : ℕ) → waiting k ≡ some (text, due) → 300 < due
all_early k text due e = ground (arith, e)

cleaner_turn-late_example : cleaner_turn assoc 600 registry ≡ fault invalid_iteration
cleaner_turn-late_example =
    cleaner_turn-late assoc registry owner waiting registry-Shows 600 (ascii "tok") (ascii "id7")
      500 refl (omega arith)

abbrev sent : List ℕ
sent = replicate 276 b'a' ++ replicate 276 b'b'

abbrev auth_server : Peer
auth_server = record { arrived = λ i. 7; reads = 0; input = sent }

auth_server-IsPrompt : IsPrompt auth_server
auth_server-IsPrompt i = omega arith

two_long : (255 < length sent) × (255 < length (drop 276 sent))
two_long = (omega arith, omega arith)
