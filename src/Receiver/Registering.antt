-- ===== src/Receiver/Registering.antt =====
-- A token and an id that arrive are registered.
use mmo_backend.Base.{
  length, take, drop, ◌≤◌, ℕ, ◌+◌, ◌<◌, ◌≡◌, ap, ◌∙◌, Option, none, some, List, ok, fault, dangling,
  arith, dec_lt,
}
use mmo_backend.Tables.{HashTable}
use mmo_backend.World.State.{update}
use mmo_backend.Awaiting.{Entry, Registry}
use mmo_backend.Receiver.{Peer, c_string, receive_round}
use mmo_backend.Receiver.Arrivals.{IsPrompt}
use mmo_backend.Awaiting.Shows.{Waiting, put, Placed, Shows}
use mmo_backend.Awaiting.Printing.{awaiting_connections_table_print_all-Shows}
use mmo_backend.Awaiting.Inserting.{
  inserted, awaiting_connections_table_insert-Shows, awaiting_connections_table_insert-taken,
}
use mmo_backend.Receiver.Turns.{
  arrived, arrived_token, arrived_id, printed, answered, ReadsBoth, receive_round-ReadsBoth,
}

module _ (h : HashTable Entry) where
  -- No block that is yet to come belongs to a token.
  abbrev pub IsFresh : Registry h → (ℕ → Option (List ℕ)) → Type 0
  IsFresh s owner = (p : ℕ) → s.next ≤ p → owner p ≡ none

  IsFresh-insert :
      (s : Registry h) (owner : ℕ → Option (List ℕ)) (k : List ℕ)
      → IsFresh s owner
      → (p : ℕ) → s.next + 1 + 1 + 1 ≤ p
      → update (update owner (s.next + 1) (some k)) s.next (some k) p ≡ none
  IsFresh-insert s owner k fresh p l = ground (arith, fresh p (omega arith))

  module _ (s : Registry h) (owner : ℕ → Option (List ℕ)) (waiting : Waiting)
      (shows : Shows h s owner waiting) (fresh : IsFresh s owner) where
    owned_old : (q : ℕ) (k : List ℕ) → owner q ≡ some k → q < s.next
    owned_old q k e = elim (dec_lt q s.next) [
      | yes l ↦ l
      | no l ↦ absurd (ground (arith, e, fresh q (omega arith)))
    ]

    arrived-Placed :
        (k text j mine : List ℕ) (due : ℕ)
        → Placed h s owner j mine due
        → Placed h (arrived h s k text) owner j mine due
    arrived-Placed k text j mine due p = record {
      entry = p.entry;
      id = p.id;
      entry_eq = p.entry_eq;
      older = omega (arith, p.older);
      connection_eq = p.connection_eq;
      id_eq = ground (arith, p.id_eq, owned_old p.id j p.owner_id);
      token_eq = ground (arith, p.token_eq, owned_old p.entry.token j p.owner_token);
      owner_id = p.owner_id;
      owner_token = p.owner_token;
      apart = p.apart;
    }

    arrived-Shows : (k text : List ℕ) → Shows h (arrived h s k text) owner waiting
    arrived-Shows k text = record {
      vacant = shows.vacant;
      placed = λ j mine due w. arrived-Placed k text j mine due (shows.placed j mine due w);
    }

    -- The table after a turn in which a token was registered.
    pub record Registered (now : ℕ) (p : Peer) (k text : List ℕ) : Type 0 where
      pub peer : Peer
      pub registry : Registry h
      pub new_owner : ℕ → Option (List ℕ)
      pub returns : receive_round h now p s ≡ ok (some peer, registry)
      pub shows' : Shows h registry new_owner (put waiting k (some (text, now + 300)))
      pub fresh' : IsFresh registry new_owner
      pub left : peer.input ≡ drop 276 p.input
      pub prompt : IsPrompt peer

    -- Over a table that shows what waits, when at least 256 bytes are left of what the
    -- authentication server sends, something arrives at each read, and the string in the first
    -- 255 bytes is no token that waits, a turn of the receiver ends without a fault or an exit:
    -- that string waits for 300 seconds from now on with the string in the next 21 bytes as its
    -- id, what waited still waits, and those bytes are taken off the input.
    pub receive_round-Registered :
        (now : ℕ) (p : Peer)
        → IsPrompt p
        → 255 < length p.input
        → waiting (c_string (take 255 p.input)) ≡ none
        → Registered now p (c_string (take 255 p.input)) (c_string (take 21 (drop 255 p.input)))
    unfolding ReadsBoth
    receive_round-Registered now p prompt long w =
        let (q, left, on, e) = receive_round-ReadsBoth h s now p prompt long in
        let k = c_string (take 255 p.input) in
        let text = c_string (take 21 (drop 255 p.input)) in
        let (f, shown) =
          awaiting_connections_table_insert-Shows h (arrived h s k text) owner waiting
            (arrived-Shows k text) now (s.next + 1) s.next k text (arrived_token h s k text)
            (arrived_id h s k text) (omega arith) (fresh (s.next + 1) (omega arith))
            (fresh s.next (omega arith)) w in
        record {
          peer = q;
          registry = inserted h (arrived h s k text) now (s.next + 1) s.next k;
          new_owner = update (update owner (s.next + 1) (some k)) s.next (some k);
          returns =
              e
              ∙ ap (answered h q) f
              ∙ ap (printed h q) (
                  awaiting_connections_table_print_all-Shows h
                    (inserted h (arrived h s k text) now (s.next + 1) s.next k)
                    (update (update owner (s.next + 1) (some k)) s.next (some k))
                    (put waiting k (some (text, now + 300))) shown);
          shows' = shown;
          fresh' = IsFresh-insert s owner k fresh;
          left = left;
          prompt = on;
        }

    -- A token that waits already ends the turn in a read of a freed block.
    pub receive_round-taken :
        (now : ℕ) (p : Peer)
        → IsPrompt p
        → 255 < length p.input
        → (text : List ℕ) (due : ℕ) → waiting (c_string (take 255 p.input)) ≡ some (text, due)
        → receive_round h now p s ≡ fault dangling
    unfolding ReadsBoth
    receive_round-taken now p prompt long text due w =
        let (q, left, on, e) = receive_round-ReadsBoth h s now p prompt long in
        let k = c_string (take 255 p.input) in
        let mine = c_string (take 21 (drop 255 p.input)) in
        e
        ∙ ap (answered h q) (
            awaiting_connections_table_insert-taken h (arrived h s k mine) owner waiting
              (arrived-Shows k mine) now (s.next + 1) s.next k text due (arrived_token h s k mine)
              w)
