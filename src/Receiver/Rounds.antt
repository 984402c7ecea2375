-- ===== src/Receiver/Rounds.antt =====
-- All the tokens that the authentication server sends are registered, one after the other.
use mmo_backend.Base.{
  subst, sym, Result, refl, [], ◌∷◌, length, take, drop, ℕ, ◌+◌, ◌<◌, ◌≡◌, Option, none, some, List,
  ok, arith,
}
use mmo_backend.Tables.{HashTable}
use mmo_backend.Awaiting.{Entry, Registry}
use mmo_backend.Receiver.{Peer, c_string, receive_round}
use mmo_backend.Receiver.Arrivals.{IsPrompt}
use mmo_backend.Awaiting.Shows.{Waiting, put, Shows}
use mmo_backend.Receiver.{receive_rounds}
use mmo_backend.Receiver.Registering.{IsFresh, receive_round-Registered}

-- The strings that a turn takes for the token and the id, from the input that it finds.
abbrev pub token_of : List ℕ → List ℕ
token_of input = c_string (take 255 input)

abbrev pub id_of : List ℕ → List ℕ
id_of input = c_string (take 21 (drop 255 input))

-- What waits after turns at these times.
abbrev pub registered : List ℕ → List ℕ → Waiting → Waiting
registered [] input waiting = waiting
registered (now ∷ nows) input waiting =
    registered nows (drop 276 input) (put waiting (token_of input) (some (id_of input, now + 300)))

-- Each turn finds a whole token and something of an id, and its token does not wait yet.
abbrev pub AllNew : List ℕ → List ℕ → Waiting → Type 0
AllNew [] input waiting = Unit {0}
AllNew (now ∷ nows) input waiting =
    (255 < length input)
    × (waiting (token_of input) ≡ none)
    × AllNew nows (drop 276 input) (put waiting (token_of input) (some (id_of input, now + 300)))

module _ (h : HashTable Entry) where
  pub record AllRegistered (nows : List ℕ) (p : Peer) (waiting : Waiting)
      (r : Result (Option Peer × Registry h)) : Type 0 where
    pub peer : Peer
    pub registry : Registry h
    pub new_owner : ℕ → Option (List ℕ)
    pub returns : r ≡ ok (some peer, registry)
    pub shows : Shows h registry new_owner (registered nows p.input waiting)
    pub fresh : IsFresh h registry new_owner

  next_round :
      (now : ℕ) (nows : List ℕ) (p q : Peer) (s v : Registry h)
      (r : Result (Option Peer × Registry h))
      → receive_round h now p s ≡ ok (some q, v)
      → receive_rounds h nows q v ≡ r
      → receive_rounds h (now ∷ nows) p s ≡ r
  unfolding receive_rounds
  next_round now nows p q s v r e f = ground (arith, e, f)

  -- Over a table that shows what waits, for any turns of the receiver, at each of which at least
  -- 256 bytes are left of what the authentication server sends, something arrives at each read,
  -- and the string in the next 255 bytes is no token that waits, the turns end without a fault
  -- or an exit, and the table that is left shows what waited and, for every turn, that string
  -- with the string in the 21 bytes behind it as its id, until 300 seconds from the turn.
  pub receive_rounds-AllRegistered :
      (nows : List ℕ) (s : Registry h) (owner : ℕ → Option (List ℕ)) (waiting : Waiting)
      → Shows h s owner waiting
      → IsFresh h s owner
      → (p : Peer) → IsPrompt p
      → AllNew nows p.input waiting
      → AllRegistered nows p waiting (receive_rounds h nows p s)
  unfolding receive_rounds
  receive_rounds-AllRegistered [] s owner waiting shows fresh p prompt new = record {
    peer = p;
    registry = s;
    new_owner = owner;
    returns = refl;
    shows = shows;
    fresh = fresh;
  }
  receive_rounds-AllRegistered (now ∷ nows) s owner waiting shows fresh p prompt
        (long, vacant, new) =
      let first = receive_round-Registered h s owner waiting shows fresh now p prompt long vacant in
      let waiting' = put waiting (token_of p.input) (some (id_of p.input, now + 300)) in
      let rest =
        receive_rounds-AllRegistered nows first.registry first.new_owner waiting' first.shows'
          first.fresh' first.peer first.prompt
          (subst (λ i. AllNew nows i waiting') (sym first.left) new) in
      record {
        peer = rest.peer;
        registry = rest.registry;
        new_owner = rest.new_owner;
        returns = next_round now nows p first.peer s first.registry _ first.returns rest.returns;
        shows =
            subst (λ i. Shows h rest.registry rest.new_owner (registered nows i waiting'))
              first.left rest.shows;
        fresh = rest.fresh;
      }
