-- ===== src/Receiver/Turns.antt =====
-- What a turn of the receiver comes to, up to the insertion into the table.
use mmo_backend.Base.{
  drop-drop, length-take, length-drop, Result, length, take, drop, ℕ, ◌+◌, ◌<◌, ◌≡◌, refl, ap, ◌∙◌,
  Bool, Option, some, List, [], ◌∷◌, ok, fault, arith,
}
use mmo_backend.Tables.{HashTable}
use mmo_backend.World.State.{update}
use mmo_backend.Awaiting.{Entry, Registry, awaiting_connections_table_insert}
use mmo_backend.Receiver.{
  take_id, take_token, Peer, c_string, receive_round, read_socket, token_size, id_size,
  alloc_string, store_string,
}
use mmo_backend.Receiver.Arrivals.{IsPrompt, read_socket-IsPrompt}
use mmo_backend.Awaiting.{awaiting_connections_table_print_all}

module _ (h : HashTable Entry) where
  -- The state in which the new token and id are inserted: the id's block comes before the token's.
  abbrev blank : Registry h → Registry h
  blank s = record s {
    next = s.next + 1 + 1;
    strings = update (update s.strings s.next (some [])) (s.next + 1) (some []);
  }

  abbrev pub arrived : Registry h → List ℕ → List ℕ → Registry h
  arrived s k text = record s {
    next = s.next + 1 + 1;
    strings =
        update
          (update (update (update s.strings s.next (some [])) (s.next + 1) (some [])) (s.next + 1)
            (some k))
          s.next (some text);
  }

  pub arrived_token :
      (s : Registry h) (k text : List ℕ) → (arrived s k text).strings (s.next + 1) ≡ some k
  arrived_token s k text = ground arith

  pub arrived_id :
      (s : Registry h) (k text : List ℕ) → (arrived s k text).strings s.next ≡ some text
  arrived_id s k text = ground arith

  -- A turn goes on with the peer, whatever the insertion answers, when the table can be printed.
  abbrev pub printed : Peer → Result (Unit {0} × Registry h) → Result (Option Peer × Registry h)
  printed r (ok a) = ok (some r, a.1)
  printed r (fault e) = fault e

  abbrev pub answered : Peer → Result (Bool × Registry h) → Result (Option Peer × Registry h)
  answered r (ok a) = printed r (awaiting_connections_table_print_all h a.1)
  answered r (fault e) = fault e

  printed_lem :
      (r : Peer) (i : Result (Unit {0} × Registry h))
      → (elim i [ ok (x, w) ↦ ok (some r, w) | fault e ↦ fault e ]) ≡ printed r i
  printed_lem r (ok a) = refl
  printed_lem r (fault e) = refl

  answered_lem :
      (r : Peer) (i : Result (Bool × Registry h))
      → (elim i [
        | ok (x, w) ↦ elim (awaiting_connections_table_print_all h w) [
          | ok (y, v) ↦ ok (some r, v)
          | fault e ↦ fault e
        ]
        | fault e ↦ fault e
      ])
        ≡ answered r i
  answered_lem r (ok a) = printed_lem r (awaiting_connections_table_print_all h a.1)
  answered_lem r (fault e) = refl

  module _ (s : Registry h) where
    take_id_lem :
        (v : Registry h) (now token id : ℕ) (r : Peer) (name : List ℕ)
        → 0 < length name
        → take_id h now token id (name, r) v
          ≡ answered r (
              awaiting_connections_table_insert h now token id
                (record v { strings = update v.strings id (some (c_string name)) }))
    unfolding take_id store_string
    take_id_lem v now token id r [] a = absurd (omega arith)
    take_id_lem v now token id r (b ∷ name) a = answered_lem r (
        awaiting_connections_table_insert h now token id
          (record v { strings = update v.strings id (some (c_string (b ∷ name))) }))

    take_token_lem :
        (v : Registry h) (now token id : ℕ) (q : Peer) (code : List ℕ)
        → 0 < length code
        → take_token h now token id (code, q) v
          ≡ take_id h now token id
              (read_socket q id_size)
              (record v { strings = update v.strings token (some (c_string code)) })
    unfolding take_token store_string
    take_token_lem v now token id q [] a = absurd (omega arith)
    take_token_lem v now token id q (b ∷ code) a = refl

    receive_round_lem :
        (now : ℕ) (p q r : Peer) (code name : List ℕ)
        → read_socket p token_size ≡ (code, q)
        → read_socket q id_size ≡ (name, r)
        → 0 < length code
        → 0 < length name
        → receive_round h now p s
          ≡ answered r (
              awaiting_connections_table_insert h now
                (s.next + 1)
                s.next
                (arrived s (c_string code) (c_string name)))
    unfolding receive_round alloc_string
    receive_round_lem now p q r code name e f a b =
        let id = s.next in
        let token = s.next + 1 in
        let v : Registry h = blank s in
        let w : Registry h = record v { strings = update v.strings token (some (c_string code)) } in
        ap (λ (o : List ℕ × Peer). take_token h now token id o v) e
        ∙ take_token_lem v now token id q code a
        ∙ ap (λ (o : List ℕ × Peer). take_id h now token id o w) f
        ∙ take_id_lem w now token id r name b

    -- What a turn reads off the input of a prompt peer.
    unfoldable pub ReadsBoth : (now : ℕ) (p : Peer) → Type 0
    ReadsBoth now p =
        (q : Peer) × (q.input ≡ drop 276 p.input)
        × IsPrompt q
        × (receive_round h now p s
            ≡ answered q (
                awaiting_connections_table_insert h now (s.next + 1) s.next (
                  arrived s (c_string (take 255 p.input)) (c_string (take 21 (drop 255 p.input))))))

    pub receive_round-ReadsBoth :
        (now : ℕ) (p : Peer) → IsPrompt p → 255 < length p.input → ReadsBoth now p
    unfolding ReadsBoth
    receive_round-ReadsBoth now p prompt long =
        let (code_eq, rest_eq, on) = read_socket-IsPrompt p 255 prompt in
        let q = (read_socket p 255).1 in
        let o = read_socket q 21 in
        let (name_eq, left_eq, on') = read_socket-IsPrompt q 21 on in
        let name_eq' : o.0 ≡ take 21 (drop 255 p.input) = name_eq ∙ ap (take 21) rest_eq in
        (
          o.1,
          left_eq ∙ ap (drop 21) rest_eq ∙ drop-drop 255 21 p.input,
          on',
          receive_round_lem now p q o.1 (take 255 p.input) (take 21 (drop 255 p.input))
              (ap (λ (x : List ℕ). (x, q)) code_eq) (ap (λ (x : List ℕ). (x, o.1)) name_eq')
              (omega (arith, length-take 255 p.input))
              (omega (arith, length-take 21 (drop 255 p.input), length-drop 255 p.input)),
        )
