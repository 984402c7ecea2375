-- ===== src/Receiver/Tickets.antt =====
-- What the authentication server sends, as tokens and ids, and what waits when it was registered.
use mmo_backend.Base.{
  ℕ, zero, suc, ◌+◌, ◌<◌, ◌≡◌, ◌≢◌, refl, sym, ap, ap₂, ◌∙◌, none, some, List, [], ◌∷◌, ◌++◌,
  length, map, take, drop, take_prefix, drop_prefix, append_assoc, length-append, arith, subst,
}
use mmo_backend.Awaiting.Shows.{Waiting, put}
use mmo_backend.Receiver.{c_string}
use mmo_backend.Receiver.Rounds.{token_of, id_of, registered, AllNew}

-- A token, the id sent behind it, and the time of the turn that takes them.
pub record Ticket : Type 0 where
  pub token : List ℕ
  pub id : List ℕ
  pub now : ℕ

abbrev pub NoZero : List ℕ → Type 0
NoZero [] = Unit {0}
NoZero (b ∷ bytes) = (b ≢ 0) × NoZero bytes

-- A token of 255 bytes and an id of 21 bytes, as many as the receiver asks for.
pub record IsTicket (t : Ticket) : Type 0 where
  pub token_size : length t.token ≡ 255
  pub id_size : length t.id ≡ 21
  pub token_text : NoZero t.token
  pub id_text : NoZero t.id

abbrev pub sent_by : List Ticket → List ℕ
sent_by [] = []
sent_by (t ∷ ts) = t.token ++ (t.id ++ sent_by ts)

-- Each token waits with its id until 300 seconds from its turn.
abbrev pub awaited : List Ticket → Waiting → Waiting
awaited [] waiting = waiting
awaited (t ∷ ts) waiting = awaited ts (put waiting t.token (some (t.id, t.now + 300)))

-- No token waits already when it comes.
abbrev pub AllTickets : List Ticket → Waiting → Type 0
AllTickets [] waiting = Unit {0}
AllTickets (t ∷ ts) waiting =
    IsTicket t
    × (waiting t.token ≡ none)
    × AllTickets ts (put waiting t.token (some (t.id, t.now + 300)))

abbrev pub times : List Ticket → List ℕ
times ts = map (λ (t : Ticket). t.now) ts

c_string-NoZero : (bytes : List ℕ) → NoZero bytes → c_string bytes ≡ bytes
c_string-NoZero [] h = refl
c_string-NoZero (zero ∷ bytes) (h, hs) = absurd (h refl)
c_string-NoZero (suc b ∷ bytes) (h, hs) = ap (◌∷◌ (suc b)) (c_string-NoZero bytes hs)

module _ (t : Ticket) (k : IsTicket t) (rest : List ℕ) where
  token_taken : token_of (t.token ++ (t.id ++ rest)) ≡ t.token
  token_taken =
      ap c_string (take_prefix 255 t.token (t.id ++ rest) (sym k.token_size))
      ∙ c_string-NoZero t.token k.token_text

  behind_token : drop 255 (t.token ++ (t.id ++ rest)) ≡ t.id ++ rest
  behind_token = drop_prefix 255 t.token (t.id ++ rest) (sym k.token_size)

  id_taken : id_of (t.token ++ (t.id ++ rest)) ≡ t.id
  id_taken =
      ap (λ (b : List ℕ). c_string (take 21 b)) behind_token
      ∙ ap c_string (take_prefix 21 t.id rest (sym k.id_size))
      ∙ c_string-NoZero t.id k.id_text

  behind_both : drop 276 (t.token ++ (t.id ++ rest)) ≡ rest
  behind_both =
      ap (drop 276) (sym (append_assoc t.token t.id rest))
      ∙ drop_prefix 276 (t.token ++ t.id) rest
          (omega (arith, length-append t.token t.id, k.token_size, k.id_size))

  long_enough : 255 < length (t.token ++ (t.id ++ rest))
  long_enough = omega (
    arith,
    length-append t.token (t.id ++ rest),
    length-append t.id rest,
    k.token_size,
    k.id_size,
  )

  abbrev found_put : Waiting → Waiting
  found_put waiting =
      put waiting (token_of (t.token ++ (t.id ++ rest)))
        (some (id_of (t.token ++ (t.id ++ rest)), t.now + 300))

  put_same :
      (waiting : Waiting) → found_put waiting ≡ put waiting t.token (some (t.id, t.now + 300))
  put_same waiting =
      ap₂ (λ (a b : List ℕ). put waiting a (some (b, t.now + 300))) token_taken id_taken

-- The turns find such tokens and ids, each a new token.
pub tickets-AllNew :
    (ts : List Ticket) (waiting : Waiting)
    → AllTickets ts waiting
    → AllNew (times ts) (sent_by ts) waiting
tickets-AllNew [] waiting h = tt
tickets-AllNew (t ∷ ts) waiting (k, vacant, hs) =
    let rest = sent_by ts in
    (
      long_enough t k rest,
      ap waiting (token_taken t k rest) ∙ vacant,
      subst (λ (i : List ℕ). AllNew (times ts) i (found_put t k rest waiting))
          (sym (behind_both t k rest))
          (subst (AllNew (times ts) rest) (sym (put_same t k rest waiting))
            (tickets-AllNew ts _ hs)),
    )

-- What is registered is what was sent.
pub registered-awaited :
    (ts : List Ticket) (waiting : Waiting)
    → AllTickets ts waiting
    → registered (times ts) (sent_by ts) waiting ≡ awaited ts waiting
registered-awaited [] waiting h = refl
registered-awaited (t ∷ ts) waiting (k, vacant, hs) =
    let rest = sent_by ts in
    ap₂ (λ (i : List ℕ) (v : Waiting). registered (times ts) i v) (behind_both t k rest)
      (put_same t k rest waiting)
    ∙ registered-awaited ts _ hs
