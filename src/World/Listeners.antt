-- ===== src/World/Listeners.antt =====
-- A player's move changes nothing about who is told of a change on a map.
use mmo_backend.Base.{
  ℕ, ◌≡◌, ◌≢◌, refl, ap, ◌∙◌, Option, none, some, List, [], ◌∷◌, arith, ℕ_discrete,
}
use mmo_backend.Base.Int.{ℤ}
use mmo_backend.Maps.{Map}
use mmo_backend.World.State.{World, Player, update}
use mmo_backend.World.Sending.{
  AllListen, Listens, silent, hears, recipients, session_fd, fd_at, add_fd,
}

module _ (w : World) (player : ℕ) (p : Player) (at : w.players player ≡ some p) (x y : ℤ)
    (maps : ℕ → Option Map) where
  abbrev p' : Player
  p' = record p { x = x; y = y }

  abbrev after : World
  after = record w { maps = maps; players = update w.players player (some p') }

  same_fd : (b : ℕ) → fd_at after b ≡ fd_at w b
  same_fd b = ground arith

  pub recipients-moved : (players : List ℕ) → recipients after players ≡ recipients w players
  recipients-moved [] = refl
  recipients-moved (b ∷ players) =
      ap (λ (f : Option ℕ). add_fd f (recipients after players)) (same_fd b)
      ∙ ap (add_fd (fd_at w b)) (recipients-moved players)

  Listens-moved : (b : ℕ) → Listens w b → Listens after b
  Listens-moved b (silent q e n) = elim (ℕ_discrete player b) [
    | yes same ↦ silent p' (ground arith) (ground (arith, e, n))
    | no ne ↦ silent q (ground arith) n
  ]
  Listens-moved b (hears q s t e n f) = elim (ℕ_discrete player b) [
    | yes same ↦ hears p' s t (ground arith) (ground (arith, e, n)) f
    | no ne ↦ hears q s t (ground arith) n f
  ]

  pub AllListen-moved : (players : List ℕ) → AllListen w players → AllListen after players
  AllListen-moved [] l = tt
  AllListen-moved (b ∷ players) (l, ls) = (Listens-moved b l, AllListen-moved players ls)

-- The same, for any change of the server that keeps the sessions, the player's own among them.
module _ (w v : World) (player : ℕ) (p p' : Player) (at : w.players player ≡ some p)
    (at' : v.players player ≡ some p') (session_eq : p'.session ≡ p.session)
    (others : (b : ℕ) → player ≢ b → v.players b ≡ w.players b)
    (sessions_eq : v.sessions ≡ w.sessions) where
  same_session_fd : (s : Option ℕ) → session_fd v s ≡ session_fd w s
  same_session_fd none = refl
  same_session_fd (some s) = rw sessions_eq refl

  abbrev fd_of : World → Option Player → Option ℕ
  fd_of u q = elim q as (λ q. Option ℕ) [ none ↦ none | some r ↦ session_fd u r.session ]

  same_fd_of : (q : Option Player) → fd_of v q ≡ fd_of w q
  same_fd_of none = refl
  same_fd_of (some q) = same_session_fd q.session

  fd_at-replaced : (b : ℕ) → fd_at v b ≡ fd_at w b
  fd_at-replaced b = elim (ℕ_discrete player b) [
    | yes same ↦ ground (arith, at, at', session_eq, same_session_fd p.session)
    | no ne ↦ ap (fd_of v) (others b ne) ∙ same_fd_of (w.players b)
  ]

  pub recipients-replaced : (players : List ℕ) → recipients v players ≡ recipients w players
  recipients-replaced [] = refl
  recipients-replaced (b ∷ players) =
      ap (λ (f : Option ℕ). add_fd f (recipients v players)) (fd_at-replaced b)
      ∙ ap (add_fd (fd_at w b)) (recipients-replaced players)

  Listens-replaced : (b : ℕ) → Listens w b → Listens v b
  Listens-replaced b (silent q e n) = elim (ℕ_discrete player b) [
    | yes same ↦ silent p' (ground arith) (ground (arith, e, n))
    | no ne ↦ silent q (others b ne ∙ e) n
  ]
  Listens-replaced b (hears q s t e n f) = elim (ℕ_discrete player b) [
    | yes same ↦ hears p' s t (ground arith) (ground (arith, e, n)) (rw sessions_eq f)
    | no ne ↦ hears q s t (others b ne ∙ e) n (rw sessions_eq f)
  ]

  pub AllListen-replaced : (players : List ℕ) → AllListen w players → AllListen v players
  AllListen-replaced [] l = tt
  AllListen-replaced (b ∷ players) (l, ls) = (Listens-replaced b l, AllListen-replaced players ls)
