-- ===== src/Listening/Sockets.antt =====
-- Which socket is listened on.
use mmo_backend.Base.{
  ℕ, ◌+◌, ◌≡◌, refl, ap, ◌∙◌, Bool, true, false, ◌&&◌, ◌||◌, Option, none, some, List, [], ◌∷◌, ok,
  arith, Bool-cases, inl, inr, Result,
}
use mmo_backend.Base.Handles.{Handles, acquire, release, take_out}
use mmo_backend.Listening.{Address, bind_first, listen_on, open_listenfd, is_open}

-- Whether some address has a socket that can be bound.
abbrev pub usable : List Address → Bool
usable [] = false
usable (p ∷ rest) = (p.opens && p.binds) || usable rest

abbrev pub with_socket : Option ℕ → List ℕ → List ℕ
with_socket none live = live
with_socket (some fd) live = fd ∷ live

-- A socket or none, with no other descriptor left open.
pub record Opens (can : Bool) (h : Handles) (result : Result (Option ℕ × Handles)) : Type 0 where
  pub socket : Option ℕ
  pub next : ℕ
  pub returns : result ≡ ok (socket, record { next = next; live = with_socket socket h.live })
  pub found : is_open socket ≡ can

bind_first-Opens : (ps : List Address) (h : Handles) → Opens (usable ps) h (bind_first ps h)
unfolding bind_first acquire release take_out
bind_first-Opens [] h = record { socket = none; next = h.next; returns = refl; found = refl }
bind_first-Opens (p ∷ ps) h = elim (Bool-cases p.opens) [
  | inr closed ↦
      let r = bind_first-Opens ps h in
      record {
        socket = r.socket;
        next = r.next;
        returns = ground (arith, closed, r.returns);
        found = ground (arith, closed, r.found);
      }
  | inl opened ↦ elim (Bool-cases p.binds) [
    | inl bound ↦ record {
      socket = some h.next;
      next = h.next + 1;
      returns = ground (arith, opened, bound);
      found = ground (arith, opened, bound);
    }
    | inr refused ↦
        let r = bind_first-Opens ps (record h { next = h.next + 1 }) in
        record {
          socket = r.socket;
          next = r.next;
          returns = ground (arith, opened, refused, r.returns);
          found = ground (arith, opened, refused, r.found);
        }
  ]
]

listen_on-Opens :
    (listens : Bool) (socket : Option ℕ) (next : ℕ) (h : Handles)
    → Opens
        (is_open socket && listens)
        h
        (listen_on listens socket (record { next = next; live = with_socket socket h.live }))
unfolding listen_on release take_out
listen_on-Opens listens none next h = record {
  socket = none;
  next = next;
  returns = refl;
  found = refl;
}
listen_on-Opens true (some fd) next h = record {
  socket = some fd;
  next = next;
  returns = refl;
  found = refl;
}
listen_on-Opens false (some fd) next h = record {
  socket = none;
  next = next;
  returns = ground arith;
  found = refl;
}

-- Whatever the kernel answers, open_listenfd ends without a fault; it gives a socket just when an
-- address of the list has a socket that can be bound, and listening on the socket that was bound
-- succeeds; and of the descriptors that it opened only the socket that it gives is open.
pub open_listenfd-Opens :
    (addresses : List Address) (listens : Bool) (h : Handles)
    → Opens (usable addresses && listens) h (open_listenfd addresses listens h)
unfolding open_listenfd
open_listenfd-Opens addresses listens h =
    let b = bind_first-Opens addresses h in
    let l = listen_on-Opens listens b.socket b.next h in
    record {
      socket = l.socket;
      next = l.next;
      returns = ground (arith, b.returns, l.returns);
      found = l.found ∙ ap (λ (c : Bool). c && listens) b.found;
    }
