-- ===== src/World/State.antt =====
-- The state of the server. A pointer is an address; what was freed is `none`, and reading it is a
-- fault. One operation runs at a time: a lock that is taken twice is a deadlock.
use mmo_backend.Base.{
  ℕ, ◌==◌, if◌then◌else◌, Bool, true, false, Option, none, some, List, ◌∷◌, Result, ok, fault,
  Fault, dangling,
}
use mmo_backend.Base.Int.{ℤ}
use mmo_backend.Maps.{Map}
use mmo_backend.Packet.{Packet, packet_flatten}
use mmo_backend.Session.{State}

pub record Player : Type 0 where
  pub x : ℤ
  pub y : ℤ
  pub modified : Bool
  pub max_move : ℤ
  pub refs : ℤ
  pub map : Option ℕ
  pub session : Option ℕ
  pub name : Option (List ℕ)
  pub id : Option (List ℕ)

pub record Session : Type 0 where
  pub fd : ℕ
  pub state : State
  pub player : Option ℕ

-- `sent` holds the packets that were written, newest first, each with its file descriptor;
-- `closed` the descriptors that were sent a close frame, `saved` the players that were written to the
-- database; `packet_errno` is the global of errors.c.
pub record World : Type 0 where
  pub next : ℕ
  pub maps : ℕ → Option Map
  pub players : ℕ → Option Player
  pub sessions : ℕ → Option Session
  pub tiles : List (Option ℕ)
  pub map_locks : List Bool
  pub cache_lock : Bool
  -- Whether `GLOBAL_CONNECTION` is not a null pointer.
  pub database : Bool
  pub sent : List (ℕ × Packet)
  pub saved : List Player
  pub closed : List ℕ
  pub packet_errno : ℤ

abbrev pub M : Type 0 → Type 0
M A = World → Result (A × World)

abbrev pub pure : {A : Type 0} → A → M A
pure a w = ok (a, w)

abbrev pub fail : {A : Type 0} → Fault → M A
fail e w = fault e

infixl 5 ◌>>=◌ ◌>>◌
abbrev pub ◌>>=◌ : {A B : Type 0} → M A → (A → M B) → M B
◌>>=◌ m f w = elim (m w) [ ok (a, w') ↦ f a w' | fault e ↦ fault e ]

abbrev pub ◌>>◌ : {B : Type 0} → M (Unit {0}) → M B → M B
m >> k = m >>= λ _. k

-- A computation without state, and a pointer or index that must be there.
abbrev pub lift : {A : Type 0} → Result A → M A
lift r w = elim r [ ok a ↦ ok (a, w) | fault e ↦ fault e ]

abbrev pub need : {A : Type 0} → Option A → Fault → M A
need none e w = fault e
need (some a) e w = ok (a, w)

abbrev pub guard : Bool → Fault → M (Unit {0})
guard true e w = ok (tt, w)
guard false e w = fault e

abbrev pub update : {A : Type 0} → (ℕ → A) → ℕ → A → ℕ → A
update f p v q = if p == q then v else f q

abbrev pub get_world : M World
get_world w = ok (w, w)

unfoldable pub load_map : ℕ → M Map
load_map a w = need (w.maps a) dangling w

unfoldable pub store_map : ℕ → Map → M (Unit {0})
store_map a m w = ok (tt, record w { maps = update w.maps a (some m) })

unfoldable pub load_player : ℕ → M Player
load_player a w = need (w.players a) dangling w

unfoldable pub store_player : ℕ → Player → M (Unit {0})
store_player a p w = ok (tt, record w { players = update w.players a (some p) })

unfoldable pub load_session : ℕ → M Session
load_session a w = need (w.sessions a) dangling w

unfoldable pub store_session : ℕ → Session → M (Unit {0})
store_session a s w = ok (tt, record w { sessions = update w.sessions a (some s) })

-- `packet_write` on the socket of a client, whose bytes are the subject of `Packet`.
unfoldable pub write_packet : ℕ → Packet → M (Unit {0})
write_packet fd packet w = elim (packet_flatten packet) [
  | ok _ ↦ ok (tt, record w { sent = (fd, packet) ∷ w.sent })
  | fault e ↦ fault e
]
