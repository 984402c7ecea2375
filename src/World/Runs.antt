-- ===== src/World/Runs.antt =====
-- Whatever sessions come, go and send, the server's state stays well formed.
use mmo_backend.Base.{ℕ, ◌≡◌, Bool, Option, none, some, Result, ok, arith, subst, dec_lt}
use mmo_backend.Base.Int.{ℤ, pos, negsuc}
use mmo_backend.Maps.{Map}
use mmo_backend.Maps.Collision.{map_toggle_coord, map_check_bounds}
use mmo_backend.Maps.Collision.Grid.{map_toggle_coord-Toggled, map_toggle_coord-outside}
use mmo_backend.Packet.{Packet}
use mmo_backend.World.State.{World, M, load_session}
use mmo_backend.World.Loading.{free_depth}
use mmo_backend.World.Handlers.{Services}
use mmo_backend.World.Sessions.{session_create, session_destroy, session_alloc, give_up}
use mmo_backend.World.EventLoop.{event_loop_round}
use mmo_backend.World.Keeps.{
  IsSound, IsWellFormed, Leaves, Keeps, keeps_rules, Keeps-pure, Keeps-bind, Keeps-then, Keeps-step,
  Keeps-load_session,
}
use mmo_backend.World.Keeps.Lifetime.{Keeps-player_free}
use mmo_backend.World.Keeps.Handling.{KeepsState, Keeps-event_loop_round}

Keeps-give_up : (player : Option ℕ) → Keeps (give_up player)
unfolding give_up
Keeps-give_up none = Keeps-pure tt
Keeps-give_up (some player) = Keeps-player_free free_depth player

Keeps-session_destroy : (session : Option ℕ) → Keeps (session_destroy session)
unfolding session_destroy
Keeps-session_destroy none = Keeps-pure tt
Keeps-session_destroy (some session) =
    Keeps-bind (load_session session) _ (Keeps-load_session session) λ s.
      Keeps-then _ _ (Keeps-give_up s.player)
        (Keeps-step _ (λ w h. record { sound = h.sound; locks = h.locks; tiles = h.tiles }))

Keeps-session_alloc : (fd : ℕ) → Keeps (session_alloc fd)
unfolding session_alloc
Keeps-session_alloc fd = record {
  at = λ w h. record { sound = h.sound; locks = h.locks; tiles = h.tiles };
}

Keeps-session_create : (connected : Bool) (fd : ℕ) → Keeps (session_create connected fd)
unfolding session_create
Keeps-session_create connected fd = search (keeps_rules, Keeps-session_alloc, Keeps-session_destroy)

-- One thread's turn: a new session, a round of a session's loop, or its end.
pub data Step (services : Services) (w v : World) : Type 0 where
  opened :
      (connected : Bool) (fd : ℕ) (made : Option ℕ)
      → session_create connected fd w ≡ ok (made, v)
      → Step services w v
  served :
      (session : ℕ) (packet : Option Packet)
      → event_loop_round services session packet w ≡ ok (tt, v)
      → Step services w v
  closed : (session : Option ℕ) → session_destroy session w ≡ ok (tt, v) → Step services w v

pub data Reach (services : Services) (w : World) : World → Type 0 where
  here : Reach services w w
  next : {u v : World} → Reach services w u → Step services u v → Reach services w v

left_by :
    {A : Type 0} (m : M A) (k : Keeps m) (w v : World) (a : A)
    → IsWellFormed w
    → m w ≡ ok (a, v)
    → IsWellFormed v
left_by m k w v a h e = subst (λ (r : Result _). Leaves r) e (k.at w h)

module _ (services : Services) (k : KeepsState services) where
  Step-IsWellFormed : {w v : World} → Step services w v → IsWellFormed w → IsWellFormed v
  Step-IsWellFormed {w} {v} (opened connected fd made e) h =
      left_by _ (Keeps-session_create connected fd) w v made h e
  Step-IsWellFormed {w} {v} (served session packet e) h =
      left_by _ (Keeps-event_loop_round services k session packet) w v tt h e
  Step-IsWellFormed {w} {v} (closed session e) h =
      left_by _ (Keeps-session_destroy session) w v tt h e

  -- In every state that is reached from a well-formed one by sessions that are created, served
  -- packets and destroyed, with services that keep the server well formed, every map that is
  -- there has a bitmap that covers it and a number that is a map's, and there is a lock and a
  -- tile for each number.
  pub Reach-IsWellFormed : {w v : World} → Reach services w v → IsWellFormed w → IsWellFormed v
  Reach-IsWellFormed here h = h
  Reach-IsWellFormed (next r s) h = Step-IsWellFormed s (Reach-IsWellFormed r h)

map_toggle_coord-total :
    (m : Map) (x y : ℤ) (d : Bool)
    → IsSound m
    → (b : Bool) × (n : Map) × (map_toggle_coord m x y d ≡ ok (b, n))
unfolding map_check_bounds
map_toggle_coord-total m (pos u) (pos v) d s = elim (dec_lt u m.width) [
  | yes hu ↦ elim (dec_lt v m.height) [
    | yes hv ↦ (_, _, (map_toggle_coord-Toggled m u v s.grid hu hv d).returns)
    | no hv ↦ (_, _, map_toggle_coord-outside m (pos u) (pos v) d (ground arith))
  ]
  | no hu ↦ (_, _, map_toggle_coord-outside m (pos u) (pos v) d (ground arith))
]
map_toggle_coord-total m (pos u) (negsuc v) d s =
    (_, _, map_toggle_coord-outside m (pos u) (negsuc v) d (ground arith))
map_toggle_coord-total m (negsuc u) (pos v) d s =
    (_, _, map_toggle_coord-outside m (negsuc u) (pos v) d (ground arith))
map_toggle_coord-total m (negsuc u) (negsuc v) d s =
    (_, _, map_toggle_coord-outside m (negsuc u) (negsuc v) d (ground arith))

-- In every state that is reached from a well-formed one by sessions that are created, served
-- packets and destroyed, with services that keep the server well formed, enabling or disabling
-- any coordinate of any map that is there, inside it or not, is no fault.
pub Reach-map_toggle_coord :
    (services : Services) (k : KeepsState services) (w v : World)
    → Reach services w v
    → IsWellFormed w
    → (a : ℕ) (m : Map) → v.maps a ≡ some m
    → (x y : ℤ) (d : Bool) → (b : Bool) × (n : Map) × (map_toggle_coord m x y d ≡ ok (b, n))
Reach-map_toggle_coord services k w v r h a m e x y d =
    map_toggle_coord-total m x y d ((Reach-IsWellFormed services k r h).sound a m e)
