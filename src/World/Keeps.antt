-- ===== src/World/Keeps.antt =====
-- What every operation of the server keeps, and a rule for each way to build an operation.
pub mod Bitmaps
pub mod Lifetime
pub mod Occupants
pub mod Places
pub mod Handling
use mmo_backend.Base.{
  ℕ, ◌==◌, ◌<◌, ◌≡◌, refl, Bool, true, false, if◌then◌else◌, Option, none, some, List, length,
  get_elem?, set, length-set, Result, ok, fault, Fault, dangling, arith, subst, ℕ_discrete,
}
use mmo_backend.Maps.{Map, map_count}
use mmo_backend.Maps.Collision.Grid.{IsGrid}
use mmo_backend.Packet.{Packet, packet_flatten}
use mmo_backend.World.State.{
  World, Player, Session, M, pure, fail, ◌>>=◌, ◌>>◌, lift, need, guard, update, get_world,
  load_map, store_map, load_player, store_player, load_session, store_session, write_packet,
}

-- A map whose bitmap covers it, and whose number is that of a map.
pub record IsSound (m : Map) : Type 0 where
  pub grid : IsGrid m
  pub number : m.id < map_count

-- Every map that is there is sound, and there is a lock and a tile for each number.
pub record IsWellFormed (w : World) : Type 0 where
  pub sound : (a : ℕ) (m : Map) → w.maps a ≡ some m → IsSound m
  pub locks : length w.map_locks ≡ map_count
  pub tiles : length w.tiles ≡ map_count

-- The state that a result leaves, if it is no fault, is well formed.
abbrev pub Leaves : {A : Type 0} → Result (A × World) → Type 0
Leaves (ok (a, w)) = IsWellFormed w
Leaves (fault e) = Unit {0}

pub record Keeps {A : Type 0} (m : M A) : Type 0 where
  pub at : (w : World) → IsWellFormed w → Leaves (m w)

pub after :
    {A B : Type 0} (r : Result (A × World)) (f : A → M B)
    → Leaves r
    → ((a : A) → Keeps (f a))
    → Leaves (elim r as (λ r. Result (B × World)) [ ok (a, w') ↦ f a w' | fault e ↦ fault e ])
after (ok (a, w)) f l k = (k a).at w l
after (fault e) f l k = tt

module _ {A : Type 0} where
  pub Keeps-pure : (a : A) → Keeps (pure a)
  Keeps-pure a = record { at = λ w h. h }

  pub Keeps-fail : (e : Fault) → Keeps (fail {A = A} e)
  Keeps-fail e = record { at = λ w h. tt }

  pub Keeps-lift : (r : Result A) → Keeps (lift r)
  Keeps-lift (ok a) = record { at = λ w h. h }
  Keeps-lift (fault e) = record { at = λ w h. tt }

  pub Keeps-need : (o : Option A) (e : Fault) → Keeps (need o e)
  Keeps-need none e = record { at = λ w h. tt }
  Keeps-need (some a) e = record { at = λ w h. h }

  pub Keeps-if : (b : Bool) (m n : M A) → Keeps m → Keeps n → Keeps (if b then m else n)
  Keeps-if true m n km kn = km
  Keeps-if false m n km kn = kn

pub Keeps-bind :
    {A B : Type 0} (m : M A) (f : A → M B) → Keeps m → ((a : A) → Keeps (f a)) → Keeps (m >>= f)
Keeps-bind m f km kf = record { at = λ w h. after (m w) f (km.at w h) kf }

pub Keeps-then : {B : Type 0} (m : M (Unit {0})) (n : M B) → Keeps m → Keeps n → Keeps (m >> n)
Keeps-then m n km kn = Keeps-bind m (λ _. n) km (λ _. kn)

pub Keeps-option :
    {A B : Type 0} (o : Option A) (m : M B) (f : A → M B)
    → Keeps m
    → ((a : A) → Keeps (f a))
    → Keeps (elim o as (λ o. M B) [ none ↦ m | some a ↦ f a ])
Keeps-option none m f km kf = km
Keeps-option (some a) m f km kf = kf a

pub Keeps-guard : (b : Bool) (e : Fault) → Keeps (guard b e)
Keeps-guard true e = record { at = λ w h. h }
Keeps-guard false e = record { at = λ w h. tt }

pub Keeps-get_world : Keeps get_world
Keeps-get_world = record { at = λ w h. h }

-- What is read is sound, which the rest of the block may use.
read_on :
    {B : Type 0} (f : Map → M B) (w : World) (o : Option Map)
    → IsWellFormed w
    → ((m : Map) → o ≡ some m → Keeps (f m))
    → Leaves ((need o dangling >>= f) w)
read_on f w none h k = tt
read_on f w (some m) h k = (k m refl).at w h

pub Keeps-bind-load_map :
    {B : Type 0} (a : ℕ) (f : Map → M B)
    → ((m : Map) → IsSound m → Keeps (f m))
    → Keeps (load_map a >>= f)
unfolding load_map
Keeps-bind-load_map a f k = record {
  at = λ w h. read_on f w (w.maps a) h (λ m e. k m (h.sound a m e));
}

-- A step that changes the state and does nothing else.
pub Keeps-step :
    (f : World → World)
    → ((w : World) → IsWellFormed w → IsWellFormed (f w))
    → Keeps (λ w. ok (tt, f w))
Keeps-step f k = record { at = k }

stored :
    (f : ℕ → Option Map) (a b : ℕ) (m n : Map)
    → IsSound m
    → (f b ≡ some n → IsSound n)
    → update f a (some m) b ≡ some n
    → IsSound n
stored f a b m n s old e = elim (ℕ_discrete a b) [
  | yes same ↦ subst IsSound (let eq : m ≡ n = ground arith in eq) s
  | no ne ↦ old (ground arith)
]

pub Keeps-store_map : (a : ℕ) (m : Map) → IsSound m → Keeps (store_map a m)
unfolding store_map
Keeps-store_map a m s = record {
  at = λ w h. record {
    sound = λ b n e. stored w.maps a b m n s (h.sound b n) e;
    locks = h.locks;
    tiles = h.tiles;
  };
}

pub Keeps-load_player : (a : ℕ) → Keeps (load_player a)
unfolding load_player
Keeps-load_player a = record { at = λ w h. (Keeps-need (w.players a) _).at w h }

pub Keeps-load_session : (a : ℕ) → Keeps (load_session a)
unfolding load_session
Keeps-load_session a = record { at = λ w h. (Keeps-need (w.sessions a) _).at w h }

pub Keeps-store_player : (a : ℕ) (p : Player) → Keeps (store_player a p)
unfolding store_player
Keeps-store_player a p = record {
  at = λ w h. record { sound = h.sound; locks = h.locks; tiles = h.tiles };
}

pub Keeps-store_session : (a : ℕ) (s : Session) → Keeps (store_session a s)
unfolding store_session
Keeps-store_session a s = record {
  at = λ w h. record { sound = h.sound; locks = h.locks; tiles = h.tiles };
}

flat_on :
    (r : Result (List ℕ)) (w v : World)
    → IsWellFormed v
    → Leaves
        (elim r as (λ r. Result (Unit {0} × World)) [ ok body ↦ ok (tt, v) | fault e ↦ fault e ])
flat_on (ok body) w v h = h
flat_on (fault e) w v h = tt

pub Keeps-write_packet : (fd : ℕ) (packet : Packet) → Keeps (write_packet fd packet)
unfolding write_packet
Keeps-write_packet fd packet = record {
  at = λ w h.
      flat_on (packet_flatten packet) w _
        (record { sound = h.sound; locks = h.locks; tiles = h.tiles });
}

pub ruleset keeps_rules = (
  Keeps-pure, Keeps-fail, Keeps-lift, Keeps-need, Keeps-if, Keeps-bind, Keeps-then, Keeps-guard,
  Keeps-get_world, Keeps-option, Keeps-bind-load_map, Keeps-load_player, Keeps-load_session,
  Keeps-store_player, Keeps-store_session, Keeps-write_packet,
)
