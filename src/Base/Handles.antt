-- ===== src/Base/Handles.antt =====
-- Things that are given out and taken back: objects of a library, blocks of memory, descriptors.
use Prim.Native.Nat.{ℕ, ◌+◌}
use mathlib.Core.Bool.{Bool, true, false}
use mathlib.Core.Option.{Option, none, some}
use mathlib.Core.List.{List, [], ◌∷◌}
use mmo_backend.Base.Compare.{◌==◌, if◌then◌else◌}
use mmo_backend.Base.Faults.{ok, fault, dangling}
use mmo_backend.Base.Actions.{Action}

-- `live` are those that are not taken back yet, the newest first.
pub record Handles : Type 0 where
  pub next : ℕ
  pub live : List ℕ

-- A new object, if the call succeeds.
unfoldable pub acquire : Bool → Action Handles (Option ℕ)
acquire true h = ok (some h.next, record { next = h.next + 1; live = h.next ∷ h.live })
acquire false h = ok (none, h)

-- The list without the object, if that is alive.
unfoldable pub take_out : ℕ → List ℕ → Option (List ℕ)
take_out a [] = none
take_out a (b ∷ live) =
    let rest = take_out a live in
    if a == b then some live else elim rest [ none ↦ none | some others ↦ some (b ∷ others) ]

-- What destroys an object leaves a null pointer alone.
unfoldable pub release : Option ℕ → Action Handles (Unit {0})
release none h = ok (tt, h)
release (some a) h = elim (take_out a h.live) [
  | some live ↦ ok (tt, record h { live = live })
  | none ↦ fault dangling
]
