-- ===== src/Maps/Collision/Refinement.antt =====
-- The bitmap implements a set of taken coordinates: any history of toggles gets the answers that
-- the set gives, and leaves the bitmap that stands for the set.
use mmo_backend.Base.{
  ℕ, ◌<◌, ◌≡◌, refl, ◌∙◌, ◌==◌, ltb, if◌then◌else◌, lt→ltb, Bool, true, false, not, ◌&&◌, List, [],
  ◌∷◌, Result, ok, ◌>>=◌, Bool-cases, arith, inl, inr,
}
use mmo_backend.Base.Int.{ℤ, pos, negsuc}
use mmo_backend.Maps.{Map}
use mmo_backend.Maps.Collision.{map_coord_is_walkable, map_check_bounds, map_toggle_coord}
use mmo_backend.Maps.Collision.Grid.{
  IsGrid, Toggled, map_toggle_coord-Toggled, map_toggle_coord-outside,
}

-- Which coordinates are free, on a map of a given size.
pub record FreeSet : Type 0 where
  pub columns : ℕ
  pub rows : ℕ
  pub free : ℕ → ℕ → Bool

pub record Represents (s : FreeSet) (m : Map) : Type 0 where
  pub grid : IsGrid m
  pub width : m.width ≡ s.columns
  pub height : m.height ≡ s.rows
  pub cells :
      (u v : ℕ)
      → u < s.columns
      → v < s.rows
      → map_coord_is_walkable m (pos u) (pos v) ≡ ok (s.free u v)

-- One toggle on the set: refused outside the map, and where a taken coordinate is to be taken.
abbrev pub toggle_free : FreeSet → ℤ → ℤ → Bool → Bool × FreeSet
toggle_free s (pos x) (pos y) disable =
    if ltb x s.columns && ltb y s.rows
    then if disable && not (s.free x y)
      then (false, s)
      else (true, record s { free = λ u v. if u == x && v == y then not disable else s.free u v })
    else (false, s)
toggle_free s _ _ disable = (false, s)

pub record Toggle : Type 0 where
  pub x : ℤ
  pub y : ℤ
  pub disable : Bool

pub run_free : FreeSet → List Toggle → List Bool × FreeSet
run_free s [] = ([], s)
run_free s (t ∷ ts) =
    let (answer, s') = toggle_free s t.x t.y t.disable in
    let (answers, final) = run_free s' ts in (answer ∷ answers, final)

pub run_toggles : Map → List Toggle → Result (List Bool × Map)
run_toggles m [] = ok ([], m)
run_toggles m (t ∷ ts) =
    map_toggle_coord m t.x t.y t.disable >>= λ r. run_toggles r.1 ts >>= λ q. ok (r.0 ∷ q.0, q.1)

-- The answer and the map stand for an answer and a set.
pub record Answers {A : Type 0} (expected : A × FreeSet) (result : Result (A × Map)) : Type 0 where
  pub after : Map
  pub returns : result ≡ ok (expected.0, after)
  pub represents : Represents expected.1 after

module _ (s : FreeSet) (m : Map) (x y : ℕ) (d : Bool) (r : Represents s m) (hx : x < s.columns)
    (hy : y < s.rows) where
  toggled : Toggled m x y d (map_toggle_coord m (pos x) (pos y) d)
  toggled =
      map_toggle_coord-Toggled m x y r.grid (omega (arith, r.width)) (omega (arith, r.height)) d

  was_free : toggled.was ≡ s.free x y
  was_free = ground (arith, toggled.before, r.cells x y)

  after-Represents :
      (f : ℕ → ℕ → Bool)
      → ((u v : ℕ) → f u v ≡ (if u == x && v == y then not d else s.free u v))
      → Represents (record s { free = f }) toggled.after
  after-Represents f h = record {
    grid = toggled.grid;
    width = toggled.same_size.0 ∙ r.width;
    height = toggled.same_size.1 ∙ r.height;
    cells = λ u v hu hv. ground (arith, h u v, r.width, r.height, toggled.cells u v, r.cells u v);
  }

  refused_same :
      (d && not (s.free x y)) ≡ true
      → (u v : ℕ) → s.free u v ≡ (if u == x && v == y then not d else s.free u v)
  refused_same h u v = ground arith

  toggle_inside : Answers (toggle_free s (pos x) (pos y) d) (map_toggle_coord m (pos x) (pos y) d)
  toggle_inside = elim (Bool-cases (d && not (s.free x y))) [
    | inl refused ↦ record {
      after = toggled.after;
      returns = ground (arith, toggled.returns, was_free);
      represents =
          rw (lt→ltb x s.columns hx, lt→ltb y s.rows hy, refused)
            (after-Represents s.free (refused_same refused));
    }
    | inr changed ↦ record {
      after = toggled.after;
      returns = ground (arith, toggled.returns, was_free);
      represents =
          rw (lt→ltb x s.columns hx, lt→ltb y s.rows hy, changed)
            (after-Represents _ (λ u v. refl));
    }
  ]

inside_lt :
    (s : FreeSet) (m : Map) (x y : ℤ)
    → Represents s m
    → map_check_bounds m x y ≡ true
    → (a b : ℕ) × (x ≡ pos a) × (y ≡ pos b) × (a < s.columns) × (b < s.rows)
unfolding map_check_bounds
inside_lt s m (pos a) (pos b) r h =
    (a, b, refl, refl, ground (arith, r.width), ground (arith, r.height))
inside_lt s m (pos a) (negsuc b) r h = absurd (ground arith)
inside_lt s m (negsuc a) y r h = absurd (ground arith)

outside_refused :
    (s : FreeSet) (m : Map) (x y : ℤ) (d : Bool)
    → Represents s m
    → map_check_bounds m x y ≡ false
    → toggle_free s x y d ≡ (false, s)
unfolding map_check_bounds
outside_refused s m (pos a) (pos b) d r h = ground (arith, r.width, r.height)
outside_refused s m (pos a) (negsuc b) d r h = refl
outside_refused s m (negsuc a) y d r h = refl

-- On a bitmap that represents a set of free coordinates, one toggle at any coordinate gives the
-- answer of that set, and leaves a bitmap that represents the set that is left.
pub map_toggle_coord-Answers :
    (s : FreeSet) (m : Map) (x y : ℤ) (d : Bool)
    → Represents s m
    → Answers (toggle_free s x y d) (map_toggle_coord m x y d)
map_toggle_coord-Answers s m x y d r = elim (Bool-cases (map_check_bounds m x y)) [
  | inl inside ↦
      let (a, b, ea, eb, ha, hb) = inside_lt s m x y r inside in
      rw (ea, eb) (toggle_inside s m a b d r ha hb)
  | inr outside ↦
      rw (outside_refused s m x y d r outside, map_toggle_coord-outside m x y d outside)
        (record { after = m; returns = refl; represents = r })
]

-- On a bitmap that represents a set of free coordinates, any history of toggles, at coordinates
-- on the map or not, gives the answers of that set, faults nowhere, and leaves a bitmap that
-- represents the set that is left.
pub run_toggles-Answers :
    (s : FreeSet) (m : Map) (ts : List Toggle)
    → Represents s m
    → Answers (run_free s ts) (run_toggles m ts)
unfolding run_free run_toggles
run_toggles-Answers s m [] r = record { after = m; returns = refl; represents = r }
run_toggles-Answers s m (t ∷ ts) r =
    let one = map_toggle_coord-Answers s m t.x t.y t.disable r in
    let rest =
      run_toggles-Answers (toggle_free s t.x t.y t.disable).1 one.after ts one.represents in
    record {
      after = rest.after;
      returns = rw (one.returns, rest.returns);
      represents = rest.represents;
    }
