-- ===== src/Maps/Collision/Create.antt =====
-- The bitmap of a new map: all free when the width is a multiple of eight, and short of a segment
-- when it is not.
use mmo_backend.Base.{
  ℕ, zero, suc, ◌*◌, ◌/◌, ◌%◌, ◌<◌, ◌≤◌, ◌≡◌, refl, ap, ◌∙◌, Bool, true, List, length, get_elem?,
  replicate, some, none, ok, fault, out_of_bounds, get_elem?-replicate, length-replicate,
  get_elem?-lt, arith, subst,
}
use mmo_backend.Base.Int.{pos}
use mmo_backend.Maps.{map_create, map_get_segments}
use mmo_backend.Maps.Collision.{map_coord_is_walkable, map_toggle_coord, bit_of}
use mmo_backend.Maps.Collision.Grid.{IsGrid}
use mmo_backend.Maps.Collision.Refinement.{Represents}
use mmo_backend.Maps.Collision.Segments.{zero-clear}

replicate-eq : {A : Type 0} (n i : ℕ) (a b : A) → get_elem? (replicate n a) i ≡ some b → b ≡ a
replicate-eq n i a b e =
    let h = get_elem?-lt (replicate n a) i b e in
    ground (arith, get_elem?-replicate n i a (omega (arith, length-replicate n a)))

pub create-IsGrid : (id w h : ℕ) → w % 8 ≡ 0 → IsGrid (map_create id w h)
unfolding map_create
create-IsGrid id w h e = record {
  aligned = e;
  rows = length-replicate h _;
  columns = λ y row r. ap length (replicate-eq h y _ row r) ∙ length-replicate (w / 8) 0;
  bytes = λ y i s row r t.
      let z =
        replicate-eq (w / 8) i 0 s
          (subst (λ (q : List ℕ). get_elem? q i ≡ some s) (replicate-eq h y _ row r) t) in
      omega arith;
}

create_cells :
    (id w h u v : ℕ)
    → w % 8 ≡ 0
    → u < w
    → v < h
    → map_coord_is_walkable (map_create id w h) (pos u) (pos v) ≡ ok true
unfolding map_create map_coord_is_walkable map_get_segments bit_of
create_cells id w h u v e hu hv =
    rw
      (
        get_elem?-replicate h v (replicate {A = ℕ} (w / 8) 0) hv,
        get_elem?-replicate {A = ℕ} (w / 8) (u / 8) 0 (omega arith),
      )
      (rw (zero-clear (u % 8) (omega arith)))

-- A new map whose width is a multiple of eight represents the set in which every coordinate is
-- free.
pub map_create-Represents :
    (id w h : ℕ)
    → w % 8 ≡ 0
    → Represents (record { columns = w; rows = h; free = λ u v. true }) (map_create id w h)
map_create-Represents id w h e = record {
  grid = create-IsGrid id w h e;
  width = unfold map_create in refl;
  height = unfold map_create in refl;
  cells = λ u v hu hv. create_cells id w h u v e hu hv;
}

replicate_past : {A : Type 0} (n i : ℕ) (a : A) → n ≤ i → get_elem? (replicate n a) i ≡ none
replicate_past zero i a h = refl
replicate_past (suc n) zero a h = absurd (omega arith)
replicate_past (suc n) (suc i) a h = replicate_past n i a (omega arith)

-- On a new map, a toggle at a coordinate of the map that lies in the columns behind the last
-- whole segment is an access out of bounds.
pub map_create-out_of_bounds :
    (id w h x y : ℕ) (d : Bool)
    → w / 8 * 8 ≤ x
    → x < w
    → y < h
    → map_toggle_coord (map_create id w h) (pos x) (pos y) d ≡ fault out_of_bounds
unfolding map_create map_coord_is_walkable map_get_segments map_toggle_coord
map_create-out_of_bounds id w h x y d past hx hy = ground (
  arith,
  get_elem?-replicate h y (replicate {A = ℕ} (w / 8) 0) hy,
  replicate_past {A = ℕ} (w / 8) (x / 8) 0 (omega arith),
)
