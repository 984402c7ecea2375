-- ===== src/World/Keeps/Bitmaps.antt =====
-- The maps that the operations make and change are sound.
use mmo_backend.Base.{
  ℕ, zero, suc, ◌<◌, ◌≡◌, refl, ap, sym, ◌∙◌, Bool, false, List, ok, arith, subst, dec_lt, length,
  get_elem?,
}
use mmo_backend.Base.Int.{ℤ, pos, negsuc}
use mmo_backend.Maps.{Map, map_create, map_count, map_def_test_tile, map_def_test_tile_2}
use mmo_backend.Maps.Collision.{map_toggle_coord, map_check_bounds}
use mmo_backend.Maps.Collision.Grid.{Toggled, map_toggle_coord-Toggled, map_toggle_coord-outside}
use mmo_backend.Maps.Collision.Create.{create-IsGrid}
use mmo_backend.World.Loading.{map_loader}
use mmo_backend.World.Keeps.{IsSound}

-- Soundness is a matter of the bitmap, the size and the number.
pub IsSound-same :
    (m n : Map)
    → n.width ≡ m.width
    → n.height ≡ m.height
    → n.id ≡ m.id
    → n.collision ≡ m.collision
    → IsSound m
    → IsSound n
IsSound-same m n w h i c s = record {
  grid = record {
    aligned = ground (arith, s.grid.aligned);
    rows = ap length c ∙ s.grid.rows ∙ sym h;
    columns = λ y row e.
        s.grid.columns y row (ap (λ (z : List (List ℕ)). get_elem? z y) (sym c) ∙ e) ∙ ground arith;
    bytes = λ y j b row e t.
        s.grid.bytes y j b row (ap (λ (z : List (List ℕ)). get_elem? z y) (sym c) ∙ e) t;
  };
  number = ground (arith, s.number);
}

toggled-IsSound :
    (m n : Map) (x y : ℕ) (d b : Bool)
    → IsSound m
    → Toggled m x y d (map_toggle_coord m (pos x) (pos y) d)
    → map_toggle_coord m (pos x) (pos y) d ≡ ok (b, n)
    → IsSound n
toggled-IsSound m n x y d b s t e =
    let same : n ≡ t.after = ground (arith, t.returns) in
    subst IsSound (sym same) (record {
      grid = t.grid;
      number = subst (λ (k : ℕ). k < map_count) (sym (ap (λ (k : Map). k.id) t.same_rest)) s.number;
    })

refused-IsSound :
    (m n : Map) (x y : ℤ) (d b : Bool)
    → IsSound m
    → map_check_bounds m x y ≡ false
    → map_toggle_coord m x y d ≡ ok (b, n)
    → IsSound n
refused-IsSound m n x y d b s out e =
    let same : m ≡ n = ground (arith, map_toggle_coord-outside m x y d out) in subst IsSound same s

-- Whatever the coordinate, a toggle leaves a sound map.
pub map_toggle_coord-IsSound :
    (m n : Map) (x y : ℤ) (d b : Bool)
    → IsSound m
    → map_toggle_coord m x y d ≡ ok (b, n)
    → IsSound n
unfolding map_check_bounds
map_toggle_coord-IsSound m n (pos u) (pos v) d b s e = elim (dec_lt u m.width) [
  | yes hu ↦ elim (dec_lt v m.height) [
    | yes hv ↦ toggled-IsSound m n u v d b s (map_toggle_coord-Toggled m u v s.grid hu hv d) e
    | no hv ↦ refused-IsSound m n (pos u) (pos v) d b s (ground arith) e
  ]
  | no hu ↦ refused-IsSound m n (pos u) (pos v) d b s (ground arith) e
]
map_toggle_coord-IsSound m n (pos u) (negsuc v) d b s e =
    refused-IsSound m n (pos u) (negsuc v) d b s (ground arith) e
map_toggle_coord-IsSound m n (negsuc u) (pos v) d b s e =
    refused-IsSound m n (negsuc u) (pos v) d b s (ground arith) e
map_toggle_coord-IsSound m n (negsuc u) (negsuc v) d b s e =
    refused-IsSound m n (negsuc u) (negsuc v) d b s (ground arith) e

pub map_loader-IsSound : (i : ℕ) → IsSound (map_loader i)
unfolding map_loader map_def_test_tile map_def_test_tile_2 map_create
map_loader-IsSound zero =
    IsSound-same (map_create 0 32 8) map_def_test_tile refl refl refl refl
      (record { grid = create-IsGrid 0 32 8 refl; number = omega arith })
map_loader-IsSound (suc i) =
    IsSound-same (map_create 1 24 6) map_def_test_tile_2 refl refl refl refl
      (record { grid = create-IsGrid 1 24 6 refl; number = omega arith })
