-- ===== src/Maps/Collision/Grid.antt =====
-- The bitmap as a grid of coordinates that are free or taken: what each operation does to it.
use mmo_backend.Base.{
  ℕ, ◌^◌, ◌/◌, ◌%◌, ◌<◌, ◌≡◌, ◌≢◌, inl, inr, refl, ap, sym, ◌∙◌, bit_and, ◌==◌, if◌then◌else◌, Bool,
  true, false, not, ◌&&◌, ◌||◌, List, length, get_elem?, set, some, Result, ok, ◌>>=◌, Bool-cases,
  length-set, get_elem?-set_self, get_elem?-set_ne, get_elem?_in, arith, subst, ℕ_discrete,
}
use mmo_backend.Base.Int.{ℤ, pos}
use mmo_backend.Maps.{Map, map_get_segments}
use mmo_backend.Maps.Collision.{
  map_coord_is_walkable, map_check_bounds, map_toggle_coord, toggle_bit, toggle_segment, bit_of,
}
use mmo_backend.Maps.Collision.Segments.{toggle_bit-clear, toggle_bit-lt}

-- The bitmap covers the map: a row for each y, a bit for each x, every segment a byte.
pub record IsGrid (m : Map) : Type 0 where
  pub aligned : m.width % 8 ≡ 0
  pub rows : length m.collision ≡ m.height
  pub columns :
      (y : ℕ) (row : List ℕ) → get_elem? m.collision y ≡ some row → length row ≡ m.width / 8
  pub bytes :
      (y i s : ℕ) (row : List ℕ)
      → get_elem? m.collision y ≡ some row
      → get_elem? row i ≡ some s
      → s < 256

walkable_at :
    (m : Map) (u v s : ℕ) (row : List ℕ)
    → get_elem? m.collision v ≡ some row
    → get_elem? row (u / 8) ≡ some s
    → map_coord_is_walkable m (pos u) (pos v) ≡ ok (bit_and s (2 ^ (u % 8)) == 0)
unfolding map_coord_is_walkable map_get_segments bit_of
walkable_at m u v s row r t = ground arith

-- The segment that holds a coordinate of the map.
record Segment (m : Map) (x y : ℕ) : Type 0 where
  row : List ℕ
  byte : ℕ
  row_eq : get_elem? m.collision y ≡ some row
  byte_eq : get_elem? row (x / 8) ≡ some byte
  in_row : x / 8 < length row

Segment-of : (m : Map) (x y : ℕ) → IsGrid m → x < m.width → y < m.height → Segment m x y
Segment-of m x y g hx hy = record {
  row = row.0;
  byte = byte.0;
  row_eq = row.1;
  byte_eq = byte.1;
  in_row = fits;
}
  where
    row : (r : List ℕ) × (get_elem? m.collision y ≡ some r)
    row = get_elem?_in m.collision y (omega (arith, g.rows))

    fits : x / 8 < length row.0
    fits = omega (arith, g.columns y row.0 row.1, g.aligned)

    byte : (s : ℕ) × (get_elem? row.0 (x / 8) ≡ some s)
    byte = get_elem?_in row.0 (x / 8) fits

-- Writing one byte into the bitmap.
abbrev write_byte : Map → ℕ → List ℕ → ℕ → ℕ → Map
write_byte m y row i b = record m { collision = set m.collision y (set row i b) }

toggle_segment_at :
    (m : Map) (x y : ℕ) (d : Bool) (s : Segment m x y)
    → toggle_segment m (pos x) (pos y) d
      ≡ ok (write_byte m y s.row (x / 8) (toggle_bit d s.byte (2 ^ (x % 8))))
unfolding toggle_segment map_get_segments bit_of
toggle_segment_at m x y d s = ground (arith, s.row_eq, s.byte_eq)

module _ (m : Map) (x y : ℕ) (d : Bool) (g : IsGrid m) (hx : x < m.width) (hy : y < m.height)
    (s : Segment m x y) where
  abbrev written : Map
  written = write_byte m y s.row (x / 8) (toggle_bit d s.byte (2 ^ (x % 8)))

  row_written :
      get_elem? written.collision y ≡ some (set s.row (x / 8) (toggle_bit d s.byte (2 ^ (x % 8))))
  row_written = get_elem?-set_self m.collision y _ (omega (arith, g.rows))

  abbrev byte' : ℕ
  byte' = toggle_bit d s.byte (2 ^ (x % 8))

  other_row : (v : ℕ) → v ≢ y → get_elem? written.collision v ≡ get_elem? m.collision v
  other_row v ne = get_elem?-set_ne m.collision y v _ (λ e. ne (sym e))

  written_columns :
      (v : ℕ) (row : List ℕ) → get_elem? written.collision v ≡ some row → length row ≡ m.width / 8
  written_columns v row e = elim (ℕ_discrete v y) [
    | yes p ↦
        ground (arith, row_written, length-set s.row (x / 8) byte', g.columns y s.row s.row_eq)
    | no ne ↦ g.columns v row (sym (other_row v ne) ∙ e)
  ]

  byte_written : get_elem? (set s.row (x / 8) byte') (x / 8) ≡ some byte'
  byte_written = get_elem?-set_self s.row (x / 8) byte' s.in_row

  written_row_bytes : (i b : ℕ) → get_elem? (set s.row (x / 8) byte') i ≡ some b → b < 256
  written_row_bytes i b t = elim (ℕ_discrete i (x / 8)) [
    | yes p ↦ ground (arith, byte_written, toggle_bit-lt d s.byte (2 ^ (x % 8)))
    | no ne ↦
        g.bytes y i b s.row s.row_eq
          (sym (get_elem?-set_ne s.row (x / 8) i byte' (λ e. ne (sym e))) ∙ t)
  ]

  written_bytes :
      (v i b : ℕ) (row : List ℕ)
      → get_elem? written.collision v ≡ some row
      → get_elem? row i ≡ some b
      → b < 256
  written_bytes v i b row e t = elim (ℕ_discrete v y) [
    | yes p ↦
        let same_row : row ≡ set s.row (x / 8) byte' = ground (arith, row_written) in
        written_row_bytes i b (subst (λ (r : List ℕ). get_elem? r i ≡ some b) same_row t)
    | no ne ↦ g.bytes v i b row (sym (other_row v ne) ∙ e) t
  ]

  written-IsGrid : IsGrid written
  written-IsGrid = record {
    aligned = g.aligned;
    rows = length-set m.collision y _ ∙ g.rows;
    columns = written_columns;
    bytes = written_bytes;
  }

  -- In the written row the cell of `x` is decided, and every other cell is as it was.
  written_row_cell :
      (u : ℕ)
      → u < m.width
      → map_coord_is_walkable written (pos u) (pos y)
        ≡ (if u == x then ok (not d) else map_coord_is_walkable m (pos u) (pos y))
  written_row_cell u hu = elim (ℕ_discrete (u / 8) (x / 8)) [
    | yes e ↦ ground (
      arith,
      walkable_at written u y byte' _ row_written (ap (get_elem? _) e ∙ byte_written),
      walkable_at m u y s.byte s.row s.row_eq (ap (get_elem? s.row) e ∙ s.byte_eq),
      toggle_bit-clear d s.byte (x % 8) (u % 8) (g.bytes y (x / 8) s.byte s.row s.row_eq s.byte_eq),
    )
    | no ne ↦
        let su = Segment-of m u y g hu hy in
        let same_row : su.row ≡ s.row = ground (arith, su.row_eq, s.row_eq) in
        let kept : get_elem? s.row (u / 8) ≡ some su.byte =
          subst (λ (r : List ℕ). get_elem? r (u / 8) ≡ some su.byte) same_row su.byte_eq in
        ground (
          arith,
          walkable_at written u y su.byte _ row_written
              (get_elem?-set_ne s.row (x / 8) (u / 8) byte' (λ e. ne (sym e)) ∙ kept),
          walkable_at m u y su.byte su.row su.row_eq su.byte_eq,
        )
  ]

  written_cell :
      (u v : ℕ)
      → u < m.width
      → v < m.height
      → map_coord_is_walkable written (pos u) (pos v)
        ≡ (if u == x && v == y then ok (not d) else map_coord_is_walkable m (pos u) (pos v))
  written_cell u v hu hv = elim (ℕ_discrete v y) [
    | yes e ↦ ground (arith, written_row_cell u hu)
    | no ne ↦
        let su = Segment-of m u v g hu hv in
        ground (
          arith,
          walkable_at written u v su.byte su.row (other_row v ne ∙ su.row_eq) su.byte_eq,
          walkable_at m u v su.byte su.row su.row_eq su.byte_eq,
        )
  ]

-- A coordinate of the map after a toggle: the call's answer, and what every cell is then.
pub record Toggled (m : Map) (x y : ℕ) (d : Bool) (result : Result (Bool × Map)) : Type 0 where
  pub was : Bool
  pub before : map_coord_is_walkable m (pos x) (pos y) ≡ ok was
  pub after : Map
  pub returns : result ≡ ok (not d || was, after)
  pub same_size : (after.width ≡ m.width) × (after.height ≡ m.height)
  pub same_rest : after ≡ record m { collision = after.collision }
  pub grid : IsGrid after
  pub cells :
      (u v : ℕ)
      → u < m.width
      → v < m.height
      → map_coord_is_walkable after (pos u) (pos v)
        ≡ (if u == x && v == y then ok (not d) else map_coord_is_walkable m (pos u) (pos v))

module _ (m : Map) (x y : ℕ) (g : IsGrid m) (hx : x < m.width) (hy : y < m.height) where
  pub walkable_total : (b : Bool) × (map_coord_is_walkable m (pos x) (pos y) ≡ ok b)
  walkable_total =
      let s = Segment-of m x y g hx hy in (_, walkable_at m x y s.byte s.row s.row_eq s.byte_eq)

  toggle_in_bounds :
      (d b : Bool)
      → map_coord_is_walkable m (pos x) (pos y) ≡ ok b
      → map_toggle_coord m (pos x) (pos y) d ≡ (
          if d && not b
          then ok (false, m)
          else (toggle_segment m (pos x) (pos y) d >>= λ m'. ok (true, m')))
  unfolding map_toggle_coord
  toggle_in_bounds d b w = ground arith

  pub map_toggle_coord-taken :
      map_coord_is_walkable m (pos x) (pos y) ≡ ok false
      → map_toggle_coord m (pos x) (pos y) true ≡ ok (false, m)
  map_toggle_coord-taken w = toggle_in_bounds true false w

  pub check_bounds_inside : map_check_bounds m (pos x) (pos y) ≡ true
  unfolding map_check_bounds
  check_bounds_inside = ground arith

  -- On a bitmap that covers its map, a toggle at a coordinate of the map never faults: it
  -- answers false and changes nothing just when it disables a taken cell, and otherwise it
  -- answers true, decides that cell and keeps every other cell and the rest of the map.
  pub map_toggle_coord-Toggled : (d : Bool) → Toggled m x y d (map_toggle_coord m (pos x) (pos y) d)
  map_toggle_coord-Toggled d = elim (Bool-cases (d && not walkable_total.0)) [
    | inl refused ↦ record {
      was = walkable_total.0;
      before = walkable_total.1;
      after = m;
      returns = ground (arith, toggle_in_bounds d walkable_total.0 walkable_total.1);
      same_size = (refl, refl);
      same_rest = refl;
      grid = g;
      cells = λ u v hu hv. ground (arith, walkable_total.1);
    }
    | inr changed ↦
        let s = Segment-of m x y g hx hy in
        record {
          was = walkable_total.0;
          before = walkable_total.1;
          after = write_byte m y s.row (x / 8) (toggle_bit d s.byte (2 ^ (x % 8)));
          returns = ground (
            arith,
            toggle_in_bounds d walkable_total.0 walkable_total.1,
            toggle_segment_at m x y d s,
          );
          same_size = (refl, refl);
          same_rest = refl;
          grid = written-IsGrid m x y d g hx hy s;
          cells = written_cell m x y d g hx hy s;
        }
  ]

-- A toggle outside the map is refused, and changes nothing.
pub map_toggle_coord-outside :
    (m : Map) (x y : ℤ) (d : Bool)
    → map_check_bounds m x y ≡ false
    → map_toggle_coord m x y d ≡ ok (false, m)
unfolding map_toggle_coord map_check_bounds
map_toggle_coord-outside m x y d h = ground arith
