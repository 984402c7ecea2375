-- ===== src/Http/Headers.antt =====
-- The headers of a request, of backend/networking/header-list.c: a list of the nodes in order. The
-- functions of the C library are outside the program.
use mmo_backend.Base.{
  ℕ, zero, suc, ◌==◌, if◌then◌else◌, Bool, true, false, ◌||◌, Option, none, some, List, [], ◌∷◌,
  map, Result, ok, fault, ◌>>=◌, out_of_fuel, unset_memory, out_of_bounds, ltb, length,
}
use mmo_backend.Base.Strings.{same_string}
use mmo_backend.Receiver.{Peer}
use mmo_backend.Http.Reader.{BufferedReader, br_read_line}

pub record Header : Type 0 where
  pub header_name : List ℕ
  pub header_value : List ℕ

pub record Libc : Type 0 where
  pub tolower : ℕ → ℕ
  -- What `sscanf` puts into two blocks under "%[^:]%*[:] %s" and under "%s %s"; where it gets to no
  -- match, it leaves a block as it is.
  pub scan_header : List ℕ → Option (List ℕ) × Option (List ℕ)
  pub scan_route : List ℕ → Option (List ℕ) × Option (List ℕ)

-- What is read of a new block of `size` bytes behind an `sscanf` that does not know its size.
abbrev pub scanned : ℕ → Option (List ℕ) → Result (List ℕ)
scanned size none = fault unset_memory
scanned size (some text) = if ltb (length text) size then ok text else fault out_of_bounds

abbrev pub max_header : ℕ
max_header = 128

abbrev pub max_header_value : ℕ
max_header_value = 1024

unfoldable pub starts_return : List ℕ → Bool
starts_return [] = false
starts_return (b ∷ line) = b == b'\r'

module _ (c : Libc) where
  -- The name is read here, and the value when the list is printed, which is the next thing done with it.
  unfoldable pub header_of : List ℕ → Result Header
  header_of line = do
    let (name, value) = c.scan_header line
    name' ← scanned max_header name
    value' ← scanned max_header_value value
    ok (record { header_name = map c.tolower name'; header_value = value' })

  -- The loop ends at a line that is too long, or that starts with a carriage return. `rounds` bounds
  -- how often a line is waited for.
  unfoldable pub header_list_parse_headers :
      ℕ → ℕ → BufferedReader → Peer → Result (List Header × BufferedReader × Peer)
  header_list_parse_headers zero rounds br p = fault out_of_fuel
  header_list_parse_headers (suc fuel) rounds br p = br_read_line rounds br p >>= λ (line, br', p').
      elim line [
        | none ↦ ok ([], br', p')
        | some line ↦ elim (br'.too_long || starts_return line) [
          | true ↦ ok ([], br', p')
          | false ↦ header_of line >>= λ header.
              header_list_parse_headers fuel rounds br' p' >>= λ (rest, br'', p'').
              ok (header ∷ rest, br'', p'')
        ]
      ]

  -- The search for a name in lower case.
  unfoldable pub find_header : List ℕ → List Header → Option (List ℕ)
  find_header name [] = none
  find_header name (h ∷ headers) =
      let rest = find_header name headers in
      if same_string h.header_name name then some h.header_value else rest

  unfoldable pub header_list_get_header : List Header → List ℕ → Option (List ℕ)
  header_list_get_header headers header = find_header (map c.tolower header) headers

-- What is left allocated: the last node is not freed.
unfoldable pub header_list_destroy : List Header → List Header
header_list_destroy [] = []
header_list_destroy (h ∷ []) = h ∷ []
header_list_destroy (h ∷ next ∷ headers) = header_list_destroy (next ∷ headers)
