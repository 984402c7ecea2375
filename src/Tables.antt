-- ===== src/Tables.antt =====
-- GLib's hash table with strings for keys (`g_hash_table_new_full` with `g_str_hash` and
-- `g_str_equal`), which the program uses and does not contain: its operations and their documented
-- laws. The functions that destroy values are called by the operations that use a table.
pub mod Assoc
use mmo_backend.Base.{ℕ, ◌≡◌, Bool, true, false, if◌then◌else◌, Option, none, some, List, [], ◌∷◌}
use mathlib.Core.List.{Memᴰ}
use mmo_backend.Base.Strings.{same_string}

pub record HashTable (V : Type 0) : Type 1 where
  pub Table : Type 0
  pub empty : Table
  pub lookup : Table → List ℕ → Option V
  pub insert : Table → List ℕ → V → Table
  pub remove : Table → List ℕ → Table
  -- The entries in the order in which `g_hash_table_foreach` comes to them.
  pub entries : Table → List (List ℕ × V)
  pub lookup-empty : (k : List ℕ) → lookup empty k ≡ none
  pub lookup-insert :
      (t : Table) (j k : List ℕ) (v : V)
      → lookup (insert t j v) k ≡ (if same_string j k then some v else lookup t k)
  pub lookup-remove :
      (t : Table) (j k : List ℕ)
      → lookup (remove t j) k ≡ (if same_string j k then none else lookup t k)
  pub entries-held :
      (t : Table) (k : List ℕ) (v : V) → Memᴰ (k, v) (entries t) → lookup t k ≡ some v
  pub entries_all : (t : Table) (k : List ℕ) (v : V) → lookup t k ≡ some v → Memᴰ (k, v) (entries t)
