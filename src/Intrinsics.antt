-- ===== src/Intrinsics.antt =====
-- The modules that are built into the program: build.rs, src/intrinsics/files.rs, and the
-- resolution of their names in src/intrinsics/building.rs.
pub mod Modules
pub mod Building
pub mod Extraction
use serverlessd.Prelude.{
  ℕ, ◌==◌, Bool, true, false, List, [], ◌∷◌, Option, none, some, Outcome, returns, panics,
  undefined, ◌>>=◌,
}
use serverlessd.Prelude.Text.{Str, str_eq, strip_prefix, codes}

-- `split_once` at a character: what stands before and after its first occurrence.
abbrev in_front : ℕ → Option (Str × Str) → Option (Str × Str)
in_front x none = none
in_front x (some (before, after)) = some (x ∷ before, after)

unfoldable pub split_once : ℕ → Str → Option (Str × Str)
split_once c [] = none
split_once c (x ∷ s) = elim (c == x) [ true ↦ some ([], s) | false ↦ in_front x (split_once c s) ]

abbrev pub full_stop : ℕ
full_stop = 46

abbrev pub colon : ℕ
colon = 58

abbrev pub prefix : Str
prefix = codes "intrinsics:"

-- An entry of lib/intrinsics when the program is built.
pub record DirEntry : Type 0 where
  pub is_file : Bool
  pub filename : Str
  pub contents : Str

-- The row for a file, under its name up to the first full stop. A name without one stops the build.
unfoldable pub file_row : DirEntry → Outcome (Str × Str)
file_row entry = elim (split_once full_stop entry.filename) [
  | none ↦ panics
  | some (name, _) ↦ returns (name, entry.contents)
]

-- The table FILES. Entries that cannot be read are left out, as is what is no file.
unfoldable pub built_files : List (Option DirEntry) → Outcome (List (Str × Str))
unfolding file_row
built_files [] = returns []
built_files (none ∷ entries) = built_files entries
built_files (some entry ∷ entries) = elim entry.is_file [
  | false ↦ built_files entries
  | true ↦ do row ← file_row entry; rows ← built_files entries; returns (row ∷ rows)
]

unfoldable pub get_intrinsics_file : Str → List (Str × Str) → Option Str
get_intrinsics_file name [] = none
get_intrinsics_file name ((filename, code) ∷ rows) = elim (str_eq filename name) [
  | true ↦ some code
  | false ↦ get_intrinsics_file name rows
]

-- `compile` is `compile_module`. A `Local` that is transmuted from none is undefined behaviour.
module _ {Module : Type 0} (compile : Str → Str → Outcome (Option Module)) where
  compiled : Option Module → Outcome (Option Module)
  compiled none = undefined
  compiled (some m) = returns (some m)

  load : Str → Option Str → Outcome (Option Module)
  unfolding compiled
  load specifier none = returns none
  load specifier (some code) = do m ← compile code specifier; compiled m

  after_colon : Option (Str × Str) → Str
  after_colon none = []
  after_colon (some (_, name)) = name

  pub resolve_module_callback_intrinsics : List (Str × Str) → Str → Outcome (Option Module)
  unfolding load after_colon
  resolve_module_callback_intrinsics files specifier = elim (strip_prefix prefix specifier) [
    | none ↦ returns none
    | some _ ↦ load specifier (get_intrinsics_file (after_colon (split_once colon specifier)) files)
  ]
