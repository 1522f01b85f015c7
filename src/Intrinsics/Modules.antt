-- ===== src/Intrinsics/Modules.antt =====
-- Which module an import of the intrinsics gets (build.rs, src/intrinsics).
use mathlib.Core.Option.{some-injective}
use serverlessd.Prelude.{
  ℕ, ==_self, ◌≡◌, ◌≢◌, sym, true, false, List, [], ◌∷◌, ◌++◌, Option, none, some, Outcome, returns,
  undefined, ◌>>=◌, >>=-eq-returns, ◌⊎◌, ap, ◌∙◌, Option-cases, Bool-cases, arith, inl, inr, All,
  subst,
}
use serverlessd.Prelude.Text.{Str, str_eq_refl, str_eq_ne}
use serverlessd.Intrinsics.{
  split_once, full_stop, prefix, DirEntry, built_files, get_intrinsics_file,
  resolve_module_callback_intrinsics, file_row, load, compiled, after_colon,
}

split_once-append :
    (c : ℕ) (s t : Str) → split_once c s ≡ none → split_once c (s ++ c ∷ t) ≡ some (s, t)
unfolding split_once
split_once-append c [] t h = ground (arith, ==_self c)
split_once-append c (x ∷ s) t h = elim (Option-cases (split_once c s)) [
  | inl e ↦ ground (arith, split_once-append c s t e)
  | inr (found, e) ↦ ground arith
]

-- The name of a file up to the first full stop is not this name.
abbrev pub IsOther : Str → Option DirEntry → Type 0
IsOther name none = Unit {0}
IsOther name (some entry) =
    (ext : Str) → entry.is_file ≡ true → split_once full_stop entry.filename ≢ some (name, ext)

-- The file is the first of the directory under its name.
pub record IsFirst (name : Str) (entries : List (Option DirEntry)) (file : DirEntry) : Type 0 where
  pub before : List (Option DirEntry)
  pub after : List (Option DirEntry)
  pub ext : Str
  pub split : entries ≡ before ++ some file ∷ after
  pub others : All (IsOther name) before
  pub is_file : file.is_file ≡ true
  pub filename : file.filename ≡ name ++ full_stop ∷ ext
  pub plain : split_once full_stop name ≡ none

-- The row of an entry that is no file, or of one that is.
record Row (entry : DirEntry) (entries : List (Option DirEntry)) (files : List (Str × Str))
    : Type 0 where
  name : Str
  ext : Str
  rows : List (Str × Str)
  is_file : entry.is_file ≡ true
  filename : split_once full_stop entry.filename ≡ some (name, ext)
  rest : built_files entries ≡ returns rows
  all : files ≡ (name, entry.contents) ∷ rows

file_row_lem :
    (entry : DirEntry) (row : Str × Str)
    → file_row entry ≡ returns row
    → (name : Str) × (ext : Str) × (split_once full_stop entry.filename ≡ some (name, ext))
      × (row ≡ (name, entry.contents))
unfolding file_row
file_row_lem entry row h = elim (Option-cases (split_once full_stop entry.filename)) [
  | inl e ↦ absurd (ground (arith, h))
  | inr ((name, ext), e) ↦ (name, ext, e, ground arith)
]

built_files-cases :
    (entry : DirEntry) (entries : List (Option DirEntry)) (files : List (Str × Str))
    → built_files (some entry ∷ entries) ≡ returns files
    → ((entry.is_file ≡ false) × (built_files entries ≡ returns files)) ⊎ Row entry entries files
unfolding built_files
built_files-cases entry entries files h = elim (Bool-cases entry.is_file) [
  | inr skipped ↦ inl (skipped, ground arith)
  | inl file ↦
      let both : (file_row entry >>= (λ row. built_files entries >>= λ rows. returns (row ∷ rows)))
          ≡ returns files =
        ground arith in
      let (row, e, h') = >>=-eq-returns (file_row entry) _ both in
      let (rows, e', h'') = >>=-eq-returns (built_files entries) _ h' in
      let (name, ext, s, same) = file_row_lem entry row e in
      inr (record {
        name = name;
        ext = ext;
        rows = rows;
        is_file = file;
        filename = s;
        rest = e';
        all = cc;
      })
]

get-built :
    (name : Str) (before after : List (Option DirEntry)) (file : DirEntry) (ext : Str)
    (files : List (Str × Str))
    → All (IsOther name) before
    → file.is_file ≡ true
    → split_once full_stop file.filename ≡ some (name, ext)
    → built_files (before ++ some file ∷ after) ≡ returns files
    → get_intrinsics_file name files ≡ some file.contents
unfolding get_intrinsics_file built_files
get-built name [] after file ext files o f s b = elim (built_files-cases file after files b) [
  | inl (skipped, _) ↦ absurd (cc)
  | inr row ↦
      let same : row.name ≡ name = ap (λ x. x.0) (some-injective _ _ (sym row.filename ∙ s)) in
      rw (row.all, same) (rw (str_eq_refl name, get_intrinsics_file))
]
get-built name (none ∷ before) after file ext files o f s b =
    get-built name before after file ext files o.1 f s b
get-built name (some entry ∷ before) after file ext files o f s b =
    elim (built_files-cases entry (before ++ some file ∷ after) files b) [
      | inl (_, rest) ↦ get-built name before after file ext files o.1 f s rest
      | inr row ↦
          let differs =
            str_eq_ne row.name name
              (λ same. o.0 row.ext row.is_file (row.filename ∙ ap (λ n. some (n, row.ext)) same)) in
          rw row.all (
            rw (differs, get_intrinsics_file)
              (get-built name before after file ext row.rows o.1 f s row.rest))
    ]

module _ {Module : Type 0} (compile : Str → Str → Outcome (Option Module)) where
  resolve-found :
      (name : Str) (files : List (Str × Str)) (o : Option Str)
      → get_intrinsics_file name files ≡ o
      → resolve_module_callback_intrinsics compile files (prefix ++ name)
        ≡ load compile (prefix ++ name) o
  unfolding resolve_module_callback_intrinsics split_once after_colon
  resolve-found name files o e = ap (load compile (prefix ++ name)) e

  -- An import of `intrinsics:name`, where the build found a file of that name up to the first full
  -- stop, gets the module compiled from the first such file; where v8 does not compile it, the
  -- import is undefined behaviour.
  pub resolve-built :
      (name : Str) (entries : List (Option DirEntry)) (file : DirEntry) (files : List (Str × Str))
      → IsFirst name entries file
      → built_files entries ≡ returns files
      → ((m : Module)
          → compile file.contents (prefix ++ name) ≡ returns (some m)
          → resolve_module_callback_intrinsics compile files (prefix ++ name) ≡ returns (some m))
        × (compile file.contents (prefix ++ name) ≡ returns none
            → resolve_module_callback_intrinsics compile files (prefix ++ name) ≡ undefined)
  unfolding load compiled
  resolve-built name entries file files first b =
      let filename =
        subst (λ f. split_once full_stop f ≡ some (name, first.ext)) (sym first.filename)
          (split_once-append full_stop name first.ext first.plain) in
      let got =
        get-built name first.before first.after file first.ext files first.others first.is_file
          filename (subst (λ es. built_files es ≡ returns files) first.split b) in
      let e = resolve-found name files (some file.contents) got in
      ((λ m h. e ∙ rw (h, compiled)), (λ h. e ∙ rw (h, compiled)))
