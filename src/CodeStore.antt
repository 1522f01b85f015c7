-- ===== src/CodeStore.antt =====
-- src/runtime/serverless/code_store.rs: worker sources, one file for each name.
pub mod Names
pub mod Laws
use serverlessd.Prelude.{
  ℕ, ◌≡◌, Bool, true, not, List, [], ◌∷◌, ◌++◌, Option, none, some, ◌==◌, if◌then◌else◌, Outcome,
  returns, panics, ◌>>=◌, Result, ok, err,
}
use serverlessd.Prelude.Text.{Str, codes}

-- Bytes and paths.
abbrev pub Bytes : Type 0
Bytes = List ℕ

abbrev pub FilePath : Type 0
FilePath = Str

-- The file system as `std::fs` and `tokio::fs` offer it. `Apart p q` says that the two paths do not
-- lead to one file.
pub record FileSystem : Type 1 where
  pub Disk : Type 0
  pub IoError : Type 0
  pub path_exists : FilePath → Disk → Bool
  pub create_dir_all : FilePath → Disk → Disk
  pub write : FilePath → Bytes → Disk → Result (Unit {0}) IoError × Disk
  pub remove_file : FilePath → Disk → Result (Unit {0}) IoError × Disk
  pub read_to_string : FilePath → Disk → Option Str
  pub from_utf8 : Bytes → Option Str
  pub Apart : FilePath → FilePath → Type 0
  pub read-create_dir_all :
      (p q : FilePath) (d : Disk) → read_to_string q (create_dir_all p d) ≡ read_to_string q d
  pub read-write :
      (p : FilePath) (b : Bytes) (d : Disk)
      → (write p b d).0 ≡ ok tt
      → read_to_string p (write p b d).1 ≡ from_utf8 b
  pub read-write_apart :
      (p q : FilePath) (b : Bytes) (d : Disk)
      → Apart p q
      → read_to_string q (write p b d).1 ≡ read_to_string q d
  pub read-remove_file :
      (p : FilePath) (d : Disk)
      → (remove_file p d).0 ≡ ok tt
      → read_to_string p (remove_file p d).1 ≡ none
  pub read-remove_file_apart :
      (p q : FilePath) (d : Disk)
      → Apart p q
      → read_to_string q (remove_file p d).1 ≡ read_to_string q d

-- The `regex` crate.
pub record RegexCrate : Type 1 where
  pub Regex : Type 0
  pub compile : Str → Option Regex
  pub is_match : Regex → Str → Bool

abbrev pub worker_name_pattern : Str
worker_name_pattern = codes "^[0-9A-Za-z-.]+$"

ends_with_slash : FilePath → Bool
ends_with_slash [] = true
ends_with_slash (c ∷ []) = c == b'/'
ends_with_slash (c ∷ d ∷ s) = ends_with_slash (d ∷ s)

-- `PathBuf::join` on Unix: an absolute argument replaces the whole path, and an empty path takes
-- no separator.
unfoldable pub join : FilePath → FilePath → FilePath
unfolding ends_with_slash
join base [] = if ends_with_slash base then base else base ++ b'/' ∷ []
join base (c ∷ p) =
    if c == b'/'
    then c ∷ p
    else if ends_with_slash base
    then base ++ c ∷ p
    else base ++ (b'/' ∷ c ∷ p)

abbrev pub parent_dir : FilePath
parent_dir = codes ".serverlessd/"

abbrev pub workers_dir : FilePath
workers_dir = codes ".serverlessd/workers/"

abbrev pub gitignore : FilePath
gitignore = codes ".serverlessd/.gitignore"

-- `check_fs().join(format!("{}.js", name))`.
unfoldable pub js_path : Str → FilePath
unfolding join
js_path name = join workers_dir (name ++ codes ".js")

module _ (rx : RegexCrate) (fs : FileSystem) where
  open rx use {Regex, compile, is_match}
  open fs use {Disk, IoError, path_exists, create_dir_all, write, remove_file, read_to_string}

  -- `VALIDATE_REGEX`, and the disk.
  pub record Store : Type 0 where
    pub validate_regex : Option Regex
    pub disk : Disk

  pub data CodeStoreError : Type 0 where
    invalid_name : Str → CodeStoreError
    io_error : IoError → CodeStoreError

  unfoldable pub compiled : Option Regex → Outcome (Regex × Option Regex)
  compiled none = panics
  compiled (some r) = returns (r, some r)

  -- The regex is compiled by the first call, and kept.
  unfoldable pub get_validate_regex : Option Regex → Outcome (Regex × Option Regex)
  unfolding compiled
  get_validate_regex (some r) = returns (r, some r)
  get_validate_regex none = compiled (compile worker_name_pattern)

  unfoldable pub check_fs : Disk → FilePath × Disk
  unfolding join
  check_fs d =
      let path = join parent_dir (codes "workers/") in
      if path_exists path d then (path, d) else (
        path,
        (write (join parent_dir (codes ".gitignore")) (codes "*") (create_dir_all path d)).1,
      )

  unfoldable pub written :
      Result (Unit {0}) IoError × Disk → Option Regex → Result (Unit {0}) CodeStoreError × Store
  written (ok _, d) cell = (ok tt, record { validate_regex = cell; disk = d })
  written (err e, d) cell = (err (io_error e), record { validate_regex = cell; disk = d })

  unfoldable pub upload_worker_code :
      Str → Bytes → Store → Outcome (Result (Unit {0}) CodeStoreError × Store)
  unfolding written
  upload_worker_code name code s = do
    (regex, cell) ← get_validate_regex s.validate_regex
    if not (is_match regex name)
        then returns (err (invalid_name name), record s { validate_regex = cell })
        else (let (dir, d) = check_fs s.disk in
            returns (written (write (join dir (name ++ codes ".js")) code d) cell))

  pub remove_worker_code : Str → Store → Store
  remove_worker_code name s =
      let (dir, d) = check_fs s.disk in
      record s { disk = (remove_file (join dir (name ++ codes ".js")) d).1 }

  unfoldable pub get_worker_code : Str → Store → Option Str × Store
  get_worker_code name s =
      let (dir, d) = check_fs s.disk in
      (read_to_string (join dir (name ++ codes ".js")) d, record s { disk = d })
