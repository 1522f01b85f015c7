-- ===== src/Tests/Samples.antt =====
-- An allocator, a regex crate and a file system that meet the interfaces.
use serverlessd.Prelude.{
  ℕ, ◌+◌, ◌<◌, ◌≤◌, ◌≡◌, ◌≢◌, refl, ◌∙◌, true, List, [], ◌∷◌, ◌++◌, Option, none, some, arith,
  if◌then◌else◌, ok,
}
use serverlessd.Prelude.Text.{Str, codes, str_eq, str_eq_refl, str_eq_ne, eq_of_str_eq}
use serverlessd.Pod.{Allocator}
use serverlessd.CodeStore.{FileSystem, RegexCrate, FilePath, Bytes, gitignore, js_path, workers_dir}
use serverlessd.CodeStore.Names.{
  WorkerNameRegex, WorkerFiles, is_worker_name, js_path_injective, js_path-IsPlain, IsPlain,
}

pub with_capacity_holds : (n : ℕ) → n ≤ n
with_capacity_holds n = omega arith

pub grow_holds : (n : ℕ) → n < n + n + 4
grow_holds n = omega arith

abbrev pub exact : Allocator
exact = record {
  with_capacity = λ n. n;
  grow = λ n. n + n + 4;
  with_capacity_holds = with_capacity_holds;
  grow_holds = grow_holds;
}

abbrev pub regex : RegexCrate
regex = record {
  Regex = Unit {0};
  compile = λ pattern. some tt;
  is_match = λ r s. is_worker_name s;
}

abbrev pub names : WorkerNameRegex regex
names = record { regex = tt; compiles = refl; matches = λ s. refl }

abbrev pub Files : Type 0
Files = List (FilePath × Bytes)

abbrev pub read : FilePath → Files → Option Str
read p [] = none
read p ((q, b) ∷ d) = if str_eq q p then some b else read p d

abbrev pub erase : FilePath → Files → Files
erase p [] = []
erase p ((q, b) ∷ d) = if str_eq q p then erase p d else (q, b) ∷ erase p d

pub read-erase : (p : FilePath) (d : Files) → read p (erase p d) ≡ none
read-erase p [] = refl
read-erase p ((q, b) ∷ d) = ground (arith, read-erase p d)

pub read-erase_ne : (p q : FilePath) (d : Files) → p ≢ q → read q (erase p d) ≡ read q d
read-erase_ne p q [] ne = refl
read-erase_ne p q ((r, b) ∷ d) ne =
    ground (arith, read-erase_ne p q d ne, eq_of_str_eq r p, eq_of_str_eq r q)

pub read-write : (p : FilePath) (b : Bytes) (d : Files) → read p ((p, b) ∷ d) ≡ some b
read-write p b d = ground (arith, str_eq_refl p)

pub read-write_ne :
    (p q : FilePath) (b : Bytes) (d : Files) → p ≢ q → read q ((p, b) ∷ d) ≡ read q d
read-write_ne p q b d ne = ground (arith, str_eq_ne p q ne)

-- A disk in memory. Its directories are always there, and every byte string is text.
abbrev pub memory : FileSystem
memory = record {
  Disk = Files;
  IoError = Unit {0};
  path_exists = λ p d. true;
  create_dir_all = λ p d. d;
  write = λ p b d. (ok tt, (p, b) ∷ d);
  remove_file = λ p d. (ok tt, erase p d);
  read_to_string = read;
  from_utf8 = λ b. some b;
  Apart = λ p q. p ≢ q;
  read-create_dir_all = λ p q d. refl;
  read-write = λ p b d e. read-write p b d;
  read-write_apart = read-write_ne;
  read-remove_file = λ p d e. read-erase p d;
  read-remove_file_apart = read-erase_ne;
}

pub ignored : (s : Str) → IsPlain s → gitignore ≢ js_path s
ignored s p e =
    let f : gitignore ≡ workers_dir ++ (s ++ codes ".js") = e ∙ js_path-IsPlain s p in ground arith

abbrev pub files : WorkerFiles memory
files = record { siblings = λ s t p q ne e. ne (js_path_injective s t p q e); ignored = ignored }
