-- ===== src/CodeStore/Names.antt =====
-- Worker names and the paths that src/runtime/serverless/code_store.rs makes of them.
use mathlib.Core.List.{append_cancel_left, append_cancel_right}
use serverlessd.Prelude.{
  ℕ, ◌≡◌, ◌≢◌, refl, ◌∙◌, sym, Bool, true, false, ◌&&◌, ◌||◌, [], ◌∷◌, ◌++◌, arith, leb, ◌==◌, All,
  some,
}
use serverlessd.Prelude.Text.{Str, codes}
use serverlessd.CodeStore.{
  RegexCrate, FileSystem, worker_name_pattern, workers_dir, gitignore, js_path,
}

-- The class `[0-9A-Za-z-.]`.
pub is_name_char : ℕ → Bool
is_name_char c =
    (leb b'0' c && leb c b'9')
    || (leb b'A' c && leb c b'Z')
    || (leb b'a' c && leb c b'z')
    || c == b'-'
    || c == b'.'

pub all_name_chars : Str → Bool
all_name_chars [] = true
all_name_chars (c ∷ s) = is_name_char c && all_name_chars s

-- What `^[0-9A-Za-z-.]+$` accepts.
unfoldable pub is_worker_name : Str → Bool
unfolding all_name_chars is_name_char
is_worker_name [] = false
is_worker_name (c ∷ s) = all_name_chars (c ∷ s)

-- A single component of a path.
abbrev pub IsPlain : Str → Type 0
IsPlain = All (λ c. c ≢ b'/')

all_name_chars-IsPlain : (s : Str) → all_name_chars s ≡ true → IsPlain s
unfolding all_name_chars is_name_char
all_name_chars-IsPlain [] h = tt
all_name_chars-IsPlain (c ∷ s) h = (ground arith, all_name_chars-IsPlain s (ground arith))

pub is_worker_name-IsPlain : (s : Str) → is_worker_name s ≡ true → IsPlain s
unfolding is_worker_name
is_worker_name-IsPlain [] h = cc
is_worker_name-IsPlain (c ∷ s) h = all_name_chars-IsPlain (c ∷ s) h

-- A name without a slash is a file of the workers directory.
pub js_path-IsPlain : (s : Str) → IsPlain s → js_path s ≡ workers_dir ++ (s ++ codes ".js")
unfolding js_path
js_path-IsPlain [] p = refl
js_path-IsPlain (c ∷ s) p = ground arith

pub js_path_injective : (s t : Str) → IsPlain s → IsPlain t → js_path s ≡ js_path t → s ≡ t
js_path_injective s t p q h = append_cancel_right s t (codes ".js") (
    append_cancel_left workers_dir (s ++ codes ".js") (t ++ codes ".js")
      (sym (js_path-IsPlain s p) ∙ h ∙ js_path-IsPlain t q))

-- A name that begins with a slash leaves the workers directory altogether.
pub js_path_absolute : (s : Str) → js_path (b'/' ∷ s) ≡ b'/' ∷ s ++ codes ".js"
unfolding js_path
js_path_absolute s = refl

-- The documented meaning of the pattern: the crate compiles it, to a regex that accepts the worker
-- names.
pub record WorkerNameRegex (rx : RegexCrate) : Type 0 where
  pub regex : rx.Regex
  pub compiles : rx.compile worker_name_pattern ≡ some regex
  pub matches : (s : Str) → rx.is_match regex s ≡ is_worker_name s

-- No link in the workers directory, and no folding of letter case: files of different names are
-- different files.
pub record WorkerFiles (fs : FileSystem) : Type 0 where
  pub siblings : (s t : Str) → IsPlain s → IsPlain t → s ≢ t → fs.Apart (js_path s) (js_path t)
  pub ignored : (s : Str) → IsPlain s → fs.Apart gitignore (js_path s)
