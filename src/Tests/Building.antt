-- ===== src/Tests/Building.antt =====
-- The built-in module, built from a small directory, and what it exports.
use serverlessd.Prelude.{
  ◌≡◌, refl, ap, ◌∙◌, Bool, true, false, List, [], ◌∷◌, Option, none, some, Outcome, returns,
  panics, undefined, hangs, if◌then◌else◌,
}
use serverlessd.Prelude.Text.{Str, str_eq, codes}
use serverlessd.Compile.{ModuleLoader}
use serverlessd.Worker.Starting.{PromiseState, fulfilled}
use serverlessd.Intrinsics.Building.{Builtin}
use serverlessd.Intrinsics.Extraction.{
  GlobalObject, extract_intrinsics, readable, last_export, or_else, done, extract_intrinsics-last,
}
use serverlessd.Tests.Requests.{engine, Val, undef, str, fields, options}

-- A module is its source, and the source `import` imports one file.
abbrev pub imports : Str → List Str
imports m = if str_eq m (codes "import") then codes "intrinsics:fetch" ∷ [] else []

abbrev pub script : Val → Val → Option Str
script (str []) name = none
script (str (c ∷ source)) name = some (c ∷ source)
script other name = none

abbrev pub link : (Str → Outcome (Option Str)) → List Str → Outcome (Option Bool)
link resolve [] = returns (some true)
link resolve (specifier ∷ rest) = elim (resolve specifier) [
  | returns none ↦ returns none
  | returns (some m) ↦ link resolve rest
  | panics ↦ panics
  | undefined ↦ undefined
  | hangs ↦ hangs
]

pub link_undefined :
    (resolve : Str → Outcome (Option Str)) (m specifier : Str) (rest : List Str)
    → imports m ≡ specifier ∷ rest
    → resolve specifier ≡ undefined
    → link resolve (imports m) ≡ undefined
link_undefined resolve m specifier rest e u = ap (link resolve) e ∙ rw (u, link)

pub link_missing :
    (resolve : Str → Outcome (Option Str)) (m specifier : Str) (rest : List Str)
    → imports m ≡ specifier ∷ rest
    → resolve specifier ≡ returns none
    → link resolve (imports m) ≡ returns none
link_missing resolve m specifier rest e u = ap (link resolve) e ∙ rw (u, link)

-- What the source `serve` exports: an object with a handler.
abbrev pub served : Val
served = options none (some ((codes "fetch", codes "handler") ∷ []))

abbrev pub loader : ModuleLoader engine PromiseState
loader = record {
  Module = Str;
  script_compile = script;
  requests = imports;
  instantiate_module = λ resolve m. link resolve (imports m);
  evaluate = λ obj m. some fulfilled;
  namespace = λ m. if str_eq m (codes "serve") then served else fields [];
  instantiate_undefined = link_undefined;
  instantiate_missing = link_missing;
}

abbrev pub functions : Builtin → Option Val
functions k = some undef

-- A global object is what was set on it.
abbrev pub same_key : Val → Val → Bool
same_key (str a) (str b) = str_eq a b
same_key (str a) other = false
same_key other k = false

abbrev pub find_key : Val → List (Val × Val) → Option Val
find_key n [] = none
find_key n ((k, v) ∷ g) = if same_key k n then some v else find_key n g

abbrev pub globals : GlobalObject engine
globals = record {
  Global = List (Val × Val);
  set = λ k v g. (k, v) ∷ g;
  lookup = find_key;
  key_eq = same_key;
  is_writable = λ k. true;
  lookup-set = λ k v n g. refl;
}

abbrev pub exports : Val
exports = fields ((codes "fetch", codes "f") ∷ (codes "point", codes "p") ∷ [])

abbrev pub names : List (Option Val)
names = some (str (codes "fetch")) ∷ some (str (codes "point")) ∷ []

extract_intrinsics-last_example :
    ((extract_intrinsics engine globals exports []).0
      ≡ done engine globals (readable engine globals exports names).1)
    × (find_key (str (codes "point")) (extract_intrinsics engine globals exports []).1
        ≡ or_else
            (last_export engine globals
              (str (codes "point"))
              (readable engine globals exports names).0)
            none)
extract_intrinsics-last_example =
    extract_intrinsics-last engine globals exports (str (codes "point")) names [] refl
