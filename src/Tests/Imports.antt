-- ===== src/Tests/Imports.antt =====
-- An import of a module that is built in.
use mathlib.Core.Option.{some-injective}
use serverlessd.Prelude.{
  ap, ◌≡◌, refl, true, false, List, [], ◌∷◌, Option, none, some, Outcome, returns, undefined,
}
use serverlessd.Prelude.Text.{Str, str_eq, codes}
use serverlessd.Intrinsics.{DirEntry, split_once, built_files, resolve_module_callback_intrinsics}
use serverlessd.Intrinsics.Modules.{IsOther, resolve-built}

abbrev directory : DirEntry
directory = record { is_file = false; filename = codes "fetch.d"; contents = [] }

abbrev index : DirEntry
index = record { is_file = true; filename = codes "index.js"; contents = codes "import" }

abbrev fetch : DirEntry
fetch = record { is_file = true; filename = codes "fetch.js"; contents = codes "export" }

abbrev listing : List (Option DirEntry)
listing = some directory ∷ none ∷ some index ∷ some fetch ∷ []

abbrev table : List (Str × Str)
table = (codes "index", codes "import") ∷ (codes "fetch", codes "export") ∷ []

-- What is not empty compiles, to itself.
abbrev compile : Str → Str → Outcome (Option Str)
compile [] name = returns none
compile (c ∷ code) name = returns (some (c ∷ code))

listing-built : built_files listing ≡ returns table
unfolding built_files split_once
listing-built = refl

index-IsOther : IsOther (codes "fetch") (some index)
unfolding split_once
index-IsOther ext f s =
    let e : false ≡ true = ap (λ x. str_eq (codes "fetch") x.0) (some-injective _ _ s) in
    absurd (cc)

resolve-built_example :
    ((m : Str)
      → compile (codes "export") (codes "intrinsics:fetch") ≡ returns (some m)
      → resolve_module_callback_intrinsics compile table (codes "intrinsics:fetch")
        ≡ returns (some m))
    × (compile (codes "export") (codes "intrinsics:fetch") ≡ returns none
        → resolve_module_callback_intrinsics compile table (codes "intrinsics:fetch") ≡ undefined)
resolve-built_example =
    resolve-built compile (codes "fetch") listing fetch table
      (record {
        before = some directory ∷ none ∷ some index ∷ [];
        after = [];
        ext = codes "js";
        split = refl;
        others = ((λ ext f s. absurd (cc)), (tt, (index-IsOther, tt)));
        is_file = refl;
        filename = refl;
        plain = unfold split_once in refl;
      })
      listing-built
