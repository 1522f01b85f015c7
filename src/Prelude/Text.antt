-- ===== src/Prelude/Text.antt =====
-- Rust strings as lists of code points, with the `str` methods that the program calls.
use Prim.Native.Nat.{ℕ, zero, suc, ◌≤◌}
use Prim.Native.Char.{code}
use Prim.Native.String.{String}
use mathlib.Core.Path.{ap, ◌≡◌, refl}
use mathlib.Core.Logic.{◌≢◌}
use mathlib.Core.Bool.{Bool, true, false, ◌&&◌}
use mathlib.Core.List.{append_assoc, List, [], ◌∷◌, ◌++◌}
use mathlib.Core.Option.{Option, none, some}
use native.Mathlib.Omega.{arith}
use serverlessd.Prelude.Lists.{length, length-append}
use mathlib.Core.Path.{sym, ◌∙◌}
use mathlib.Core.Logic.{inl, inr}
use serverlessd.Prelude.Tests.{Option-cases, ◌==◌, ==_self}

abbrev pub Str : Type 0
Str = List ℕ

-- The code points of a literal.
abbrev pub codes : String → Str
codes String.[] = []
codes (String.◌∷◌ c s) = code c ∷ codes s

abbrev pub str_eq : Str → Str → Bool
str_eq [] [] = true
str_eq [] (y ∷ ys) = false
str_eq (x ∷ xs) [] = false
str_eq (x ∷ xs) (y ∷ ys) = (x == y) && str_eq xs ys

pub str_eq_refl : (s : Str) → str_eq s s ≡ true
str_eq_refl [] = refl
str_eq_refl (x ∷ s) = ground (arith, str_eq_refl s)

pub eq_of_str_eq : (s t : Str) → str_eq s t ≡ true → s ≡ t
eq_of_str_eq [] [] h = refl
eq_of_str_eq [] (y ∷ t) h = cc
eq_of_str_eq (x ∷ s) [] h = cc
eq_of_str_eq (x ∷ s) (y ∷ t) h = ground (arith, eq_of_str_eq s t)

pub str_eq_ne : (s t : Str) → s ≢ t → str_eq s t ≡ false
str_eq_ne s t h = ground (arith, eq_of_str_eq s t)

-- `strip_prefix`: what follows the prefix, if the text starts with it.
abbrev pub strip_prefix : Str → Str → Option Str
strip_prefix [] s = some s
strip_prefix (c ∷ prefix) [] = none
strip_prefix (c ∷ prefix) (x ∷ s) = elim (c == x) [ true ↦ strip_prefix prefix s | false ↦ none ]

pub strip_prefix-append : (prefix s : Str) → strip_prefix prefix (prefix ++ s) ≡ some s
strip_prefix-append [] s = refl
strip_prefix-append (c ∷ prefix) s = ground (arith, ==_self c, strip_prefix-append prefix s)

pub append_of_strip_prefix : (prefix s t : Str) → strip_prefix prefix s ≡ some t → s ≡ prefix ++ t
append_of_strip_prefix [] s t h = ground arith
append_of_strip_prefix (c ∷ prefix) [] t h = cc
append_of_strip_prefix (c ∷ prefix) (x ∷ s) t h = ground (arith, append_of_strip_prefix prefix s t)

-- `trim_start_matches`: the prefix is taken off as often as it stands there. Each round of a
-- nonempty prefix shortens the text, so its length is fuel enough.
trim_rounds : ℕ → Str → Str → Str
trim_rounds zero prefix s = s
trim_rounds (suc fuel) prefix s = elim (strip_prefix prefix s) [
  | none ↦ s
  | some rest ↦ trim_rounds fuel prefix rest
]

unfoldable pub trim_start_matches : Str → Str → Str
unfolding trim_rounds
trim_start_matches prefix s = trim_rounds (length s) prefix s

abbrev pub repeat : ℕ → Str → Str
repeat zero prefix = []
repeat (suc n) prefix = prefix ++ repeat n prefix

trim_rounds_lem :
    (c : ℕ) (prefix : Str) (fuel : ℕ) (s : Str)
    → length s ≤ fuel
    → (n : ℕ) × (s ≡ repeat n (c ∷ prefix) ++ trim_rounds fuel (c ∷ prefix) s)
      × (strip_prefix (c ∷ prefix) (trim_rounds fuel (c ∷ prefix) s) ≡ none)
unfolding trim_rounds
trim_rounds_lem c prefix zero [] h = (0, refl, refl)
trim_rounds_lem c prefix zero (x ∷ s) h = absurd (omega arith)
trim_rounds_lem c prefix (suc fuel) s h = elim (Option-cases (strip_prefix (c ∷ prefix) s)) [
  | inl e ↦ (0, rw (e, trim_rounds), rw (e, trim_rounds) e)
  | inr (rest, e) ↦
      let split = append_of_strip_prefix (c ∷ prefix) s rest e in
      let shorter = ap length split in
      let (n, whole, stuck) =
        trim_rounds_lem c prefix fuel rest (omega (arith, length-append {0} prefix rest)) in
      let step : trim_rounds (suc fuel) (c ∷ prefix) s ≡ trim_rounds fuel (c ∷ prefix) rest =
        rw (e, trim_rounds) in
      (
        suc n,
        split
            ∙ ap (◌++◌ (c ∷ prefix)) whole
            ∙ sym (append_assoc (c ∷ prefix) (repeat n (c ∷ prefix)) _)
            ∙ ap (◌++◌ (repeat (suc n) (c ∷ prefix))) (sym step),
        ap (strip_prefix (c ∷ prefix)) step ∙ stuck,
      )
]

-- What is left does not begin with the prefix, and all that was taken off is prefixes.
pub trim_start_matches_lem :
    (c : ℕ) (prefix s : Str)
    → (n : ℕ) × (s ≡ repeat n (c ∷ prefix) ++ trim_start_matches (c ∷ prefix) s)
      × (strip_prefix (c ∷ prefix) (trim_start_matches (c ∷ prefix) s) ≡ none)
unfolding trim_start_matches
trim_start_matches_lem c prefix s = trim_rounds_lem c prefix (length s) s (omega arith)

trim_rounds-repeat :
    (c : ℕ) (prefix : Str) (n fuel : ℕ) (s : Str)
    → strip_prefix (c ∷ prefix) s ≡ none
    → length (repeat n (c ∷ prefix) ++ s) ≤ fuel
    → trim_rounds fuel (c ∷ prefix) (repeat n (c ∷ prefix) ++ s) ≡ s
unfolding trim_rounds
trim_rounds-repeat c prefix zero zero s e h = refl
trim_rounds-repeat c prefix zero (suc fuel) s e h = rw (e, trim_rounds)
trim_rounds-repeat c prefix (suc n) zero s e h = absurd (omega arith)
trim_rounds-repeat c prefix (suc n) (suc fuel) s e h =
    let rest = repeat n (c ∷ prefix) ++ s in
    let whole = append_assoc (c ∷ prefix) (repeat n (c ∷ prefix)) s in
    let shorter = ap length whole in
    rw whole (
      rw (strip_prefix-append (c ∷ prefix) rest, trim_rounds)
        (trim_rounds-repeat c prefix n fuel s e (omega (arith, length-append {0} prefix rest))))

-- However many prefixes stand in front, all are taken off.
pub trim_start_matches-repeat :
    (c : ℕ) (prefix : Str) (n : ℕ) (s : Str)
    → strip_prefix (c ∷ prefix) s ≡ none
    → trim_start_matches (c ∷ prefix) (repeat n (c ∷ prefix) ++ s) ≡ s
unfolding trim_start_matches
trim_start_matches-repeat c prefix n s e =
    trim_rounds-repeat c prefix n (length (repeat n (c ∷ prefix) ++ s)) s e (omega arith)
