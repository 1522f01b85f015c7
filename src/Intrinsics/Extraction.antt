-- ===== src/Intrinsics/Extraction.antt =====
-- `extract_intrinsics` in src/intrinsics/building.rs: what the built-in module exports becomes
-- global.
use serverlessd.Prelude.{
  ◌≡◌, refl, ap, ◌∙◌, Bool, true, false, ◌&&◌, List, [], ◌∷◌, Option, none, some, if◌then◌else◌,
  Option-cases, inl, inr,
}
use serverlessd.Language.{Js}

-- The global object of a context, as v8 offers it. A property that is not writable stays.
pub record GlobalObject (js : Js) : Type 1 where
  pub Global : Type 0
  pub set : js.Value → js.Value → Global → Global
  pub lookup : js.Value → Global → Option js.Value
  pub key_eq : js.Value → js.Value → Bool
  pub is_writable : js.Value → Bool
  pub lookup-set :
      (k v n : js.Value) (g : Global)
      → lookup n (set k v g) ≡ (if is_writable k && key_eq k n then some v else lookup n g)

abbrev pub or_else {ℓ} : {A : Type ℓ} → Option A → Option A → Option A
or_else (some a) other = some a
or_else none other = other

or_else_if {ℓ} :
    {A : Type ℓ} (o d : Option A) (c : Bool) (a : A)
    → or_else o (if c then some a else d) ≡ or_else (or_else o (if c then some a else none)) d
or_else_if (some x) d c a = refl
or_else_if none d true a = refl
or_else_if none d false a = refl

module _ (js : Js) (object : GlobalObject js) where
  open js use {Value, get, own_names}
  open object use {Global, set, lookup, key_eq, is_writable, lookup-set}

  -- The loop over the names. What `set` says is not looked at.
  unfoldable pub copy_properties : Value → List (Option Value) → Global → Option (Unit {0}) × Global
  copy_properties intrinsics [] g = (some tt, g)
  copy_properties intrinsics (none ∷ names) g = (none, g)
  copy_properties intrinsics (some name ∷ names) g = elim (get intrinsics name) [
    | none ↦ (none, g)
    | some item ↦ copy_properties intrinsics names (set name item g)
  ]

  unfoldable pub extract_intrinsics : Value → Global → Option (Unit {0}) × Global
  extract_intrinsics intrinsics g = elim (own_names intrinsics) [
    | none ↦ (none, g)
    | some names ↦ copy_properties intrinsics names g
  ]

  -- The exports up to the first that cannot be read, and whether that is all.
  abbrev pub with_export : Value × Value → List (Value × Value) × Bool → List (Value × Value) × Bool
  with_export e (es, all) = (e ∷ es, all)

  pub readable : Value → List (Option Value) → List (Value × Value) × Bool
  readable intrinsics [] = ([], true)
  readable intrinsics (none ∷ names) = ([], false)
  readable intrinsics (some name ∷ names) = elim (get intrinsics name) [
    | none ↦ ([], false)
    | some item ↦ with_export (name, item) (readable intrinsics names)
  ]

  -- The last export under a name, if the name can be written.
  pub last_export : Value → List (Value × Value) → Option Value
  last_export n [] = none
  last_export n ((name, item) ∷ es) =
      or_else (last_export n es) (if is_writable name && key_eq name n then some item else none)

  abbrev pub done : Bool → Option (Unit {0})
  done true = some tt
  done false = none

  copy_properties-last :
      (intrinsics n : Value) (names : List (Option Value)) (g : Global)
      → ((copy_properties intrinsics names g).0 ≡ done (readable intrinsics names).1)
        × (lookup n (copy_properties intrinsics names g).1
            ≡ or_else (last_export n (readable intrinsics names).0) (lookup n g))
  unfolding copy_properties readable last_export
  copy_properties-last intrinsics n [] g = (refl, refl)
  copy_properties-last intrinsics n (none ∷ names) g = (refl, refl)
  copy_properties-last intrinsics n (some name ∷ names) g =
      elim (Option-cases (get intrinsics name)) [
        | inl e ↦
            (rw (e, copy_properties) (rw (e, readable)), rw (e, copy_properties) (rw (e, readable)))
        | inr (item, e) ↦
            let rest = copy_properties-last intrinsics n names (set name item g) in
            (
              rw (e, copy_properties) (rw (e, readable) rest.0),
              rw (e, copy_properties)
                  (rw (e, readable)
                    (rest.1
                      ∙ ap (or_else (last_export n (readable intrinsics names).0))
                          (lookup-set name item n g)
                      ∙ or_else_if (last_export n (readable intrinsics names).0) (lookup n g)
                          (is_writable name && key_eq name n) item)),
            )
      ]

  -- Extraction goes through the exports of the module up to the first whose name or value cannot be
  -- had, and succeeds exactly if there is none. Also where it fails, under each name that can be
  -- written the global object has the last export that was read under it, and under every other
  -- name what it had before.
  pub extract_intrinsics-last :
      (intrinsics n : Value) (names : List (Option Value)) (g : Global)
      → own_names intrinsics ≡ some names
      → ((extract_intrinsics intrinsics g).0 ≡ done (readable intrinsics names).1)
        × (lookup n (extract_intrinsics intrinsics g).1
            ≡ or_else (last_export n (readable intrinsics names).0) (lookup n g))
  unfolding extract_intrinsics
  extract_intrinsics-last intrinsics n names g e =
      rw (e, extract_intrinsics) (copy_properties-last intrinsics n names g)
