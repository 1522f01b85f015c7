-- ===== src/Tests/Requests.antt =====
-- Calls of fetch on a small engine.
use serverlessd.Prelude.{
  ◌≡◌, refl, Bool, true, false, List, [], ◌∷◌, Option, none, some, panics, if◌then◌else◌, map,
}
use serverlessd.Prelude.Text.{Str, codes, str_eq}
use serverlessd.Fetch.{Js, Http, collect_headers, mapped}
use serverlessd.Fetch.Headers.{header_pairs, last_value, collect_headers-last}

abbrev pub Fields : Type 0
Fields = List (Str × Str)

-- An options object holds a method, perhaps, and headers, perhaps.
pub data Val : Type 0 where
  undef : Val
  symbol : Val
  str : Str → Val
  fields : Fields → Val
  options : Option Str → Option Fields → Val
  problem : Val → Val

abbrev pub is_obj : Val → Bool
is_obj (fields fs) = true
is_obj (options m h) = true
is_obj (problem m) = true
is_obj other = false

abbrev pub is_undef : Val → Bool
is_undef undef = true
is_undef other = false

abbrev pub val_text : Val → Option Str
val_text undef = some (codes "undefined")
val_text symbol = none
val_text (str s) = some s
val_text (fields fs) = some (codes "[object Object]")
val_text (options m h) = some (codes "[object Object]")
val_text (problem m) = some (codes "Error")

abbrev pub field : Str → Fields → Val
field k [] = undef
field k ((j, v) ∷ fs) = if str_eq j k then str v else field k fs

abbrev pub maybe_str : Option Str → Val
maybe_str none = undef
maybe_str (some s) = str s

abbrev pub maybe_fields : Option Fields → Val
maybe_fields none = undef
maybe_fields (some fs) = fields fs

abbrev pub read_property : Val → Val → Option Val
read_property (fields fs) (str k) = some (field k fs)
read_property (options m h) (str k) =
    some (if str_eq k (codes "method") then maybe_str m else maybe_fields h)
read_property other key = none

abbrev pub keys_of : Val → Option (List (Option Val))
keys_of (fields fs) = some (map (λ x. some (str x.0)) fs)
keys_of other = none

abbrev pub engine : Js
engine = record {
  Value = Val;
  undefined_value = undef;
  is_object = is_obj;
  is_null_or_undefined = is_undef;
  to_text = val_text;
  new_string = λ s. some (str s);
  get = read_property;
  own_names = keys_of;
  new_resolver = λ u. true;
  new_error = problem;
  new_type_error = problem;
  null_as_string = panics;
}

abbrev pub nonempty : Str → Option Str
nonempty [] = none
nonempty (c ∷ s) = some (c ∷ s)

abbrev find_field : Str → Fields → Option Str
find_field n [] = none
find_field n ((k, v) ∷ m) = if str_eq n k then some v else find_field n m

abbrev crates : Http
crates = record {
  Client = Unit {0};
  build_client = λ u. some tt;
  Method = Str;
  method_from_str = nonempty;
  get_method = codes "GET";
  HeaderName = Str;
  name_eq = str_eq;
  header_name_from_str = nonempty;
  HeaderValue = Str;
  header_value_from_str = λ s. some s;
  HeaderMap = Fields;
  new_map = [];
  insert = λ k v m. (k, v) ∷ m;
  lookup = find_field;
  lookup-new_map = λ n. refl;
  lookup-insert = λ n k v m. refl;
}

abbrev two_values : Fields
two_values = (codes "a", codes "1") ∷ (codes "b", codes "2") ∷ (codes "a", codes "3") ∷ []

abbrev their_keys : List (Option Val)
their_keys = map (λ x. some (str x.0)) two_values

collect_headers-last_example :
    mapped engine crates
      (find_field (codes "a"))
      (collect_headers engine crates (fields two_values) their_keys [])
    ≡ mapped engine crates
        (last_value engine crates (codes "a"))
        (header_pairs engine crates (fields two_values) their_keys)
collect_headers-last_example =
    collect_headers-last engine crates (fields two_values) their_keys (codes "a")
