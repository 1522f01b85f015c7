-- ===== src/Language.antt =====
-- src/language/exception.rs: exceptions of JavaScript, over the values of v8.
use serverlessd.Prelude.{
  Bool, Option, none, some, Outcome, returns, panics, ◌>>=◌ as bind, if◌then◌else◌, List, [], ◌≡◌,
}
use serverlessd.Prelude.Text.{Str, codes}

-- What the program asks of v8's values. `to_text` is `to_string` and the reading of the text; `get`
-- reads a property; `own_names` is `get_own_property_names` and then `get_index` at each place;
-- `null_as_string` is what the cast of null to a string comes to.
pub record Js : Type 1 where
  pub Value : Type 0
  pub undefined_value : Value
  pub is_object : Value → Bool
  pub is_null_or_undefined : Value → Bool
  pub to_text : Value → Option Str
  pub new_string : Str → Option Value
  pub get : Value → Value → Option Value
  pub own_names : Value → Option (List (Option Value))
  pub new_resolver : Unit {0} → Bool
  pub new_error : Value → Value
  pub new_type_error : Value → Value
  pub null_as_string : Outcome Value

pub record ExceptionDetails : Type 0 where
  pub name : Str
  pub stack : Str
  pub message : Str

pub data ThrowException : Type 0 where
  error : Str → ThrowException
  type_error : Str → ThrowException

-- `to_rust_string_lossy` of a value is empty where there is no text.
abbrev pub lossy : Option Str → Str
lossy none = []
lossy (some text) = text

infixl 5 ◌>>=◌
abbrev ◌>>=◌ {ℓ κ} : {A : Type ℓ} {B : Type κ} → Option A → (A → Option B) → Option B
none >>= f = none
some a >>= f = f a

module _ (js : Js) where
  open js use {
    Value, is_object, to_text, new_string, get, new_error, new_type_error, null_as_string,
  }

  unfoldable pub read_text : Value → Str → Option Str
  read_text exc property = do
    key ← new_string property
    item ← get exc key
    some (lossy (to_text item))

  read_details : Value → Option ExceptionDetails
  read_details exc = do
    name ← read_text exc (codes "name")
    stack ← read_text exc (codes "stack")
    message ← read_text exc (codes "message")
    some (record { name = name; stack = stack; message = message })

  -- The cast to an object panics at any other value.
  unfoldable pub from_exception : Value → Outcome (Option ExceptionDetails)
  unfolding read_details
  from_exception exc = if is_object exc then returns (read_details exc) else panics

  -- Of the exception that the try-catch scope has caught, if any.
  unfoldable pub exception_details : Option Value → Outcome (Option ExceptionDetails)
  exception_details none = returns none
  exception_details (some exc) = from_exception exc

  -- Null stands in for a message that v8 does not take.
  message_value : Str → Outcome Value
  message_value message = elim (new_string message) [
    | none ↦ null_as_string
    | some item ↦ returns item
  ]

  into_exception : ThrowException → Outcome Value
  unfolding message_value
  into_exception (error message) = bind (message_value message) (λ m. returns (new_error m))
  into_exception (type_error message) =
      bind (message_value message) (λ m. returns (new_type_error m))

  -- The created exception, and the one that is pending in the scope from then on.
  unfoldable pub throw : ThrowException → Outcome (Value × Option Value)
  unfolding into_exception
  throw exc = bind (into_exception exc) (λ e. returns (e, some e))

  -- A type error under a message that v8 takes.
  pub throw-type_error :
      (message : Str) (m : Value)
      → new_string message ≡ some m
      → throw (type_error message) ≡ returns (new_type_error m, some (new_type_error m))
  unfolding throw
  throw-type_error message m e = rw (e, message_value)
