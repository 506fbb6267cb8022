-- ===== src/Json.antt =====
-- nlohmann::json as the chat programs under projects/ use it: the library is outside the repository,
-- so its operations are a parameter, and what it documents of them are the fields of `IsJson`.
use ix_library.Base.{ℕ, ◌≡◌, Bool, true, false, Option, some, List, String}
use text.Mathlib.Text.{◌==◌}
use ix_library.Wire.{Bytes}

-- `get` is `operator[]`, which gives null for a key that is missing; the `as_…` are the conversions,
-- `none` for the exception they throw on a value of another type; `text_or` is `value(key, text)`,
-- which throws on a value that is no text, and `number_or_negative` is `value(key, d)` for a negative
-- `d`, which it gives as `none`. `parse` gives `none` for bytes that are not the text of an object.
-- Numbers are the `int`s that the code converts to, none of them negative.
pub record Json : Type 1 where
  pub Value : Type 0
  pub Object : Type 0
  pub empty : Object
  pub of_text : Bytes → Value
  pub of_number : ℕ → Value
  pub of_flag : Bool → Value
  pub of_table : List (List Bytes) → Value
  pub has : String → Object → Bool
  pub get : String → Object → Value
  pub put : String → Value → Object → Object
  pub erase : String → Object → Object
  pub as_text : Value → Option Bytes
  pub as_number : Value → Option ℕ
  pub as_flag : Value → Option Bool
  pub as_table : Value → Option (List (List Bytes))
  pub text_or : String → Bytes → Object → Option Bytes
  pub table_or : String → List (List Bytes) → Object → Option (List (List Bytes))
  pub number_or : String → ℕ → Object → Option ℕ
  pub number_or_negative : String → Object → Option (Option ℕ)
  pub dump : Object → Bytes
  pub parse : Bytes → Option Object

-- Where two keys are compared, it is by a test that computes at literals.
pub record IsJson (json : Json) : Type 0 where
  pub get_put : (k : String) (x : json.Value) (o : json.Object) → json.get k (json.put k x o) ≡ x
  pub get_put_ne :
      (k m : String) (x : json.Value) (o : json.Object)
      → (k == m) ≡ false
      → json.get k (json.put m x o) ≡ json.get k o
  pub get_erase_ne :
      (k m : String) (o : json.Object)
      → (k == m) ≡ false
      → json.get k (json.erase m o) ≡ json.get k o
  pub has_put : (k : String) (x : json.Value) (o : json.Object) → json.has k (json.put k x o) ≡ true
  pub has_put_ne :
      (k m : String) (x : json.Value) (o : json.Object)
      → (k == m) ≡ false
      → json.has k (json.put m x o) ≡ json.has k o
  pub has_erase : (k : String) (o : json.Object) → json.has k (json.erase k o) ≡ false
  pub has_erase_ne :
      (k m : String) (o : json.Object)
      → (k == m) ≡ false
      → json.has k (json.erase m o) ≡ json.has k o
  pub has_empty : (k : String) → json.has k json.empty ≡ false
  pub text_or_text :
      (k : String) (b d : Bytes) (o : json.Object)
      → json.as_text (json.get k o) ≡ some b
      → json.text_or k d o ≡ some b
  pub table_or_has :
      (k : String) (d : List (List Bytes)) (o : json.Object)
      → json.has k o ≡ true
      → json.table_or k d o ≡ json.as_table (json.get k o)
  pub number_or_missing :
      (k : String) (d : ℕ) (o : json.Object) → json.has k o ≡ false → json.number_or k d o ≡ some d
  pub text_back : (b : Bytes) → json.as_text (json.of_text b) ≡ some b
  pub number_back : (n : ℕ) → json.as_number (json.of_number n) ≡ some n
  pub flag_back : (b : Bool) → json.as_flag (json.of_flag b) ≡ some b
  pub table_back : (r : List (List Bytes)) → json.as_table (json.of_table r) ≡ some r
