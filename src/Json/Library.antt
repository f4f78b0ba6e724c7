-- ===== src/Json/Library.antt =====
-- The operations of nlohmann::json that the program calls, and what its documentation says of them.
use upfpolicyengine.Common.{
  ℕ, zero, suc, ◌%◌, ◌≡◌, Bool, true, Option, none, some, List, [], ◌∷◌, ◌==◌, length, push_back,
  has_value, if◌then◌else◌,
}
use upfpolicyengine.Common.Text.{Text, text_Eq}
use upfpolicyengine.Types.{Result}

-- How a part of a function that reads a document ends: it goes on with a value, it leaves the
-- function with an error (by `return failure(error)`, or by an exception of the library that the
-- function catches and returns in the same way), or its behaviour is undefined.
pub data Read {ℓ} (A : Type ℓ) : Type ℓ where
  got : A → Read A
  failed : Text → Read A
  undefined : Read A

infixl 5 ◌>>=◌
abbrev pub ◌>>=◌ {ℓ κ} : {A : Type ℓ} {B : Type κ} → Read A → (A → Read B) → Read B
got a >>= f = f a
failed error >>= f = failed error
undefined >>= f = undefined

-- The operations. `failed` and `failure` are exceptions, with `what()`.
pub record Json : Type 1 where
  pub Value : Type 0
  -- `json()`, `json(b)`, `json(n)` and `json(s)`
  pub null : Value
  pub boolean : Bool → Value
  pub number : ℕ → Value
  pub string : Text → Value
  -- An array of the values that are pushed back, and an object of a list of pairs.
  pub array : List Value → Value
  pub object : List (Text × Value) → Value
  -- `v[key] = member`
  pub assign : Value → Text → Value → Value
  -- `v.dump()`
  pub dump : Value → Result Text
  -- `input >> v`, on the content of the file
  pub parse : Text → Result Value
  pub is_string : Value → Bool
  -- `v.get<std::string>()`, and `v.get<T>()` for an unsigned type of so many values
  pub get_string : Value → Read Text
  pub get_unsigned : ℕ → Value → Read ℕ
  -- `v == "text"`
  pub equals : Value → Text → Bool
  pub contains : Value → Text → Bool
  -- `v.at(key)`, and `v[key]` on a constant value, which is undefined for a missing key
  pub at : Value → Text → Read Value
  pub member : Value → Text → Read Value
  pub size : Value → ℕ
  -- `v[i]` on a constant value
  pub element : Value → ℕ → Read Value
  -- `v.value(key, default)`
  pub value_or : Value → Text → Text → Result Text

-- The first value that stands under a key, and the element at a position.
unfoldable pub find {ℓ} : {A : Type ℓ} → Text → List (Text × A) → Option A
find key [] = none
find key ((k, v) ∷ members) = let later = find key members in if k == key then some v else later

unfoldable pub nth {ℓ} : {A : Type ℓ} → List A → ℕ → Option A
nth [] i = none
nth (a ∷ later) zero = some a
nth (a ∷ later) (suc i) = nth later i

-- The documented laws: what has been put into a value is read from it.
module _ (json : Json) where
  open json use {
    Value, number, string, array, object, assign, is_string, get_string, get_unsigned, equals,
    contains, at, member, size, element,
  }

  pub record IsLawful : Type 0 where
    pub string_is : (s : Text) → is_string (string s) ≡ true
    pub string_got : (s : Text) → get_string (string s) ≡ got s
    pub number_got : (width n : ℕ) → get_unsigned width (number n) ≡ got (n % width)
    pub string_equals : (s t : Text) → equals (string s) t ≡ (s == t)
    pub object_contains :
        (members : List (Text × Value)) (key : Text)
        → contains (object members) key ≡ has_value (find key members)
    pub object_at :
        (members : List (Text × Value)) (key : Text) (v : Value)
        → find key members ≡ some v
        → at (object members) key ≡ got v
    pub object_member :
        (members : List (Text × Value)) (key : Text) (v : Value)
        → find key members ≡ some v
        → member (object members) key ≡ got v
    pub object_assign :
        (members : List (Text × Value)) (key : Text) (v : Value)
        → find key members ≡ none
        → assign (object members) key v ≡ object (push_back members (key, v))
    pub array_size : (vs : List Value) → size (array vs) ≡ length vs
    pub array_element :
        (vs : List Value) (i : ℕ) (v : Value) → nth vs i ≡ some v → element (array vs) i ≡ got v
