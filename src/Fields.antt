-- ===== src/Fields.antt =====
-- The tables `glz::meta<T>::value = object("name", &T::member, …)` that say under which names Glaze
-- reads and writes the members of a record: src/api/Json.cpp, src/io/json/Report.cpp,
-- src/io/yaml/Report.cpp and src/config/ServerConfig.cpp. A pointer to a member is its reading and
-- its writing.
use recipes_core.Prelude.{
  ℕ, ℤ, Text, eq_text, ◌≡◌, Bool, Option, none, some, List, [], ◌∷◌, if◌then◌else◌,
}

-- What a member holds; I is the type of a nested record.
pub data Value (I : Type 0) : Type 0 where
  whole : ℕ → Value I
  number : ℤ → Value I
  string : Text → Value I
  date : Option Text → Value I
  flag : Bool → Value I
  nested : I → Value I
  items : List I → Value I

pub record Field (T I : Type 0) : Type 0 where
  pub name : Text
  pub get : T → Value I
  pub put : Value I → T → Option T

abbrev pub value_of : {I : Type 0} → Text → List (Text × Value I) → Option (Value I)
value_of name [] = none
value_of name ((other, v) ∷ rest) = if eq_text name other then some v else value_of name rest

module _ {T I : Type 0} where
  -- A member of each kind: its name, its reading and its writing. Values of other kinds are refused.
  abbrev pub at_string : Text → (T → Text) → (Text → T → T) → Field T I
  at_string name get put = record {
    name = name;
    get = λ r. string (get r);
    put = λ v r. elim v [ string x ↦ some (put x r) | _ ↦ none ];
  }

  abbrev pub at_number : Text → (T → ℤ) → (ℤ → T → T) → Field T I
  at_number name get put = record {
    name = name;
    get = λ r. number (get r);
    put = λ v r. elim v [ number x ↦ some (put x r) | _ ↦ none ];
  }

  abbrev pub at_whole : Text → (T → ℕ) → (ℕ → T → T) → Field T I
  at_whole name get put = record {
    name = name;
    get = λ r. whole (get r);
    put = λ v r. elim v [ whole x ↦ some (put x r) | _ ↦ none ];
  }

  abbrev pub at_date : Text → (T → (Option Text)) → ((Option Text) → T → T) → Field T I
  at_date name get put = record {
    name = name;
    get = λ r. date (get r);
    put = λ v r. elim v [ date x ↦ some (put x r) | _ ↦ none ];
  }

  abbrev pub at_flag : Text → (T → Bool) → (Bool → T → T) → Field T I
  at_flag name get put = record {
    name = name;
    get = λ r. flag (get r);
    put = λ v r. elim v [ flag x ↦ some (put x r) | _ ↦ none ];
  }

  abbrev pub at_items : Text → (T → (List I)) → ((List I) → T → T) → Field T I
  at_items name get put = record {
    name = name;
    get = λ r. items (get r);
    put = λ v r. elim v [ items x ↦ some (put x r) | _ ↦ none ];
  }

  -- The members of a value, with their names.
  abbrev pub members : List (Field T I) → T → List (Text × Value I)
  members [] x = []
  members (field ∷ fields) x = (field.name, field.get x) ∷ members fields x

  abbrev pub put_found : Field T I → Option (Value I) → T → Option T
  put_found field none x = none
  put_found field (some v) x = field.put v x

  -- All members that the table names, from their values into a record.
  abbrev pub fill : List (Field T I) → List (Text × Value I) → Option T → Option T
  fill fields document none = none
  fill [] document (some x) = some x
  fill (field ∷ fields) document (some x) =
      fill fields document (put_found field (value_of field.name document) x)

  -- The table names every member, each under a name of its own: whatever the record was, the members
  -- of x make it x.
  abbrev pub IsComplete : List (Field T I) → Type 0
  IsComplete fields = (x start : T) → fill fields (members fields x) (some start) ≡ some x
