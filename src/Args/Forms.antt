-- ===== src/Args/Forms.antt =====
-- The tokens that `IsValidToken` of src/io/args/Args.cpp accepts.
use recipes_core.Service.{is_empty}
use recipes_core.Prelude.{
  ◌⊎◌, not, starts_with, ◌==◌, ==_iff, eq_text, eq_text_iff, if_cases, if◌then◌else◌, arith, Text,
  text, ◌≡◌, ◌∙◌, sym, ap, subst, refl, Bool, true, false, Bool-cases, Option, none, some, inl, inr,
  List, [], ◌∷◌, ◌++◌,
}
use recipes_core.Args.{
  flags, find_flag, fits_type, value_flag, bool_flag, command_flag, FlagType, get_flag_type,
  split_option, is_valid_token,
}

abbrev pub Among : Text → List Text → Type 0
Among name [] = ⊥
Among name (known ∷ rest) = (name ≡ known) ⊎ Among name rest

-- The options without a value, and those with one.
abbrev pub switches : List Text
switches =
    text "-h"
    ∷ text "--help"
    ∷ text "--full-info"
    ∷ text "--short"
    ∷ text "--console"
    ∷ text "--no-console"
    ∷ text "--json"
    ∷ text "--no-json"
    ∷ text "--yaml"
    ∷ text "--no-yaml"
    ∷ text "--all-recipes"
    ∷ text "--cookable"
    ∷ text "--add-products"
    ∷ text "--add-recipes"
    ∷ text "--list-products"
    ∷ text "--list-recipes"
    ∷ []

abbrev pub settings : List Text
settings = text "--json-out" ∷ text "--yaml-out" ∷ text "--db-path" ∷ text "--server-config" ∷ []

-- An option without a value, alone or before a `=` that nothing follows, and `option=value` with a
-- value that is not empty.
pub data HasForm : Text → Type 0 where
  switch : (name : Text) → Among name switches → HasForm name
  empty_switch : (name : Text) → Among name switches → HasForm (name ++ b'=' ∷ [])
  setting :
      (name given : Text)
      → Among name settings
      → is_empty given ≡ false
      → HasForm (name ++ b'=' ∷ given)

split_option_lem :
    (token : Text)
    → let pair = split_option token in
      ((token ≡ pair.0) × (pair.1 ≡ [])) ⊎ (token ≡ pair.0 ++ b'=' ∷ pair.1)
unfolding split_option
split_option_lem [] = inl (refl, refl)
split_option_lem (c ∷ token) = elim (Bool-cases (c == b'=')) [
  | inl e ↦ rw e (inr (ap (λ d. d ∷ token) ((==_iff c b'=').0 e)))
  | inr e ↦ rw e (elim (split_option_lem token) [
    | inl whole ↦ inl (ap (λ t. c ∷ t) whole.0, whole.1)
    | inr cut ↦ inr (ap (λ t. c ∷ t) cut)
  ])
]

-- The names in the table of flags whose type passes a test.
abbrev names_of : (FlagType → Bool) → List (Text × FlagType) → List Text
names_of test [] = []
names_of test ((name, type) ∷ rest) =
    if test type then name ∷ names_of test rest else names_of test rest

abbrev is_setting : FlagType → Bool
is_setting value_flag = true
is_setting _ = false

abbrev is_switch : FlagType → Bool
is_switch value_flag = false
is_switch _ = true

find_flag-Among :
    (test : FlagType → Bool) (type : FlagType) (option : Text) (table : List (Text × FlagType))
    → test type ≡ true
    → find_flag option table ≡ some type
    → Among option (names_of test table)
find_flag-Among test type option [] passes h = cc
find_flag-Among test type option ((name, t) ∷ rest) passes h =
    elim (Bool-cases (eq_text name option)) [
      | inl e ↦
          let found : some t ≡ some type = rw e at h in
          let same : t ≡ type = cc in rw (same, passes) (inl (sym ((eq_text_iff name option).0 e)))
      | inr e ↦
          let later = find_flag-Among test type option rest passes (rw e at h) in
          if_cases (Among option) (test t) _ _ (λ _. inr later) (λ _. later)
    ]

is_empty-eq_true : (s : Text) → is_empty s ≡ true → s ≡ []
is_empty-eq_true [] h = refl
is_empty-eq_true (c ∷ s) h = cc

switch-HasForm :
    (token : Text) (pair : Text × Text)
    → ((token ≡ pair.0) × (pair.1 ≡ [])) ⊎ (token ≡ pair.0 ++ b'=' ∷ pair.1)
    → Among pair.0 switches
    → is_empty pair.1 ≡ true
    → HasForm token
switch-HasForm token pair (inl whole) among empty =
    subst HasForm (sym whole.0) (HasForm.switch pair.0 among)
switch-HasForm token pair (inr cut) among empty =
    subst HasForm (sym (cut ∙ ap (λ given. pair.0 ++ b'=' ∷ given) (is_empty-eq_true pair.1 empty)))
      (HasForm.empty_switch pair.0 among)

setting-HasForm :
    (token : Text) (pair : Text × Text)
    → ((token ≡ pair.0) × (pair.1 ≡ [])) ⊎ (token ≡ pair.0 ++ b'=' ∷ pair.1)
    → Among pair.0 settings
    → not (is_empty pair.1) ≡ true
    → HasForm token
setting-HasForm token pair (inl whole) among given =
    absurd (absent (subst (λ v. not (is_empty v) ≡ true) whole.1 given))
  where
    absent : not (is_empty []) ≡ true → ⊥
    absent h = cc
setting-HasForm token pair (inr cut) among given =
    subst HasForm (sym cut) (HasForm.setting pair.0 pair.1 among (ground arith))

pub is_valid_token-HasForm : (token : Text) → is_valid_token token ≡ true → HasForm token
unfolding is_valid_token flags get_flag_type
is_valid_token-HasForm token h = elim (Bool-cases (starts_with token (text "-"))) [
  | inr e ↦ false_true (rw e at h)
  | inl e ↦ by_type (get_flag_type pair.0) refl (rw e at h)
]
  where
    pair : Text × Text
    pair = split_option token

    false_true : false ≡ true → HasForm token
    false_true e = cc

    by_type :
        (found : Option FlagType)
        → get_flag_type pair.0 ≡ found
        → (elim found as (λ _. Bool) [ none ↦ false | some type ↦ fits_type type pair.1 ]) ≡ true
        → HasForm token
    by_type none e fits = false_true fits
    by_type (some value_flag) e fits =
        setting-HasForm token pair (split_option_lem token)
          (find_flag-Among is_setting value_flag pair.0 flags refl e) fits
    by_type (some bool_flag) e fits =
        switch-HasForm token pair (split_option_lem token)
          (find_flag-Among is_switch bool_flag pair.0 flags refl e) fits
    by_type (some command_flag) e fits =
        switch-HasForm token pair (split_option_lem token)
          (find_flag-Among is_switch command_flag pair.0 flags refl e) fits
