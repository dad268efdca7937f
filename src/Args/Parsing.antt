-- ===== src/Args/Parsing.antt =====
-- `io::arg::ParseArgs` of src/io/args/Args.cpp on whole command lines.
use recipes_core.Prelude.{
  Text, text, ◌≡◌, ◌∙◌, sym, ap, subst, refl, Bool, true, false, Bool-cases, Option, none, some,
  inl, inr, List, [], ◌∷◌, ◌++◌, All,
}
use recipes_core.Api.{Result, value, error}
use recipes_core.Args.Paths.{same_path}
use recipes_core.Args.Forms.{HasForm, is_valid_token-HasForm}
use recipes_core.Args.{
  Args, default_args, value_flag, bool_flag, command_flag, FlagType, get_flag_type, split_option,
  is_valid_token, changed, bool_changes, set_bool_flag, set_value_flag, assigned, checked_paths,
  apply_flag, parse_token, parse_tokens, parse_args, ◌>>=◌,
}

-- The two output paths differ, element by element.
abbrev pub IsApart : Args → Type 0
IsApart args = same_path args.out.json_out_path args.out.yaml_out_path ≡ false

abbrev paths_of : Args → Text × Text
paths_of args = (args.out.json_out_path, args.out.yaml_out_path)

-- Changes of other fields.
abbrev KeepPaths : List (Bool × (Args → Args)) → Type 0
KeepPaths changes = All (λ change. (args : Args) → paths_of (change.1 args) ≡ paths_of args) changes

changed-paths_of :
    (changes : List (Bool × (Args → Args))) (args : Args)
    → KeepPaths changes
    → paths_of (changed changes args) ≡ paths_of args
changed-paths_of [] args h = refl
changed-paths_of ((true, change) ∷ rest) args h = changed-paths_of rest (change args) h.1 ∙ h.0 args
changed-paths_of ((false, change) ∷ rest) args h = changed-paths_of rest args h.1

bool_changes-KeepPaths : (option : Text) → KeepPaths (bool_changes option)
bool_changes-KeepPaths option = (
  λ a. refl,
  (
    λ a. refl,
    (
      λ a. refl,
      (
        λ a. refl,
        (
          λ a. refl,
          (λ a. refl, (λ a. refl, (λ a. refl, (λ a. refl, (λ a. refl, (λ a. refl, tt)))))),
        ),
      ),
    ),
  ),
)

set_bool_flag-paths_of :
    (args : Args) (option : Text) → paths_of (set_bool_flag args option) ≡ paths_of args
unfolding set_bool_flag
set_bool_flag-paths_of args option =
    changed-paths_of (bool_changes option) args (bool_changes-KeepPaths option)

value_of_error : {A : Type 0} {B : Type 0} {message : Text} {a : A} → error message ≡ value a → B
value_of_error h = cc

value_injective : {A : Type 0} {a b : A} → value a ≡ value b → a ≡ b
value_injective h = cc

checked_paths-IsApart : (args next : Args) → checked_paths args ≡ value next → IsApart next
checked_paths-IsApart args next h =
    elim (Bool-cases (same_path args.out.json_out_path args.out.yaml_out_path)) [
      | inl e ↦ value_of_error (rw e at h)
      | inr e ↦ subst IsApart (value_injective (rw e at h)) e
    ]

apply_flag-IsApart :
    (type : Option FlagType) (pair : Text × Text) (args next : Args)
    → IsApart args
    → apply_flag type pair args ≡ value next
    → IsApart next
unfolding set_value_flag
apply_flag-IsApart none pair args next apart h = value_of_error h
apply_flag-IsApart (some value_flag) pair args next apart h =
    checked_paths-IsApart (assigned pair.0 pair.1 args) next h
apply_flag-IsApart (some bool_flag) pair args next apart h = subst IsApart (value_injective h) (
    subst (λ paths. same_path paths.0 paths.1 ≡ false) (sym (set_bool_flag-paths_of args pair.0))
      apart)
apply_flag-IsApart (some command_flag) pair args next apart h =
    subst IsApart (value_injective h) apart

parse_token-IsApart :
    (token : Text) (args next : Args)
    → IsApart args
    → parse_token token args ≡ value next
    → HasForm token × IsApart next
unfolding parse_token
parse_token-IsApart token args next apart h = elim (Bool-cases (is_valid_token token)) [
  | inl e ↦ (
    is_valid_token-HasForm token e,
    apply_flag-IsApart (get_flag_type (split_option token).0) (split_option token) args next apart
        (rw e at h),
  )
  | inr e ↦ value_of_error (rw e at h)
]

abbrev Accepted : List Text → Args → Type 0
Accepted tokens args = All HasForm tokens × IsApart args

next_step :
    (token : Text) (rest : List Text) (args last : Args) (r : Result Args)
    → parse_token token args ≡ r
    → r >>= (λ next. parse_tokens rest next) ≡ value last
    → (next : Args) × (parse_token token args ≡ value next) × (parse_tokens rest next ≡ value last)
next_step token rest args last (value next) e h = (next, e, h)
next_step token rest args last (error message) e h = value_of_error h

parse_tokens-Accepted :
    (tokens : List Text) (args last : Args)
    → IsApart args
    → parse_tokens tokens args ≡ value last
    → Accepted tokens last
unfolding parse_tokens
parse_tokens-Accepted [] args last apart h = (tt, subst IsApart (value_injective h) apart)
parse_tokens-Accepted (token ∷ rest) args last apart h =
    let (next, e, f) = next_step token rest args last (parse_token token args) refl h in
    let (valid, apart') = parse_token-IsApart token args next apart e in
    let (valids, last_apart) = parse_tokens-Accepted rest next last apart' f in
    ((valid, valids), last_apart)

stops :
    (before after : List Text) (token : Text) (args last : Args)
    → parse_tokens before args ≡ value last
    → is_valid_token token ≡ false
    → parse_tokens (before ++ token ∷ after) args ≡ error (text "Unknown argument: " ++ token)
unfolding parse_tokens parse_token
stops [] after token args last h unknown = rw unknown refl
stops (t ∷ before) after token args last h unknown =
    let (next, e, f) = next_step t before args last (parse_token t args) refl h in
    ap (λ r. r >>= λ n. parse_tokens (before ++ token ∷ after) n) e
    ∙ stops before after token next last f unknown

-- Where a command line is accepted, each of its tokens is a known option without a value, possibly
-- before a lone `=`, or a known option with a value that is not empty; and the two report paths differ
-- in the comparison of std::filesystem::path, element by element, provided that the default ones do.
-- Paths that differ there can still name one file, as `a` and `./a` do.
pub parse_args-accepts :
    (project_root program : Text) (tokens : List Text) (args : Args)
    → IsApart (default_args project_root)
    → parse_args project_root (program ∷ tokens) ≡ value args
    → All HasForm tokens × IsApart args
unfolding parse_args
parse_args-accepts project_root program tokens args apart h =
    parse_tokens-Accepted tokens (default_args project_root) args apart h

-- The first token that has no known form decides: what comes after it is not looked at, and the
-- error names it, provided that the tokens before it are accepted.
parse_args-first_unknown :
    (project_root program : Text) (before after : List Text) (token : Text) (args : Args)
    → parse_args project_root (program ∷ before) ≡ value args
    → is_valid_token token ≡ false
    → parse_args project_root (program ∷ before ++ token ∷ after)
      ≡ error (text "Unknown argument: " ++ token)
unfolding parse_args
parse_args-first_unknown project_root program before after token args h unknown =
    stops before after token (default_args project_root) args h unknown
