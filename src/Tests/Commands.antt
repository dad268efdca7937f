-- ===== src/Tests/Commands.antt =====
-- The command line's theorems at concrete arguments.
use recipes_core.Prelude.{◌≡◌, refl, false, Text, text, List, [], ◌∷◌, All}
use recipes_core.Api.{value}
use recipes_core.Args.{Args, default_args, parse_args, is_valid_token}
use recipes_core.Args.Paths.{same_path}
use recipes_core.Args.Parsing.{IsApart, parse_args-accepts}
use recipes_core.Args.Forms.{HasForm}

abbrev root : Text
root = text "/srv"

abbrev quiet : List Text
quiet = text "--no-console" ∷ text "--json-out=a.json" ∷ []

abbrev quiet_args : Args
quiet_args =
    let args = default_args root in
    record args { out = record args.out { write_console = false; json_out_path = text "a.json" } }

defaults-IsApart : IsApart (default_args root)
unfolding default_args same_path
defaults-IsApart = refl

quiet-accepted : parse_args root (text "app" ∷ quiet) ≡ value quiet_args
unfolding parse_args default_args same_path is_valid_token
quiet-accepted = refl

parse_args-accepts_example : All HasForm quiet × IsApart quiet_args
parse_args-accepts_example =
    parse_args-accepts root (text "app") quiet quiet_args defaults-IsApart quiet-accepted
