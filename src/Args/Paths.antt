-- ===== src/Args/Paths.antt =====
-- `std::filesystem::path` as src/io/args/Args.cpp uses it, on POSIX: `operator/` with a relative
-- right side, and `operator==`, which compares the root and the elements.
use recipes_core.Prelude.{
  ◌≡◌, refl, ℕ, Text, text, eq_text, Bool, true, false, not, ◌&&◌, ◌||◌, List, [], ◌∷◌, ◌++◌, ◌==◌,
  if◌then◌else◌,
}
use recipes_core.Service.{is_empty}

abbrev ends_with_slash : Text → Bool
ends_with_slash [] = false
ends_with_slash (c ∷ []) = c == b'/'
ends_with_slash (c ∷ d ∷ s) = ends_with_slash (d ∷ s)

unfoldable pub join : Text → Text → Text
join left right =
    if is_empty left || ends_with_slash left then left ++ right else left ++ b'/' ∷ right

abbrev to_first : ℕ → List Text → List Text
to_first c [] = (c ∷ []) ∷ []
to_first c (part ∷ parts) = (c ∷ part) ∷ parts

-- The texts between the slashes.
abbrev parts : Text → List Text
parts [] = [] ∷ []
parts (c ∷ s) = if c == b'/' then [] ∷ parts s else to_first c (parts s)

-- Empty parts are repeated slashes; the last one stays, as the mark of a trailing slash.
abbrev squeezed : List Text → List Text
squeezed [] = []
squeezed (part ∷ []) = part ∷ []
squeezed (part ∷ next ∷ rest) =
    if is_empty part then squeezed (next ∷ rest) else part ∷ squeezed (next ∷ rest)

abbrev is_rooted : Text → Bool
is_rooted [] = false
is_rooted (c ∷ s) = c == b'/'

-- The root alone has no elements behind it.
abbrev elements : Text → List Text
elements s = elim (squeezed (parts s)) [
  | [] ↦ []
  | part ∷ rest ↦ if is_empty part then [] else part ∷ rest
]

abbrev eq_texts : List Text → List Text → Bool
eq_texts [] [] = true
eq_texts (s ∷ ss) (t ∷ ts) = eq_text s t && eq_texts ss ts
eq_texts _ _ = false

abbrev same_root : Bool → Bool → Bool
same_root true b = b
same_root false b = not b

unfoldable pub same_path : Text → Text → Bool
unfolding eq_text
same_path s t = same_root (is_rooted s) (is_rooted t) && eq_texts (elements s) (elements t)

path_examples :
    (same_path (text "out//info.json") (text "out/info.json") ≡ true)
    × (same_path (text "/out") (text "out") ≡ false)
    × (same_path (text "out/") (text "out") ≡ false)
    × (same_path (text "//") (text "/") ≡ true)
    × (join (text ".") (text "out") ≡ text "./out")
unfolding same_path join
path_examples = (refl, refl, refl, refl, refl)
