-- ===== src/Router/Ids/Targets.antt =====
-- Which targets name a product or a recipe: `ParseProductId` and `ParseRecipeId` of
-- src/server/Router.cpp.
use recipes_core.Prelude.{
  ℕ, Text, text, eq_text, eq_text_iff, starts_with, starts_with-append, starts_with-split, ◌≡◌,
  refl, sym, ap, ◌∙◌, subst, ◌↔◌, Bool, false, Bool-cases, inl, inr, ◌||◌, not, Option, none, some,
  [], ◌∷◌, ◌++◌, length, length-append, drop, drop-append, ◌==◌, if◌then◌else◌, arith,
}
use recipes_core.Router.Ids.{
  parse_product_id, parse_recipe_id, products_prefix, recipes_prefix, accept_id, from_chars,
  is_digit,
}
use recipes_core.Router.Ids.Numerals.{IsIdText, AllDigits, from_chars_sound, from_chars_complete}

-- A target made of the prefix and the decimal text of the id.
pub record Names (prefix : Text) (n : ℕ) (target : Text) : Type 0 where
  pub id_text : Text
  pub split : target ≡ prefix ++ id_text
  pub shows : IsIdText n id_text

abbrev guarded : Text → Bool → Text → Option ℕ
guarded prefix excluded target =
    if not (starts_with target prefix) || length target == length prefix || excluded
    then none
    else accept_id (from_chars (drop (length prefix) target))

guarded_sound :
    (prefix : Text) (excluded : Bool) (n : ℕ) (target : Text)
    → guarded prefix excluded target ≡ some n
    → Names prefix n target
guarded_sound prefix excluded n target h = record {
  id_text = drop (length prefix) target;
  split = starts_with-split target prefix (ground arith);
  shows = from_chars_sound n (drop (length prefix) target) (ground arith);
}

not-empty :
    (n : ℕ) (prefix s : Text) → IsIdText n s → (length (prefix ++ s) == length prefix) ≡ false
not-empty n prefix [] shows = absurd (omega (arith, shows.shows, shows.positive))
not-empty n prefix (c ∷ s) shows = ground (arith, length-append prefix (c ∷ s))

guarded_complete :
    (prefix : Text) (n : ℕ) (s : Text) → IsIdText n s → guarded prefix false (prefix ++ s) ≡ some n
guarded_complete prefix n s shows =
    rw (starts_with-append prefix s, not-empty n prefix s shows, drop-append prefix s)
      (from_chars_complete n s shows)

product-guarded : (target : Text) → parse_product_id target ≡ guarded products_prefix false target
unfolding parse_product_id
product-guarded target = ground arith

recipe-guarded :
    (target : Text)
    → parse_recipe_id target
      ≡ guarded recipes_prefix (eq_text target (text "/v1/recipes/cookable")) target
unfolding parse_recipe_id
recipe-guarded target = refl

-- A target is taken for product n exactly when it is `/v1/products/` and digits that show n, with
-- 0 < n < 2^63.
pub parse_product_id_iff :
    (n : ℕ) (target : Text) → (parse_product_id target ≡ some n) ↔ Names products_prefix n target
parse_product_id_iff n target = (
  λ h. guarded_sound products_prefix false n target (sym (product-guarded target) ∙ h),
  λ names.
      product-guarded target
      ∙ ap (guarded products_prefix false) names.split
      ∙ guarded_complete products_prefix n names.id_text names.shows,
)

not_digits : AllDigits (text "cookable") → ⊥
not_digits h = unfold is_digit in cc

pub not-cookable :
    (n : ℕ) (target : Text)
    → Names recipes_prefix n target
    → eq_text target (text "/v1/recipes/cookable") ≡ false
not-cookable n target names = elim (Bool-cases (eq_text target (text "/v1/recipes/cookable"))) [
  | inl e ↦ absurd (no_digit (same ((eq_text_iff target (text "/v1/recipes/cookable")).0 e)))
  | inr e ↦ e
]
  where
    same : target ≡ text "/v1/recipes/cookable" → names.id_text ≡ text "cookable"
    same e =
        sym (drop-append recipes_prefix names.id_text)
        ∙ ap (drop (length recipes_prefix)) (sym names.split ∙ e)

    no_digit : names.id_text ≡ text "cookable" → ⊥
    no_digit e = not_digits (subst AllDigits e names.shows.digits)

-- A target is taken for recipe n exactly when it is `/v1/recipes/` and digits that show n, with
-- 0 < n < 2^63; the test for `/v1/recipes/cookable` takes none of these away.
pub parse_recipe_id_iff :
    (n : ℕ) (target : Text) → (parse_recipe_id target ≡ some n) ↔ Names recipes_prefix n target
parse_recipe_id_iff n target = (
  λ h. guarded_sound recipes_prefix _ n target (sym (recipe-guarded target) ∙ h),
  λ names.
      recipe-guarded target
      ∙ ap (λ b. guarded recipes_prefix b target) (not-cookable n target names)
      ∙ ap (guarded recipes_prefix false) names.split
      ∙ guarded_complete recipes_prefix n names.id_text names.shows,
)
