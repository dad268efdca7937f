-- ===== src/Router/Dispatch/Routes.antt =====
-- The resources of the REST API, told apart by target alone, with the facts that src/server/Router.cpp
-- tests for each. Nothing here is code; it is the description that `Router::HandleAsync` is held to.
use recipes_core.Prelude.{
  String, ℕ, Text, text, eq_text, eq_text_iff, ◌≡◌, refl, sym, subst, Bool, true, false, Bool-cases,
  Option, none, some, Option-cases, inl, inr, if◌then◌else◌, starts_with,
}
use recipes_core.Router.Ids.{parse_product_id, parse_recipe_id, products_prefix, recipes_prefix}
use recipes_core.Router.Ids.Targets.{Names, parse_product_id_iff, parse_recipe_id_iff, not-cookable}

pub data Route : Type 0 where
  healthz products recipes cookable unknown : Route
  product recipe : ℕ → Route

abbrev item : Option ℕ → Option ℕ → Route
item (some n) rid = product n
item none (some n) = recipe n
item none none = unknown

unfoldable pub route_of : Text → Route
route_of target =
    if eq_text target (text "/healthz")
    then healthz
    else if eq_text target (text "/v1/products")
    then products
    else if eq_text target (text "/v1/recipes")
    then recipes
    else if eq_text target (text "/v1/recipes/cookable")
    then cookable
    else item (parse_product_id target) (parse_recipe_id target)

-- All that the code asks about a target: the four comparisons and the two ids.
abbrev pub Facts : Text → Bool → Bool → Bool → Bool → Option ℕ → Option ℕ → Type 0
Facts target h p r c pid rid =
    (eq_text target (text "/healthz") ≡ h)
    × (eq_text target (text "/v1/products") ≡ p)
    × (eq_text target (text "/v1/recipes") ≡ r)
    × (eq_text target (text "/v1/recipes/cookable") ≡ c)
    × (parse_product_id target ≡ pid)
    × (parse_recipe_id target ≡ rid)

abbrev pub FactsOf : Text → Route → Type 0
FactsOf target healthz = Facts target true false false false none none
FactsOf target products = Facts target false true false false none none
FactsOf target recipes = Facts target false false true false none none
FactsOf target cookable = Facts target false false false true none none
FactsOf target unknown = Facts target false false false false none none
FactsOf target (product n) = Facts target false false false false (some n) none
FactsOf target (recipe n) = Facts target false false false false none (some n)

healthz_facts : FactsOf (text "/healthz") healthz
unfolding eq_text starts_with parse_product_id parse_recipe_id
healthz_facts = (refl, refl, refl, refl, refl, refl)

products_facts : FactsOf (text "/v1/products") products
unfolding eq_text starts_with parse_product_id parse_recipe_id
products_facts = (refl, refl, refl, refl, refl, refl)

recipes_facts : FactsOf (text "/v1/recipes") recipes
unfolding eq_text starts_with parse_product_id parse_recipe_id
recipes_facts = (refl, refl, refl, refl, refl, refl)

cookable_facts : FactsOf (text "/v1/recipes/cookable") cookable
unfolding eq_text starts_with parse_product_id parse_recipe_id
cookable_facts = (refl, refl, refl, refl, refl, refl)

product_facts :
    (n : ℕ) (target : Text) → Names products_prefix n target → FactsOf target (product n)
unfolding eq_text starts_with
product_facts n target names =
    subst (λ t. parse_product_id t ≡ some n → FactsOf t (product n)) (sym names.split)
      (λ e. (refl, refl, refl, refl, e, unfold parse_recipe_id in refl))
      ((parse_product_id_iff n target).1 names)

recipe_facts : (n : ℕ) (target : Text) → Names recipes_prefix n target → FactsOf target (recipe n)
unfolding starts_with
recipe_facts n target names =
    subst
      (λ t.
        parse_recipe_id t ≡ some n
        → eq_text t (text "/v1/recipes/cookable") ≡ false
        → FactsOf t (recipe n))
      (sym names.split)
      (λ e c. unfold eq_text in (refl, refl, refl, c, unfold parse_product_id in refl, e))
      ((parse_recipe_id_iff n target).1 names) (not-cookable n target names)

at_text :
    (s : String) (target : Text) (P : Text → Type 0)
    → eq_text target (text s) ≡ true
    → P (text s)
    → P target
at_text s target P e h = subst P (sym ((eq_text_iff target (text s)).0 e)) h

-- Every target has the facts of its route.
pub route_of-facts : (target : Text) → FactsOf target (route_of target)
unfolding route_of
route_of-facts target = elim (Bool-cases (eq_text target (text "/healthz"))) [
  | inl a ↦ rw a (at_text "/healthz" target (λ t. FactsOf t healthz) a healthz_facts)
  | inr a ↦ elim (Bool-cases (eq_text target (text "/v1/products"))) [
    | inl b ↦ rw (a, b) (at_text "/v1/products" target (λ t. FactsOf t products) b products_facts)
    | inr b ↦ elim (Bool-cases (eq_text target (text "/v1/recipes"))) [
      | inl c ↦ rw (a, b, c) (at_text "/v1/recipes" target (λ t. FactsOf t recipes) c recipes_facts)
      | inr c ↦ elim (Bool-cases (eq_text target (text "/v1/recipes/cookable"))) [
        | inl d ↦
            rw (a, b, c, d)
              (at_text "/v1/recipes/cookable" target (λ t. FactsOf t cookable) d cookable_facts)
        | inr d ↦ rw (a, b, c, d) (item_facts target a b c d)
      ]
    ]
  ]
]
  where
    item_facts :
        (target : Text)
        → eq_text target (text "/healthz") ≡ false
        → eq_text target (text "/v1/products") ≡ false
        → eq_text target (text "/v1/recipes") ≡ false
        → eq_text target (text "/v1/recipes/cookable") ≡ false
        → FactsOf target (item (parse_product_id target) (parse_recipe_id target))
    item_facts target a b c d = elim (Option-cases (parse_product_id target)) [
      | inr (n, e) ↦ rw e (product_facts n target ((parse_product_id_iff n target).0 e))
      | inl e ↦ elim (Option-cases (parse_recipe_id target)) [
        | inr (n, f) ↦ rw (e, f) (recipe_facts n target ((parse_recipe_id_iff n target).0 f))
        | inl f ↦ rw (e, f) (a, b, c, d, e, f)
      ]
    ]
