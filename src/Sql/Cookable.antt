-- ===== src/Sql/Cookable.antt =====
-- The WHERE clause of kSelectCookableRecipesWithIngredients (include/types/SQL/Types.hpp) against
-- what a cookable recipe is.
use recipes_core.Prelude.{
  ℕ, ℤ, ◌≤ℤ◌, ltb_ℤ, eq_text, eq_text_iff, eq_text-eq, ◌≡◌, ◌↔◌, ◌⊎◌, inl, inr, refl, Bool, true,
  false, not, ◌&&◌, ◌||◌, Bool-cases, &&-eq_true, ==_iff, List, [], ◌∷◌, any, All, ◌==◌, arith,
  ltb_ℤ-eq_false,
}
use recipes_core.Sql.{ProductRow, RecipeRow, IngredientRow, Tables}
use recipes_core.Sql.Statements.{has_key, part_of, lacks, is_cookable}

-- UNIQUE(name, dimension)
abbrev pub UniqueKeys : List ProductRow → Type 0
UniqueKeys [] = Unit {0}
UniqueKeys (p ∷ ps) = (any (has_key p.name p.dimension) ps ≡ false) × UniqueKeys ps

-- A product that an ingredient can be taken from.
pub record Covers (ri : IngredientRow) (p : ProductRow) : Type 0 where
  pub name : p.name ≡ ri.product_name
  pub dimension : p.dimension ≡ ri.dimension
  pub enough : ri.required_amount_base ≤ℤ p.amount_base

abbrev pub IsCovered : List ProductRow → IngredientRow → Type 0
IsCovered [] ri = ⊥
IsCovered (p ∷ ps) ri = Covers ri p ⊎ IsCovered ps ri

has_key_lem :
    (ri : IngredientRow) (p : ProductRow)
    → has_key ri.product_name ri.dimension p ≡ true
    → (p.name ≡ ri.product_name) × (p.dimension ≡ ri.dimension)
has_key_lem ri p h =
    let both = &&-eq_true (eq_text p.name ri.product_name) (p.dimension == ri.dimension) h in
    (eq_text-eq p.name ri.product_name both.0, (==_iff p.dimension ri.dimension).0 both.1)

Covers-has_key :
    (ri : IngredientRow) (p : ProductRow)
    → Covers ri p
    → has_key ri.product_name ri.dimension p ≡ true
Covers-has_key ri p c =
    rw
      (
        (eq_text_iff p.name ri.product_name).1 c.name,
        (==_iff p.dimension ri.dimension).1 c.dimension,
      )
      refl

ltb_ℤ_lem : (a b : ℤ) → b ≤ℤ a → ltb_ℤ a b ≡ false
ltb_ℤ_lem a b h = ground arith

not-eq_true : (b : Bool) → not b ≡ true → b ≡ false
not-eq_true b h = ground arith

or_false : (b : Bool) → (b || false) ≡ b
or_false true = refl
or_false false = refl

module _ (ri : IngredientRow) where
  abbrev is_short : ProductRow → Bool
  is_short p = has_key ri.product_name ri.dimension p && ltb_ℤ p.amount_base ri.required_amount_base

  none_short :
      (ps : List ProductRow)
      → any (has_key ri.product_name ri.dimension) ps ≡ false
      → any is_short ps ≡ false
  none_short [] h = refl
  none_short (p ∷ ps) h = elim (Bool-cases (has_key ri.product_name ri.dimension p)) [
    | inl e ↦ cc
    | inr e ↦ rw e (none_short ps (rw e at h))
  ]

  keyless :
      (ps : List ProductRow)
      → any (has_key ri.product_name ri.dimension) ps ≡ false
      → IsCovered ps ri
      → ⊥
  keyless [] h covered = covered
  keyless (p ∷ ps) h (inl c) = let has = Covers-has_key ri p c in cc
  keyless (p ∷ ps) h (inr m) = elim (Bool-cases (has_key ri.product_name ri.dimension p)) [
    | inl e ↦ cc
    | inr e ↦ keyless ps (rw e at h) m
  ]

  -- Where the first product has the ingredient's key, no other has.
  rest_keyless :
      (p : ProductRow) (ps : List ProductRow)
      → has_key ri.product_name ri.dimension p ≡ true
      → any (has_key p.name p.dimension) ps ≡ false
      → any (has_key ri.product_name ri.dimension) ps ≡ false
  rest_keyless p ps e h = let same = has_key_lem ri p e in rw (← same.0, ← same.1) h

  lacks_head :
      (p : ProductRow) (ps : List ProductRow)
      → has_key ri.product_name ri.dimension p ≡ true
      → any (has_key ri.product_name ri.dimension) ps ≡ false
      → lacks (p ∷ ps) ri ≡ ltb_ℤ p.amount_base ri.required_amount_base
  unfolding lacks
  lacks_head p ps e h =
      rw (e, none_short ps h) (or_false (ltb_ℤ p.amount_base ri.required_amount_base))

  lacks_tail :
      (p : ProductRow) (ps : List ProductRow)
      → has_key ri.product_name ri.dimension p ≡ false
      → lacks (p ∷ ps) ri ≡ lacks ps ri
  unfolding lacks
  lacks_tail p ps e = rw e refl

  lacks_iff : (ps : List ProductRow) → UniqueKeys ps → (lacks ps ri ≡ false) ↔ IsCovered ps ri
  lacks_iff [] u = (λ h. unfold lacks in cc, λ h. absurd h)
  lacks_iff (p ∷ ps) u = elim (Bool-cases (has_key ri.product_name ri.dimension p)) [
    | inl e ↦
        let alone = rest_keyless p ps e u.0 in rw (lacks_head p ps e alone) (covered_head e alone)
    | inr e ↦ rw (lacks_tail p ps e) (covered_tail e (lacks_iff ps u.1))
  ]
    where
      covered_head :
          has_key ri.product_name ri.dimension p ≡ true
          → any (has_key ri.product_name ri.dimension) ps ≡ false
          → (ltb_ℤ p.amount_base ri.required_amount_base ≡ false) ↔ IsCovered (p ∷ ps) ri
      covered_head e alone = (
        λ h. inl (record {
          name = (has_key_lem ri p e).0;
          dimension = (has_key_lem ri p e).1;
          enough = ltb_ℤ-eq_false p.amount_base ri.required_amount_base h;
        }),
        λ covered. elim covered [
          | inl c ↦ ltb_ℤ_lem p.amount_base ri.required_amount_base c.enough
          | inr m ↦ absurd (keyless ps alone m)
        ],
      )

      covered_tail :
          has_key ri.product_name ri.dimension p ≡ false
          → ((lacks ps ri ≡ false) ↔ IsCovered ps ri)
          → (lacks ps ri ≡ false) ↔ IsCovered (p ∷ ps) ri
      covered_tail e rest = (
        λ h. inr (rest.0 h),
        λ covered. elim covered [
          | inl c ↦ let has = Covers-has_key ri p c in cc
          | inr m ↦ rest.1 m
        ],
      )

-- Every ingredient of the recipe has a product that covers it.
abbrev pub IsCookable : Tables → RecipeRow → Type 0
IsCookable t r = All (λ ri. ri.recipe_id ≡ r.id → IsCovered t.products ri) t.recipe_ingredients

parts_iff :
    (ps : List ProductRow) (id : ℕ) (parts : List IngredientRow)
    → UniqueKeys ps
    → (any (λ ri. part_of id ri && lacks ps ri) parts ≡ false)
      ↔ All (λ ri. ri.recipe_id ≡ id → IsCovered ps ri) parts
parts_iff ps id [] u = (λ h. tt, λ h. refl)
parts_iff ps id (ri ∷ parts) u = elim (Bool-cases (part_of id ri)) [
  | inl e ↦ rw e (own e (parts_iff ps id parts u))
  | inr e ↦ rw e (others e (parts_iff ps id parts u))
]
  where
    own :
        part_of id ri ≡ true
        → ((any (λ x. part_of id x && lacks ps x) parts ≡ false)
            ↔ All (λ x. x.recipe_id ≡ id → IsCovered ps x) parts)
        → ((lacks ps ri || any (λ x. part_of id x && lacks ps x) parts) ≡ false)
          ↔ All (λ x. x.recipe_id ≡ id → IsCovered ps x) (ri ∷ parts)
    own e rest = (
      λ h. elim (Bool-cases (lacks ps ri)) [
        | inl l ↦ cc
        | inr l ↦ (λ _. (lacks_iff ri ps u).0 l, rest.0 (rw l at h))
      ],
      λ h. rw ((lacks_iff ri ps u).1 (h.0 ((==_iff ri.recipe_id id).0 e)), rest.1 h.1) refl,
    )

    others :
        part_of id ri ≡ false
        → ((any (λ x. part_of id x && lacks ps x) parts ≡ false)
            ↔ All (λ x. x.recipe_id ≡ id → IsCovered ps x) parts)
        → (any (λ x. part_of id x && lacks ps x) parts ≡ false)
          ↔ All (λ x. x.recipe_id ≡ id → IsCovered ps x) (ri ∷ parts)
    others e rest =
        (λ h. (λ same. let is = (==_iff ri.recipe_id id).1 same in cc, rest.0 h), λ h. rest.1 h.1)

-- With the products' key unique, the query's condition holds of a recipe exactly when each of its
-- ingredients has a product of that name and dimension with at least the required amount.
pub is_cookable_iff :
    (t : Tables) (r : RecipeRow) → UniqueKeys t.products → (is_cookable t r ≡ true) ↔ IsCookable t r
unfolding is_cookable
is_cookable_iff t r u =
    let missing = any (λ ri. part_of r.id ri && lacks t.products ri) t.recipe_ingredients in
    let parts = parts_iff t.products r.id t.recipe_ingredients u in
    (λ h. parts.0 (not-eq_true missing h), λ h. rw (parts.1 h) refl)
