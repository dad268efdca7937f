-- ===== src/Sql/Consistency/Recipes.antt =====
-- The statements on the table `recipes` of include/types/SQL/Types.hpp keep
-- all constraints.
use recipes_core.Prelude.{
  ℕ, ◌≤◌, ◌<◌, Text, ◌≡◌, refl, Bool, true, false, not, ◌&&◌, List, [], ◌∷◌, ◌++◌, any, any-append,
  keep, All, All-append, All-map, All-keep, Pairs-append_one, Pairs-keep, Pairs-both, All-both,
  any-All, ◌∙◌, if_cases, Bool-cases, inl, inr, arith,
}
use recipes_core.Sql.{RecipeRow, IngredientRow, Tables}
use recipes_core.Sql.Statements.{
  named, is_recipe, part_of, update_rows, new_recipe, create_recipe, insert_recipe_if_absent,
  update_recipe_name_by_id, delete_recipe_by_id,
}
use recipes_core.Sql.Consistency.{
  DifferentNames, DifferentRecipes, DifferentParts, AreRecipes, IsConsistent, KeepsConsistent,
  changed, All-update_rows, Pairs-update_rows, any-update_rows, DifferentNames-sym,
}

append-AreRecipes :
    (row : RecipeRow) (rows : List RecipeRow) (seq : ℕ)
    → seq < row.id
    → any (named row.name) rows ≡ false
    → AreRecipes rows seq
    → AreRecipes (rows ++ row ∷ []) row.id
append-AreRecipes row rows seq fresh free h = record {
  names =
      Pairs-append_one DifferentNames rows row
        (All-map (λ r. named row.name r ≡ false) _ rows (λ r. DifferentNames-sym row r)
          (any-All (named row.name) rows free))
        h.names;
  ids =
      Pairs-append_one DifferentRecipes rows row
        (All-map (λ r. r.id ≤ seq) (λ r. DifferentRecipes r row) rows (λ r known. ground arith)
          h.known)
        h.ids;
  known =
      All-append (λ r. r.id ≤ row.id) rows (row ∷ [])
        (All-map (λ r. r.id ≤ seq) (λ r. r.id ≤ row.id) rows (λ r known. omega arith) h.known)
        (omega arith, tt);
}

new_recipe-IsConsistent :
    (id : ℕ) (name : Text) (t : Tables)
    → t.recipes_seq < id
    → any (named name) t.recipes ≡ false
    → IsConsistent t
    → IsConsistent (new_recipe id name t)
new_recipe-IsConsistent id name t fresh free h = record {
  products = h.products;
  recipes =
      append-AreRecipes (record { id = id; name = name }) t.recipes t.recipes_seq fresh free
        h.recipes;
  parts = record {
    keys = h.parts.keys;
    required = h.parts.required;
    owned =
        All-map (λ i. any (is_recipe i.recipe_id) t.recipes ≡ true) _ t.recipe_ingredients
          (λ i there.
            rw
              (
                any-append (is_recipe i.recipe_id) t.recipes (record { id = id; name = name } ∷ []),
                there,
              )
              refl)
          h.parts.owned;
  };
}

pub create_recipe-KeepsConsistent :
    (id : ℕ) (name : Text) (t : Tables)
    → t.recipes_seq < id
    → IsConsistent t
    → KeepsConsistent (create_recipe id name t)
unfolding create_recipe
create_recipe-KeepsConsistent id name t fresh h =
    if_cases KeepsConsistent (any (named name) t.recipes) _ _ (λ _. tt)
      λ free. new_recipe-IsConsistent id name t fresh free h

-- A larger counter.
counted-IsConsistent :
    (seq : ℕ) (t : Tables)
    → t.recipes_seq ≤ seq
    → IsConsistent t
    → IsConsistent (record t { recipes_seq = seq })
counted-IsConsistent seq t le h = record {
  products = h.products;
  recipes = record {
    names = h.recipes.names;
    ids = h.recipes.ids;
    known =
        All-map (λ r. r.id ≤ t.recipes_seq) (λ r. r.id ≤ seq) t.recipes (λ r k. omega arith)
          h.recipes.known;
  };
  parts = h.parts;
}

pub insert_recipe_if_absent-IsConsistent :
    (id : ℕ) (name : Text) (t : Tables)
    → t.recipes_seq < id
    → IsConsistent t
    → IsConsistent (insert_recipe_if_absent id name t)
unfolding insert_recipe_if_absent
insert_recipe_if_absent-IsConsistent id name t fresh h =
    if_cases IsConsistent (any (named name) t.recipes) _ _
      (λ _. counted-IsConsistent id t (omega arith) h)
      λ free. new_recipe-IsConsistent id name t fresh free h

-- A new name for the recipe with an id.
module _ (id : ℕ) (name : Text) where
  abbrev renamed : RecipeRow → RecipeRow
  renamed r = changed (is_recipe id) (λ row. record { id = row.id; name = name }) r

  abbrev taken : RecipeRow → Bool
  taken row = not (is_recipe id row) && named name row

  renamed-DifferentNames :
      (r s : RecipeRow)
      → taken r ≡ false
      → taken s ≡ false
      → DifferentNames r s
      → DifferentRecipes r s
      → DifferentNames (renamed r) (renamed s)
  renamed-DifferentNames r s hr hs names ids =
      if_cases (λ (a : RecipeRow). DifferentNames a (renamed s)) (is_recipe id r) _ _
        (λ first.
          if_cases (λ (b : RecipeRow). named name b ≡ false) (is_recipe id s) _ _
            (λ second. ground arith) λ other. ground arith)
        λ other.
          if_cases (λ (b : RecipeRow). DifferentNames r b) (is_recipe id s) _ _
            (λ second. DifferentNames-sym (record { id = s.id; name = name }) r (ground arith))
            λ _. names

  renamed_id : (r : RecipeRow) → (renamed r).id ≡ r.id
  renamed_id r =
      if_cases (λ (a : RecipeRow). a.id ≡ r.id) (is_recipe id r) _ _ (λ _. refl) (λ _. refl)

  renamed-AreRecipes :
      (rows : List RecipeRow) (seq : ℕ)
      → any taken rows ≡ false
      → AreRecipes rows seq
      → AreRecipes
          (update_rows (is_recipe id) (λ row. record { id = row.id; name = name }) rows)
          seq
  renamed-AreRecipes rows seq free h = record {
    names =
        Pairs-update_rows (is_recipe id) (λ row. record { id = row.id; name = name }) _
          DifferentNames rows (λ r s k. renamed-DifferentNames r s k.0 k.1 k.2 k.3)
          (Pairs-both (λ r. taken r ≡ false) DifferentNames DifferentRecipes rows
            (any-All taken rows free) h.names h.ids);
    ids =
        Pairs-update_rows (is_recipe id) (λ row. record { id = row.id; name = name })
          DifferentRecipes DifferentRecipes rows (λ r s d. rw (renamed_id r, renamed_id s) d) h.ids;
    known =
        All-update_rows (is_recipe id) (λ row. record { id = row.id; name = name })
          (λ r. r.id ≤ seq) (λ r. r.id ≤ seq) rows (λ r k. rw (renamed_id r) k) h.known;
  }

  unchanged :
      (rows : List RecipeRow)
      → any (is_recipe id) rows ≡ false
      → update_rows (is_recipe id) (λ row. record { id = row.id; name = name }) rows ≡ rows
  unfolding update_rows
  unchanged [] h = refl
  unchanged (r ∷ rows) h = elim (Bool-cases (is_recipe id r)) [
    | inl e ↦ cc
    | inr e ↦ rw (e, unchanged rows (rw e at h)) refl
  ]

  renamed-IsConsistent :
      (t : Tables)
      → AreRecipes
          (update_rows (is_recipe id) (λ row. record { id = row.id; name = name }) t.recipes)
          t.recipes_seq
      → IsConsistent t
      → IsConsistent (record t {
        recipes = update_rows (is_recipe id) (λ row. record { id = row.id; name = name }) t.recipes;
      })
  renamed-IsConsistent t recipes h = record {
    products = h.products;
    recipes = recipes;
    parts = record {
      keys = h.parts.keys;
      required = h.parts.required;
      owned =
          All-map (λ i. any (is_recipe i.recipe_id) t.recipes ≡ true) _ t.recipe_ingredients
            (λ i k.
              any-update_rows (is_recipe id) (λ row. record { id = row.id; name = name })
                (is_recipe i.recipe_id) t.recipes (λ r. rw (renamed_id r) refl)
              ∙ k)
            h.parts.owned;
    };
  }

  pub update_recipe_name_by_id-KeepsConsistent :
      (t : Tables) → IsConsistent t → KeepsConsistent (update_recipe_name_by_id id name t)
  unfolding update_recipe_name_by_id
  update_recipe_name_by_id-KeepsConsistent t h =
      if_cases KeepsConsistent (any taken t.recipes && any (is_recipe id) t.recipes) _ _ (λ _. tt)
        λ ok.
          renamed-IsConsistent t
            (elim (Bool-cases (any taken t.recipes)) [
              | inr free ↦ renamed-AreRecipes t.recipes t.recipes_seq free h.recipes
              | inl e ↦ rw (unchanged t.recipes (ground arith)) h.recipes
            ])
            h

any-keep-true :
    {A : Type 0} (f test : A → Bool) (xs : List A)
    → ((x : A) → f x ≡ true → test x ≡ true)
    → any f xs ≡ true
    → any f (keep test xs) ≡ true
any-keep-true f test [] through h = cc
any-keep-true f test (x ∷ xs) through h = elim (Bool-cases (f x)) [
  | inl e ↦ rw (through x e, e) refl
  | inr e ↦
      if_cases (λ ys. any f ys ≡ true) (test x) _ _
        (λ _. rw e (any-keep-true f test xs through (rw e at h)))
        λ _. any-keep-true f test xs through (rw e at h)
]

All-kept : {A : Type 0} (test : A → Bool) (xs : List A) → All (λ x. test x ≡ true) (keep test xs)
All-kept test [] = tt
All-kept test (x ∷ xs) =
    if_cases (All (λ y. test y ≡ true)) (test x) _ _ (λ e. (e, All-kept test xs))
      (λ _. All-kept test xs)

pub delete_recipe_by_id-IsConsistent :
    (id : ℕ) (t : Tables) → IsConsistent t → IsConsistent (delete_recipe_by_id id t)
unfolding delete_recipe_by_id
delete_recipe_by_id-IsConsistent id t h =
    let kept : IngredientRow → Bool = λ row. not (part_of id row) in
    let left : RecipeRow → Bool = λ row. not (is_recipe id row) in
    record {
      products = h.products;
      recipes = record {
        names = Pairs-keep left DifferentNames t.recipes h.recipes.names;
        ids = Pairs-keep left DifferentRecipes t.recipes h.recipes.ids;
        known = All-keep left _ t.recipes h.recipes.known;
      };
      parts = record {
        keys = Pairs-keep kept DifferentParts t.recipe_ingredients h.parts.keys;
        required = All-keep kept _ t.recipe_ingredients h.parts.required;
        owned =
            All-map (λ i. (kept i ≡ true) × (any (is_recipe i.recipe_id) t.recipes ≡ true))
              (λ i. any (is_recipe i.recipe_id) (keep left t.recipes) ≡ true)
              (keep kept t.recipe_ingredients)
              (λ i k.
                any-keep-true (is_recipe i.recipe_id) left t.recipes (λ r e. ground arith) k.1)
              (All-both _ _ (keep kept t.recipe_ingredients) (All-kept kept t.recipe_ingredients)
                (All-keep kept _ t.recipe_ingredients h.parts.owned));
      };
    }
