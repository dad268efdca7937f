-- ===== src/Sql/Selection.antt =====
-- What `kSelectProductById` of include/types/SQL/Types.hpp finds after each statement that writes to
-- the products.
use mathlib.Core.Option
use native.Mathlib.Nat.{zero-add}
use recipes_core.Prelude.{
  ℕ, ◌<◌, ◌≤◌, ◌≡◌, refl, ap, subst, Bool, true, false, Bool-cases, not, none, some, inl, inr, List,
  [], ◌∷◌, ◌++◌, All, Pairs, any, keep, is_some, ◌==◌, arith, if◌then◌else◌,
}
use recipes_core.Sql.{ProductRow}
use recipes_core.Sql.Statements.{
  ProductValues, overwrite, has_id, update_rows, count, select_product_by_id,
}
use recipes_core.Sql.Consistency.{DifferentIds}

pub any-select_product_by_id :
    (id : ℕ) (rows : List ProductRow)
    → any (has_id id) rows ≡ is_some (select_product_by_id id rows)
unfolding select_product_by_id
any-select_product_by_id id [] = refl
any-select_product_by_id id (row ∷ rows) = elim (Bool-cases (has_id id row)) [
  | inl e ↦ rw e refl
  | inr e ↦ rw e (any-select_product_by_id id rows)
]

-- Of rows with different ids, at most one is found.
pub count-select_product_by_id :
    (id : ℕ) (rows : List ProductRow)
    → Pairs DifferentIds rows
    → count (has_id id) rows ≡ (if is_some (select_product_by_id id rows) then 1 else 0)
unfolding select_product_by_id
count-select_product_by_id id [] h = refl
count-select_product_by_id id (row ∷ rows) h = elim (Bool-cases (has_id id row)) [
  | inl e ↦ rw (e, no_more rows h.0 e) refl
  | inr e ↦ rw (e, zero-add (count (has_id id) rows)) (count-select_product_by_id id rows h.1)
]
  where
    no_more :
        (rows : List ProductRow)
        → All (DifferentIds row) rows
        → has_id id row ≡ true
        → count (has_id id) rows ≡ 0
    no_more [] h e = refl
    no_more (other ∷ rows) h e =
        let different : has_id id other ≡ false = ground (arith, h.0) in
        rw (different, no_more rows h.1 e) refl

pub select_product_by_id-append :
    (id : ℕ) (row : ProductRow) (rows : List ProductRow)
    → has_id id row ≡ false
    → select_product_by_id id (rows ++ row ∷ []) ≡ select_product_by_id id rows
unfolding select_product_by_id
select_product_by_id-append id row [] e = rw e refl
select_product_by_id-append id row (r ∷ rows) e =
    ap (λ found. if has_id id r then some r else found) (select_product_by_id-append id row rows e)

pub select_product_by_id-fresh :
    (id seq : ℕ) (rows : List ProductRow)
    → seq < id
    → All (λ r. r.id ≤ seq) rows
    → select_product_by_id id rows ≡ none
unfolding select_product_by_id
select_product_by_id-fresh id seq [] lt h = refl
select_product_by_id-fresh id seq (r ∷ rows) lt h =
    let other : has_id id r ≡ false = ground (arith, h.0) in
    rw (other, select_product_by_id-fresh id seq rows lt h.1) refl

pub select_product_by_id-deleted :
    (id : ℕ) (rows : List ProductRow)
    → select_product_by_id id (keep (λ row. not (has_id id row)) rows) ≡ none
unfolding select_product_by_id
select_product_by_id-deleted id [] = refl
select_product_by_id-deleted id (r ∷ rows) = elim (Bool-cases (has_id id r)) [
  | inl e ↦ rw e (select_product_by_id-deleted id rows)
  | inr e ↦ let later = select_product_by_id-deleted id rows in rw (e, e) later
]

pub select_product_by_id-kept :
    (id q : ℕ) (rows : List ProductRow)
    → (q == id) ≡ false
    → select_product_by_id q (keep (λ row. not (has_id id row)) rows) ≡ select_product_by_id q rows
unfolding select_product_by_id
select_product_by_id-kept id q [] h = refl
select_product_by_id-kept id q (r ∷ rows) h = elim (Bool-cases (has_id id r)) [
  | inl e ↦
      let other : has_id q r ≡ false = ground arith in
      rw (e, other) (select_product_by_id-kept id q rows h)
  | inr e ↦
      rw e
        (ap (λ found. if has_id q r then some r else found) (select_product_by_id-kept id q rows h))
]

pub select_product_by_id-appended :
    (id : ℕ) (row : ProductRow) (rows : List ProductRow)
    → has_id id row ≡ true
    → select_product_by_id id rows ≡ none
    → select_product_by_id id (rows ++ row ∷ []) ≡ some row
unfolding select_product_by_id
select_product_by_id-appended id row [] e h = rw e refl
select_product_by_id-appended id row (r ∷ rows) e h = elim (Bool-cases (has_id id r)) [
  | inl found ↦ ground arith
  | inr other ↦ rw other (select_product_by_id-appended id row rows e (ground arith))
]

pub select_product_by_id-id :
    (id : ℕ) (rows : List ProductRow) (row : ProductRow)
    → select_product_by_id id rows ≡ some row
    → row.id ≡ id
unfolding select_product_by_id
select_product_by_id-id id [] row h = ground arith
select_product_by_id-id id (r ∷ rows) row h = elim (Bool-cases (has_id id r)) [
  | inl e ↦ ground arith
  | inr e ↦ select_product_by_id-id id rows row (ground arith)
]

-- A test that no row passes fails at the row found.
pub select_product_by_id-untested :
    (test : ProductRow → Bool) (id : ℕ) (rows : List ProductRow) (row : ProductRow)
    → any test rows ≡ false
    → select_product_by_id id rows ≡ some row
    → test row ≡ false
unfolding select_product_by_id
select_product_by_id-untested test id [] row h found = ground arith
select_product_by_id-untested test id (r ∷ rows) row h found = elim (Bool-cases (has_id id r)) [
  | inl e ↦ ground arith
  | inr e ↦ select_product_by_id-untested test id rows row (ground arith) (ground arith)
]

pub select_product_by_id-All :
    (P : ProductRow → Type 0) (id : ℕ) (rows : List ProductRow) (row : ProductRow)
    → All P rows
    → select_product_by_id id rows ≡ some row
    → P row
unfolding select_product_by_id
select_product_by_id-All P id [] row h found = ground arith
select_product_by_id-All P id (r ∷ rows) row h found = elim (Bool-cases (has_id id r)) [
  | inl e ↦ let same : r ≡ row = ground arith in subst P same h.0
  | inr e ↦ select_product_by_id-All P id rows row h.1 (ground arith)
]

-- A row that passes a test is found by its id.
abbrev pub Tested : (ProductRow → Bool) → List ProductRow → Type 0
Tested test rows =
    (row : ProductRow) × (select_product_by_id row.id rows ≡ some row) × (test row ≡ true)

pub any-Tested :
    (test : ProductRow → Bool) (rows : List ProductRow)
    → Pairs DifferentIds rows
    → any test rows ≡ true
    → Tested test rows
unfolding select_product_by_id
any-Tested test [] h e = ground arith
any-Tested test (r ∷ rows) h e = elim (Bool-cases (test r)) [
  | inl here ↦ (r, ground arith, here)
  | inr other ↦
      let there = any-Tested test rows h.1 (ground arith) in
      let row = there.0 in
      let apart = found_apart rows row r h.0 there.1 in (row, rw apart there.1, there.2)
]
  where
    found_apart :
        (rows : List ProductRow) (row r : ProductRow)
        → All (DifferentIds r) rows
        → select_product_by_id row.id rows ≡ some row
        → has_id row.id r ≡ false
    found_apart [] row r h found = ground arith
    found_apart (next ∷ rows) row r h found = elim (Bool-cases (has_id row.id next)) [
      | inl e ↦ ground (arith, h.0)
      | inr e ↦ found_apart rows row r h.1 (ground arith)
    ]

module _ (id : ℕ) (v : ProductValues) where
  pub select_product_by_id-updated :
      (rows : List ProductRow)
      → select_product_by_id id (update_rows (has_id id) (overwrite v) rows)
        ≡ Option.map (overwrite v) (select_product_by_id id rows)
  unfolding select_product_by_id update_rows
  select_product_by_id-updated [] = refl
  select_product_by_id-updated (r ∷ rows) = elim (Bool-cases (has_id id r)) [
    | inl e ↦ rw (e, e) refl
    | inr e ↦ rw (e, e) (select_product_by_id-updated rows)
  ]

  pub select_product_by_id-others :
      (q : ℕ) (rows : List ProductRow)
      → (q == id) ≡ false
      → select_product_by_id q (update_rows (has_id id) (overwrite v) rows)
        ≡ select_product_by_id q rows
  unfolding select_product_by_id update_rows
  select_product_by_id-others q [] h = refl
  select_product_by_id-others q (r ∷ rows) h = elim (Bool-cases (has_id id r)) [
    | inl e ↦
        let other : has_id q r ≡ false = ground arith in
        rw (e, other) (select_product_by_id-others q rows h)
    | inr e ↦
        rw e (
          ap (λ found. if has_id q r then some r else found) (select_product_by_id-others q rows h))
  ]
