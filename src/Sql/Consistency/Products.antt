-- ===== src/Sql/Consistency/Products.antt =====
-- The statements on the table `products` of include/types/SQL/Types.hpp keep all constraints.
use recipes_core.Prelude.{
  ℕ, ◌≤◌, ◌<◌, ◌≡◌, refl, Bool, false, not, ◌&&◌, ◌||◌, List, [], ◌∷◌, ◌++◌, any, All-append,
  All-map, All-keep, Pairs, Pairs-append_one, Pairs-keep, Pairs-both, Pairs-map, any-All,
  &&-eq_true, ==_iff, eq_text-eq, sym, if_cases, eq_text, ◌==◌, arith,
}
use recipes_core.Sql.{ProductRow, Tables}
use recipes_core.Sql.Statements.{
  ProductValues, row_of, overwrite, has_key, has_id, negative, update_rows, create_product,
  insert_product, update_product_by_id, delete_product_by_id,
}
use recipes_core.Sql.Consistency.{
  DifferentKeys, DifferentIds, AreProducts, IsConsistent, KeepsConsistent, changed, All-update_rows,
  Pairs-update_rows, DifferentKeys-sym,
}

append-AreProducts :
    (id : ℕ) (v : ProductValues) (rows : List ProductRow) (seq : ℕ)
    → seq < id
    → negative v.amount_base ≡ false
    → any (has_key v.name v.dimension) rows ≡ false
    → AreProducts rows seq
    → AreProducts (rows ++ row_of id v ∷ []) id
append-AreProducts id v rows seq fresh amount free h = record {
  keys =
      Pairs-append_one DifferentKeys rows (row_of id v)
        (All-map _ _ rows (λ p. DifferentKeys-sym (row_of id v) p)
          (any-All (has_key v.name v.dimension) rows free))
        h.keys;
  ids =
      Pairs-append_one DifferentIds rows (row_of id v)
        (All-map (λ p. p.id ≤ seq) (λ p. DifferentIds p (row_of id v)) rows
          (λ p known. ground arith) h.known)
        h.ids;
  known =
      All-append (λ p. p.id ≤ id) rows (row_of id v ∷ [])
        (All-map (λ p. p.id ≤ seq) (λ p. p.id ≤ id) rows (λ p known. omega arith) h.known)
        (omega arith, tt);
  stocked =
      All-append (λ p. negative p.amount_base ≡ false) rows (row_of id v ∷ []) h.stocked
        (amount, tt);
}

pub append-IsConsistent :
    (id : ℕ) (v : ProductValues) (t : Tables)
    → t.products_seq < id
    → negative v.amount_base ≡ false
    → any (has_key v.name v.dimension) t.products ≡ false
    → IsConsistent t
    → IsConsistent (record t { products = t.products ++ row_of id v ∷ []; products_seq = id })
append-IsConsistent id v t fresh amount free h = record {
  products = append-AreProducts id v t.products t.products_seq fresh amount free h.products;
  recipes = h.recipes;
  parts = h.parts;
}

pub create_product-KeepsConsistent :
    (id : ℕ) (v : ProductValues) (t : Tables)
    → t.products_seq < id
    → IsConsistent t
    → KeepsConsistent (create_product id v t)
unfolding create_product
create_product-KeepsConsistent id v t fresh h =
    if_cases KeepsConsistent (negative v.amount_base || any (has_key v.name v.dimension) t.products)
      _ _ (λ _. tt) λ ok. append-IsConsistent id v t fresh (ground arith) (ground arith) h

pub delete_product_by_id-IsConsistent :
    (id : ℕ) (t : Tables) → IsConsistent t → IsConsistent (delete_product_by_id id t)
unfolding delete_product_by_id
delete_product_by_id-IsConsistent id t h =
    let kept : ProductRow → Bool = λ row. not (has_id id row) in
    let rows = h.products in
    record {
      products = record {
        keys = Pairs-keep kept DifferentKeys t.products rows.keys;
        ids = Pairs-keep kept DifferentIds t.products rows.ids;
        known = All-keep kept (λ p. p.id ≤ t.products_seq) t.products rows.known;
        stocked = All-keep kept (λ p. negative p.amount_base ≡ false) t.products rows.stocked;
      };
      recipes = h.recipes;
      parts = h.parts;
    }

-- New values for the rows that pass a test: only the keys of two rows may come together.
module _ (test : ProductRow → Bool) (v : ProductValues) where
  abbrev new_values : ProductRow → ProductRow
  new_values p = changed test (overwrite v) p

  update-AreProducts :
      (rows : List ProductRow) (seq : ℕ)
      → negative v.amount_base ≡ false
      → Pairs (λ p q. DifferentKeys (new_values p) (new_values q)) rows
      → AreProducts rows seq
      → AreProducts (update_rows test (overwrite v) rows) seq
  update-AreProducts rows seq amount apart h = record {
    keys = Pairs-update_rows test (overwrite v) _ DifferentKeys rows (λ p q d. d) apart;
    ids =
        Pairs-update_rows test (overwrite v) DifferentIds DifferentIds rows
          (λ p q d.
            if_cases (λ (r : ProductRow). DifferentIds r (new_values q)) (test p) _ _
              (λ _.
                if_cases (λ (r : ProductRow). has_id p.id r ≡ false) (test q) _ _ (λ _. d) (λ _. d))
              λ _.
                if_cases (λ (r : ProductRow). has_id p.id r ≡ false) (test q) _ _ (λ _. d) (λ _. d))
          h.ids;
    known =
        All-update_rows test (overwrite v) (λ p. p.id ≤ seq) (λ p. p.id ≤ seq) rows
          (λ p k. if_cases (λ (r : ProductRow). r.id ≤ seq) (test p) _ _ (λ _. k) (λ _. k)) h.known;
    stocked =
        All-update_rows test (overwrite v) (λ p. negative p.amount_base ≡ false)
          (λ p. negative p.amount_base ≡ false) rows
          (λ p k.
            if_cases (λ (r : ProductRow). negative r.amount_base ≡ false) (test p) _ _ (λ _. amount)
              (λ _. k))
          h.stocked;
  }

  update-IsConsistent :
      (t : Tables)
      → negative v.amount_base ≡ false
      → Pairs (λ p q. DifferentKeys (new_values p) (new_values q)) t.products
      → IsConsistent t
      → IsConsistent (record t { products = update_rows test (overwrite v) t.products })
  update-IsConsistent t amount apart h = record {
    products = update-AreProducts t.products t.products_seq amount apart h.products;
    recipes = h.recipes;
    parts = h.parts;
  }

abbrev HasSameKey : ProductRow → ProductRow → Type 0
HasSameKey p q = (p.name ≡ q.name) × (p.dimension ≡ q.dimension)

same_keys-DifferentKeys :
    (p p' q q' : ProductRow)
    → HasSameKey p' p
    → HasSameKey q' q
    → DifferentKeys p q
    → DifferentKeys p' q'
same_keys-DifferentKeys p p' q q' hp hq d = rw (hp.0, hp.1, hq.0, hq.1) d

-- The upsert's new values have the key of the row that they replace.
upsert-HasSameKey :
    (v : ProductValues) (p : ProductRow)
    → HasSameKey (new_values (has_key v.name v.dimension) v p) p
upsert-HasSameKey v p =
    if_cases (λ (r : ProductRow). HasSameKey r p) (has_key v.name v.dimension p) _ _
      (λ e.
        let same = &&-eq_true (eq_text p.name v.name) (p.dimension == v.dimension) e in
        (sym (eq_text-eq p.name v.name same.0), sym ((==_iff p.dimension v.dimension).0 same.1)))
      λ _. (refl, refl)

-- A larger counter.
counted-IsConsistent :
    (seq : ℕ) (t : Tables)
    → t.products_seq ≤ seq
    → IsConsistent t
    → IsConsistent (record t { products_seq = seq })
counted-IsConsistent seq t le h = record {
  products = record {
    keys = h.products.keys;
    ids = h.products.ids;
    known =
        All-map (λ p. p.id ≤ t.products_seq) (λ p. p.id ≤ seq) t.products (λ p k. omega arith)
          h.products.known;
    stocked = h.products.stocked;
  };
  recipes = h.recipes;
  parts = h.parts;
}

pub insert_product-KeepsConsistent :
    (id : ℕ) (v : ProductValues) (t : Tables)
    → t.products_seq < id
    → IsConsistent t
    → KeepsConsistent (insert_product id v t)
unfolding insert_product
insert_product-KeepsConsistent id v t fresh h =
    let upserted : ProductRow → ProductRow = new_values (has_key v.name v.dimension) v in
    if_cases KeepsConsistent (negative v.amount_base) _ _ (λ _. tt)
      λ amount.
        if_cases KeepsConsistent (any (has_key v.name v.dimension) t.products) _ _
          (λ _.
            counted-IsConsistent id
              (record t {
                products = update_rows (has_key v.name v.dimension) (overwrite v) t.products;
              })
              (omega arith)
              (update-IsConsistent (has_key v.name v.dimension) v t amount
                (Pairs-map DifferentKeys _ t.products
                  (λ p q.
                    same_keys-DifferentKeys p (upserted p) q (upserted q) (upsert-HasSameKey v p)
                      (upsert-HasSameKey v q))
                  h.products.keys)
                h))
          λ free. append-IsConsistent id v t fresh amount free h

-- Of two rows with different ids, at most one gets the new key, and no other row has it.
rekeyed-DifferentKeys :
    (id : ℕ) (v : ProductValues) (p q : ProductRow)
    → (not (has_id id p) && has_key v.name v.dimension p) ≡ false
    → (not (has_id id q) && has_key v.name v.dimension q) ≡ false
    → DifferentKeys p q
    → DifferentIds p q
    → DifferentKeys (new_values (has_id id) v p) (new_values (has_id id) v q)
rekeyed-DifferentKeys id v p q hp hq keys ids =
    if_cases (λ (r : ProductRow). DifferentKeys r (new_values (has_id id) v q)) (has_id id p) _ _
      (λ first.
        if_cases (λ (r : ProductRow). has_key v.name v.dimension r ≡ false) (has_id id q) _ _
          (λ second. ground arith) λ other. ground arith)
      λ other.
        if_cases (λ (r : ProductRow). DifferentKeys p r) (has_id id q) _ _
          (λ second. DifferentKeys-sym (overwrite v q) p (ground arith)) λ _. keys

pub update_product_by_id-KeepsConsistent :
    (id : ℕ) (v : ProductValues) (t : Tables)
    → IsConsistent t
    → KeepsConsistent (update_product_by_id id v t)
unfolding update_product_by_id
update_product_by_id-KeepsConsistent id v t h =
    let taken : ProductRow → Bool = λ row. not (has_id id row) && has_key v.name v.dimension row in
    if_cases KeepsConsistent (not (any (has_id id) t.products)) _ _ (λ _. h)
      λ _.
        if_cases KeepsConsistent (negative v.amount_base || any taken t.products) _ _ (λ _. tt)
          λ ok.
            update-IsConsistent (has_id id) v t (ground arith)
              (Pairs-map _ _ t.products (λ p q k. rekeyed-DifferentKeys id v p q k.0 k.1 k.2 k.3)
                (Pairs-both (λ p. taken p ≡ false) DifferentKeys DifferentIds t.products
                  (any-All taken t.products (ground arith)) h.products.keys h.products.ids))
              h
