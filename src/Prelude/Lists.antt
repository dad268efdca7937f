-- ===== src/Prelude/Lists.antt =====
-- Lists measured by native numbers, under the library's names; predicates and tests by recursion.
use Prim.Native.Nat.{ℕ, zero, suc, ◌+◌}
use mathlib.Core.Path.{◌≡◌, refl}
use mathlib.Core.Bool.{Bool, true, false, ◌&&◌, ◌||◌}
use mathlib.Core.List.{List, [], ◌∷◌, ◌++◌}
use native.Mathlib.Omega.{arith}
use recipes_core.Prelude.Tests.{if◌then◌else◌, if_cases}

module _ {ℓ} {A : Type ℓ} where
  abbrev pub length : List A → ℕ
  length [] = 0
  length (x ∷ xs) = suc (length xs)

  abbrev pub drop : ℕ → List A → List A
  drop zero xs = xs
  drop (suc n) [] = []
  drop (suc n) (x ∷ xs) = drop n xs

  abbrev pub all : (A → Bool) → List A → Bool
  all p [] = true
  all p (x ∷ xs) = p x && all p xs

  abbrev pub any : (A → Bool) → List A → Bool
  any p [] = false
  any p (x ∷ xs) = p x || any p xs

  -- Rows that pass a test, in their order.
  abbrev pub keep : (A → Bool) → List A → List A
  keep p [] = []
  keep p (x ∷ xs) = if p x then x ∷ keep p xs else keep p xs

  pub length-append : (xs ys : List A) → length (xs ++ ys) ≡ length xs + length ys
  length-append [] ys = omega arith
  length-append (x ∷ xs) ys = omega (arith, length-append xs ys)

  pub drop-append : (xs ys : List A) → drop (length xs) (xs ++ ys) ≡ ys
  drop-append [] ys = refl
  drop-append (x ∷ xs) ys = drop-append xs ys

  pub any-append : (p : A → Bool) (xs ys : List A) → any p (xs ++ ys) ≡ (any p xs || any p ys)
  any-append p [] ys = refl
  any-append p (x ∷ xs) ys = ground (arith, any-append p xs ys)

module _ {ℓ κ} {A : Type ℓ} where
  abbrev pub All : (A → Type κ) → List A → Type κ
  All P [] = Unit
  All P (x ∷ xs) = P x × All P xs

  pub All-append : (P : A → Type κ) (xs ys : List A) → All P xs → All P ys → All P (xs ++ ys)
  All-append P [] ys hx hy = hy
  All-append P (x ∷ xs) ys hx hy = (hx.0, All-append P xs ys hx.1 hy)

  pub All-map : (P Q : A → Type κ) (xs : List A) → ((x : A) → P x → Q x) → All P xs → All Q xs
  All-map P Q [] f h = tt
  All-map P Q (x ∷ xs) f h = (f x h.0, All-map P Q xs f h.1)

  pub All-keep : (test : A → Bool) (P : A → Type κ) (xs : List A) → All P xs → All P (keep test xs)
  All-keep test P [] h = tt
  All-keep test P (x ∷ xs) h =
      if_cases (All P) (test x) _ _ (λ _. (h.0, All-keep test P xs h.1))
        (λ _. All-keep test P xs h.1)

  -- A relation between each element and every later one.
  abbrev pub Pairs : (A → A → Type κ) → List A → Type κ
  Pairs R [] = Unit
  Pairs R (x ∷ xs) = All (R x) xs × Pairs R xs

  pub Pairs-append_one :
      (R : A → A → Type κ) (xs : List A) (y : A)
      → All (λ x. R x y) xs
      → Pairs R xs
      → Pairs R (xs ++ y ∷ [])
  Pairs-append_one R [] y h pairs = (tt, tt)
  Pairs-append_one R (x ∷ xs) y h pairs =
      (All-append (R x) xs (y ∷ []) pairs.0 (h.0, tt), Pairs-append_one R xs y h.1 pairs.1)

  pub Pairs-keep :
      (test : A → Bool) (R : A → A → Type κ) (xs : List A) → Pairs R xs → Pairs R (keep test xs)
  Pairs-keep test R [] h = tt
  Pairs-keep test R (x ∷ xs) h =
      if_cases (Pairs R) (test x) _ _ (λ _. (All-keep test (R x) xs h.0, Pairs-keep test R xs h.1))
        λ _. Pairs-keep test R xs h.1

  pub Pairs-map :
      (R S : A → A → Type κ) (xs : List A) → ((x y : A) → R x y → S x y) → Pairs R xs → Pairs S xs
  Pairs-map R S [] f h = tt
  Pairs-map R S (x ∷ xs) f h = (All-map (R x) (S x) xs (f x) h.0, Pairs-map R S xs f h.1)

-- Pairs whose elements also satisfy P, and that two relations hold of.
module _ {ℓ κ} {A : Type ℓ} where
  pub All-both : (P Q : A → Type κ) (xs : List A) → All P xs → All Q xs → All (λ x. P x × Q x) xs
  All-both P Q [] h k = tt
  All-both P Q (x ∷ xs) h k = ((h.0, k.0), All-both P Q xs h.1 k.1)

  pub Pairs-both :
      (P : A → Type κ) (R S : A → A → Type κ) (xs : List A)
      → All P xs
      → Pairs R xs
      → Pairs S xs
      → Pairs (λ x y. P x × P y × R x y × S x y) xs
  Pairs-both P R S [] p r s = tt
  Pairs-both P R S (x ∷ xs) p r s = (
    All-map _ _ xs (λ y h. (p.0, h.0, h.1.0, h.1.1))
        (All-both P _ xs p.1 (All-both (R x) (S x) xs r.0 s.0)),
    Pairs-both P R S xs p.1 r.1 s.1,
  )

module _ {ℓ} {A : Type ℓ} where
  pub any-All : (f : A → Bool) (xs : List A) → any f xs ≡ false → All (λ x. f x ≡ false) xs
  any-All f [] h = tt
  any-All f (x ∷ xs) h = (ground arith, any-All f xs (ground arith))

pub any_none {ℓ} :
    {A : Type ℓ} → (p : A → Bool) (xs : List A) → All (λ x. p x ≡ false) xs → any p xs ≡ false
any_none p [] h = refl
any_none p (x ∷ xs) h = rw (h.0, any_none p xs h.1) refl
