-- ===== src/Common/Lists.antt =====
-- Lists measured by native numbers, and predicates on lists by recursion.
use Prim.Native.Nat.{ℕ, zero, suc, ◌+◌, ◌≤◌}
use mathlib.Core.Path.{◌≡◌, refl}
use mathlib.Core.Option.{Option, none, some}
use mathlib.Core.List.{List, [], ◌∷◌, ◌++◌, map}
use mathlib.Core.Logic.{◌⊎◌, inl, inr}
use mathlib.Core.Bool.{Bool, false, ◌||◌}
use native.Mathlib.Omega.{arith}

module _ {ℓ} {A : Type ℓ} where
  abbrev pub length : List A → ℕ
  length [] = 0
  length (x ∷ xs) = suc (length xs)

  pub length-append : (xs ys : List A) → length (xs ++ ys) ≡ length xs + length ys
  length-append [] ys = omega arith
  length-append (x ∷ xs) ys = omega (arith, length-append xs ys)

module _ {ℓ κ} {A : Type ℓ} where
  abbrev pub All : (A → Type κ) → List A → Type κ
  All P [] = Unit
  All P (x ∷ xs) = P x × All P xs

  pub All-append : (P : A → Type κ) (xs ys : List A) → All P xs → All P ys → All P (xs ++ ys)
  All-append P [] ys h k = k
  All-append P (x ∷ xs) ys h k = (h.0, All-append P xs ys h.1 k)

module _ {ℓ} {A : Type ℓ} where
  unfoldable pub get_elem? : List A → ℕ → Option A
  get_elem? [] i = none
  get_elem? (x ∷ l) zero = some x
  get_elem? (x ∷ l) (suc i) = get_elem? l i

  -- A change of the item at i; past the end nothing changes.
  unfoldable pub modify : ℕ → (A → A) → List A → List A
  modify i f [] = []
  modify zero f (x ∷ l) = f x ∷ l
  modify (suc i) f (x ∷ l) = x ∷ modify i f l

  unfoldable pub total : (A → ℕ) → List A → ℕ
  total f [] = 0
  total f (x ∷ l) = f x + total f l

  pub total-append : (f : A → ℕ) (l m : List A) → total f (l ++ m) ≡ total f l + total f m
  unfolding total
  total-append f [] m = omega arith
  total-append f (x ∷ l) m = omega (arith, total-append f l m)

  pub total-modify :
      (f : A → ℕ) (i : ℕ) (g : A → A) (l : List A) (x : A)
      → get_elem? l i ≡ some x
      → total f (modify i g l) + f x ≡ total f l + f (g x)
  unfolding total modify get_elem?
  total-modify f i g [] x e = cc
  total-modify f zero g (y ∷ l) x e = let q : y ≡ x = cc e in rw q (omega arith)
  total-modify f (suc i) g (y ∷ l) x e = omega (arith, total-modify f i g l x e)

  pub part-le_total :
      (f : A → ℕ) (i : ℕ) (l : List A) (x : A) → get_elem? l i ≡ some x → f x ≤ total f l
  unfolding total get_elem?
  part-le_total f i [] x e = cc
  part-le_total f zero (y ∷ l) x e = let q : y ≡ x = cc e in rw q (omega arith)
  part-le_total f (suc i) (y ∷ l) x e = omega (arith, part-le_total f i l x e)

  pub get_elem?-modify :
      (i : ℕ) (g : A → A) (l : List A) (x : A)
      → get_elem? l i ≡ some x
      → get_elem? (modify i g l) i ≡ some (g x)
  unfolding modify get_elem?
  get_elem?-modify i g [] x e = cc
  get_elem?-modify zero g (y ∷ l) x e = cc e
  get_elem?-modify (suc i) g (y ∷ l) x e = get_elem?-modify i g l x e

  pub List-cases : (l : List A) → (l ≡ []) ⊎ ((x : A) × (m : List A) × (l ≡ x ∷ m))
  List-cases [] = inl refl
  List-cases (x ∷ l) = inr (x, l, refl)

  -- `x in l`, for a test of equality
  unfoldable pub contains : (A → A → Bool) → A → List A → Bool
  contains eq x [] = false
  contains eq x (y ∷ l) = eq x y || contains eq x l

  pub length-modify : (i : ℕ) (g : A → A) (l : List A) → length (modify i g l) ≡ length l
  unfolding modify
  length-modify i g [] = refl
  length-modify zero g (x ∷ l) = refl
  length-modify (suc i) g (x ∷ l) = omega (arith, length-modify i g l)

  pub total-modify_same :
      (f : A → ℕ) (i : ℕ) (g : A → A) (l : List A)
      → ((x : A) → f (g x) ≡ f x)
      → total f (modify i g l) ≡ total f l
  unfolding total modify
  total-modify_same f i g [] e = refl
  total-modify_same f zero g (x ∷ l) e = omega (arith, e x)
  total-modify_same f (suc i) g (x ∷ l) e = omega (arith, total-modify_same f i g l e)

  pub total-modify_le :
      (f : A → ℕ) (i : ℕ) (g : A → A) (l : List A)
      → ((x : A) → f (g x) ≤ f x)
      → total f (modify i g l) ≤ total f l
  unfolding total modify
  total-modify_le f i g [] le = omega arith
  total-modify_le f zero g (x ∷ l) le = omega (arith, le x)
  total-modify_le f (suc i) g (x ∷ l) le = omega (arith, total-modify_le f i g l le)

pub get_elem?-map {ℓ κ} :
    {A : Type ℓ} {B : Type κ} (f : A → B) (l : List A) (i : ℕ) (x : A)
    → get_elem? l i ≡ some x
    → get_elem? (map f l) i ≡ some (f x)
unfolding get_elem?
get_elem?-map f [] i x e = cc
get_elem?-map f (y ∷ l) zero x e = cc
get_elem?-map f (y ∷ l) (suc i) x e = get_elem?-map f l i x e
