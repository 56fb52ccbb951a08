-- ===== src/Batch/TaskMgr/Queue.antt =====
-- The order of the task queue and what stands in it.
use docklet.Common.{
  ℕ, ◌+◌, ◌-◌, ◌≡◌, refl, true, false, Option, none, some, List, [], ◌∷◌, ◌++◌, All, ◌==◌,
  if◌then◌else◌, if_either, arith,
}
use docklet.Batch.Task.{Task}
use docklet.Batch.TaskNets.Pool.{times, times-append}
use docklet.Batch.TaskMgr.{
  remove_first, remove_all, rank, not_after, sooner, insert_by, sorted, extend,
}

-- Each task of the queue comes no later than those behind it.
abbrev pub IsSorted : List Task → List ℕ → Type 0
IsSorted tasks [] = Unit
IsSorted tasks (r ∷ l) = All (λ s. sooner tasks r s ≡ true) l × IsSorted tasks l

not_after_trans :
    (p q r : Option (ℕ × ℕ)) → not_after p q ≡ true → not_after q r ≡ true → not_after p r ≡ true
not_after_trans none q r a b = refl
not_after_trans (some p) none r a b = cc
not_after_trans (some p) (some q) none a b = cc
not_after_trans (some (a1, a2)) (some (b1, b2)) (some (c1, c2)) a b = ground (arith, a, b)

not_after_total : (p q : Option (ℕ × ℕ)) → not_after p q ≡ false → not_after q p ≡ true
not_after_total none q e = cc
not_after_total (some p) none e = refl
not_after_total (some (a1, a2)) (some (b1, b2)) e = ground (arith, e)

module _ (tasks : List Task) where
  All-before :
      (r s : ℕ) (l : List ℕ)
      → sooner tasks r s ≡ true
      → All (λ x. sooner tasks s x ≡ true) l
      → All (λ x. sooner tasks r x ≡ true) l
  All-before r s [] e h = tt
  All-before r s (x ∷ l) e (h, hs) =
      (not_after_trans (rank tasks r) (rank tasks s) (rank tasks x) e h, All-before r s l e hs)

  insert_by-All :
      (P : ℕ → Type 0) (r : ℕ) (l : List ℕ) → P r → All P l → All P (insert_by tasks r l)
  unfolding insert_by
  insert_by-All P r [] h hs = (h, tt)
  insert_by-All P r (x ∷ l) h (k, ks) =
      if_either (All P) (sooner tasks r x) _ _ (λ _. (h, (k, ks)))
        (λ _. (k, insert_by-All P r l h ks))

  insert_by-IsSorted :
      (r : ℕ) (l : List ℕ) → IsSorted tasks l → IsSorted tasks (insert_by tasks r l)
  unfolding insert_by
  insert_by-IsSorted r [] h = (tt, tt)
  insert_by-IsSorted r (x ∷ l) (h, hs) =
      if_either (IsSorted tasks) (sooner tasks r x) _ _ (λ e. ((e, All-before r x l e h), (h, hs)))
        (λ e. (
          insert_by-All (λ y. sooner tasks x y ≡ true) r l
              (not_after_total (rank tasks r) (rank tasks x) e) h,
          insert_by-IsSorted r l hs,
        ))

  pub sorted-IsSorted : (l : List ℕ) → IsSorted tasks (sorted tasks l)
  unfolding sorted
  sorted-IsSorted [] = tt
  sorted-IsSorted (r ∷ l) = insert_by-IsSorted r (sorted tasks l) (sorted-IsSorted l)

  times-insert_by :
      (x r : ℕ) (l : List ℕ) → times x (insert_by tasks r l) ≡ (if x == r then 1 else 0) + times x l
  unfolding times insert_by
  times-insert_by x r [] = refl
  times-insert_by x r (y ∷ l) =
      if_either (λ m. times x m ≡ (if x == r then 1 else 0) + times x (y ∷ l)) (sooner tasks r y) _
        _ (λ _. refl) (λ _. omega (arith, times-insert_by x r l))

  times-sorted : (x : ℕ) (l : List ℕ) → times x (sorted tasks l) ≡ times x l
  unfolding times sorted
  times-sorted x [] = refl
  times-sorted x (r ∷ l) = omega (arith, times-insert_by x r (sorted tasks l), times-sorted x l)

  pub times-extend :
      (x : ℕ) (queue new : List ℕ) → times x (extend tasks queue new) ≡ times x queue + times x new
  unfolding times extend
  times-extend x queue [] = omega arith
  times-extend x queue (r ∷ l) =
      omega (arith, times-sorted x (queue ++ r ∷ l), times-append x queue (r ∷ l))

  remove_first-All : (P : ℕ → Type 0) (r : ℕ) (l : List ℕ) → All P l → All P (remove_first r l)
  unfolding remove_first
  remove_first-All P r [] h = tt
  remove_first-All P r (x ∷ l) (h, hs) =
      if_either (All P) (x == r) _ _ (λ _. hs) (λ _. (h, remove_first-All P r l hs))

  remove_first-IsSorted :
      (r : ℕ) (l : List ℕ) → IsSorted tasks l → IsSorted tasks (remove_first r l)
  unfolding remove_first
  remove_first-IsSorted r [] h = tt
  remove_first-IsSorted r (x ∷ l) (h, hs) =
      if_either (IsSorted tasks) (x == r) _ _ (λ _. hs)
        (λ _. (remove_first-All _ r l h, remove_first-IsSorted r l hs))

  pub remove_all-IsSorted : (rs l : List ℕ) → IsSorted tasks l → IsSorted tasks (remove_all rs l)
  unfolding remove_all
  remove_all-IsSorted [] l h = h
  remove_all-IsSorted (r ∷ rs) l h =
      remove_all-IsSorted rs (remove_first r l) (remove_first-IsSorted r l h)

  pub extend-IsSorted :
      (queue new : List ℕ) → IsSorted tasks queue → IsSorted tasks (extend tasks queue new)
  unfolding extend
  extend-IsSorted queue [] h = h
  extend-IsSorted queue (r ∷ l) h = sorted-IsSorted (queue ++ r ∷ l)

times-remove_first :
    (x r : ℕ) (l : List ℕ) → times x (remove_first r l) ≡ times x l - (if x == r then 1 else 0)
unfolding times remove_first
times-remove_first x r [] = ground arith
times-remove_first x r (y ∷ l) =
    if_either (λ m. times x m ≡ times x (y ∷ l) - (if x == r then 1 else 0)) (y == r) _ _
      (λ e. ground (arith, e)) (λ e. ground (arith, e, times-remove_first x r l))

pub times-remove_all : (x : ℕ) (rs l : List ℕ) → times x (remove_all rs l) ≡ times x l - times x rs
unfolding times remove_all
times-remove_all x [] l = omega arith
times-remove_all x (r ∷ rs) l =
    omega (arith, times-remove_all x rs (remove_first r l), times-remove_first x r l)
