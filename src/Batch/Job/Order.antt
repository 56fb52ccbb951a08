-- ===== src/Batch/Job/Order.antt =====
-- What it means for a job's tasks to run in the order of their dependencies, and how a change of
-- one entry respects it.
pub mod Steps
pub mod Runs
use docklet.Common.{
  ℕ, suc, ◌+◌, ◌≡◌, ◌≢◌, refl, sym, subst, ap, ◌∙◌, inl, inr, Bool, true, false, ◌&&◌, ◌||◌, List,
  [], ◌∷◌, ◌++◌, map, length, if◌then◌else◌, String, arith, Option, none, some, some_inj,
  Bool-cases, Option-cases, str_eq, eq_iff, eq_refl,
}
use docklet.Batch.Status.{Status, same, same_sound, same_refl, same_ne, Batchtask, new_task}
use docklet.Batch.Job.{
  BatchJob, Task, RawTask, Ready, Result, ok, key_error, value_error, new, build, add_outs, names,
  mem, remove, set_status, lose, is_ready, schedule, schedule_one, schedule_ready, drop_dependency,
  release_one, release_all, waiting_for, charge, update_job_status, finish_task, change_status,
}
use docklet.Batch.Job.Table.{find, alter, find-alter}

-- The names that each task depends on, as submitted.
abbrev pub Dependencies : Type 0
Dependencies = String → List String

abbrev pub IsFinished : List (String × Task) → String → Type 0
IsFinished m d = (u : Task) × (find d m ≡ some u) × (u.status ≡ Status.finished)

-- Only pending tasks still wait, and what a task no longer waits for has finished.
pub record IsOrdered (orig : Dependencies) (m : List (String × Task)) : Type 0 where
  pub waits :
      (idx : String) (t : Task)
      → find idx m ≡ some t
      → t.status ≢ Status.pending
      → t.dependency ≡ []
  pub dropped :
      (idx : String) (t : Task) (d : String)
      → find idx m ≡ some t
      → mem d (orig idx) ≡ true
      → mem d t.dependency ≡ false
      → IsFinished m d

pub find-alter_self :
    (k : String) (f : Task → Task) (m : List (String × Task)) (t : Task)
    → find k m ≡ some t
    → find k (alter k f m) ≡ some (f t)
find-alter_self k f m t e = find-alter k k f m ∙ rw (eq_refl k) (rw e)

pub find-alter_ne :
    (k j : String) (f : Task → Task) (m : List (String × Task))
    → str_eq k j ≡ false
    → find j (alter k f m) ≡ find j m
find-alter_ne k j f m e = find-alter k j f m ∙ rw e

-- What a change of one entry must respect.
pub record Respects (m : List (String × Task)) (idx : String) (t t' : Task) : Type 0 where
  pub stays : t.status ≡ Status.finished → t'.status ≡ Status.finished
  pub waits : t'.status ≢ Status.pending → t'.dependency ≡ []
  pub drops :
      (d : String) → mem d t.dependency ≡ true → mem d t'.dependency ≡ false → IsFinished m d

pub IsFinished-alter :
    (m : List (String × Task)) (idx d : String) (t : Task) (f : Task → Task)
    → find idx m ≡ some t
    → (t.status ≡ Status.finished → (f t).status ≡ Status.finished)
    → IsFinished m d
    → IsFinished (alter idx f m) d
IsFinished-alter m idx d t f e stays (u, there, done) = elim (Bool-cases (str_eq idx d)) [
  | inl here ↦
      let q : idx ≡ d = (eq_iff idx d).0 here in
      let same_task : t ≡ u = some_inj (sym e ∙ ap (λ k. find k m) q ∙ there) in
      (
        f t,
        subst (λ k. find k (alter idx f m) ≡ some (f t)) q (find-alter_self idx f m t e),
        stays (ap (λ (x : Task). x.status) same_task ∙ done),
      )
  | inr other ↦ (u, find-alter_ne idx d f m other ∙ there, done)
]

altered :
    (orig : Dependencies) (m : List (String × Task)) (idx j : String) (t u : Task) (f : Task → Task)
    → find idx m ≡ some t
    → str_eq idx j ≡ true
    → find j (alter idx f m) ≡ some u
    → f t ≡ u
altered orig m idx j t u f e here there =
    let q : idx ≡ j = (eq_iff idx j).0 here in
    some_inj (sym (find-alter_self idx f m t e) ∙ ap (λ k. find k (alter idx f m)) q ∙ there)

pub alter-IsOrdered :
    (orig : Dependencies) (m : List (String × Task)) (idx : String) (t : Task) (f : Task → Task)
    → find idx m ≡ some t
    → Respects m idx t (f t)
    → IsOrdered orig m
    → IsOrdered orig (alter idx f m)
alter-IsOrdered orig m idx t f e r o = record {
  waits = λ j u there live. elim (Bool-cases (str_eq idx j)) [
    | inl here ↦
        let same_entry = altered orig m idx j t u f e here there in
        subst (λ (x : Task). x.dependency ≡ []) same_entry
          (r.waits (λ p. live (ap (λ (x : Task). x.status) (sym same_entry) ∙ p)))
    | inr other ↦ o.waits j u (sym (find-alter_ne idx j f m other) ∙ there) live
  ];
  dropped = λ j u d there was gone. elim (Bool-cases (str_eq idx j)) [
    | inl here ↦
        let q : idx ≡ j = (eq_iff idx j).0 here in
        let same_entry = altered orig m idx j t u f e here there in
        let gone' = ap (λ (x : Task). mem d x.dependency) same_entry ∙ gone in
        IsFinished-alter m idx d t f e r.stays (elim (Bool-cases (mem d t.dependency)) [
          | inl had ↦ r.drops d had gone'
          | inr lacked ↦ o.dropped idx t d e (ap (λ k. mem d (orig k)) q ∙ was) lacked
        ])
    | inr other ↦
        IsFinished-alter m idx d t f e r.stays
          (o.dropped j u d (sym (find-alter_ne idx j f m other) ∙ there) was gone)
  ];
}

pub mem-remove :
    (d x : String) (l : List String) → mem d l ≡ true → mem d (remove x l) ≡ false → d ≡ x
unfolding mem remove
mem-remove d x [] h k = cc
mem-remove d x (y ∷ l) h k = elim (Bool-cases (str_eq y x)) [
  | inl first ↦ elim (Bool-cases (str_eq y d)) [
    | inl hit ↦ sym ((eq_iff y d).0 hit) ∙ (eq_iff y x).0 first
    | inr miss ↦ absurd (cc (rw (miss, mem) at h, rw (first, remove) at k))
  ]
  | inr later ↦ elim (Bool-cases (str_eq y d)) [
    | inl hit ↦ absurd (cc (rw (later, remove, hit, mem) at k))
    | inr miss ↦ mem-remove d x l (rw (miss, mem) at h) (rw (later, remove, miss, mem) at k)
  ]
]
