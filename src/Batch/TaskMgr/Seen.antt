-- ===== src/Batch/TaskMgr/Seen.antt =====
-- What the methods of the task manager leave of its tasks, and counts in its lists.
use docklet.Common.{
  ℕ, zero, suc, ◌+◌, ◌-◌, ◌≡◌, ==_iff, refl, ap, ap₂, subst, ◌∙◌, inl, inr, Bool, true, false,
  Option, none, some, some_inj, Option-cases, Bool-cases, List, [], ◌∷◌, All, ◌==◌, String, str_eq,
  if◌then◌else◌, if_either, get_elem?, modify, contains, arith,
}
use docklet.Batch.Task.{Task}
use docklet.Batch.TaskNets.Pool.{times}
use docklet.Batch.Desk.{Cluster, Desk}
use docklet.Batch.TaskMgr.{
  TaskMgr, treat, rank, not_after, sooner, number, count_pending, pending, stop_task, stop_one,
  stop_all,
}
use docklet.Batch.TaskMgr.Queue.{IsSorted}

-- What g tells of the task r.
abbrev pub seen : {A : Type 0} → (Task → A) → List Task → ℕ → Option A
seen g tasks r = elim (get_elem? tasks r) [ none ↦ none | some t ↦ some (g t) ]

pub seen-modify :
    {A : Type 0} (g : Task → A) (f : Task → Task) (tasks : List Task) (r : ℕ) (t : Task) (s : ℕ)
    → get_elem? tasks r ≡ some t
    → g (f t) ≡ g t
    → seen g (modify r f tasks) s ≡ seen g tasks s
unfolding get_elem? modify
seen-modify g f [] r t s e same = refl
seen-modify g f (x ∷ tasks) zero t zero e same = let q : x ≡ t = some_inj e in rw q (ap some same)
seen-modify g f (x ∷ tasks) zero t (suc s) e same = refl
seen-modify g f (x ∷ tasks) (suc r) t zero e same = refl
seen-modify g f (x ∷ tasks) (suc r) t (suc s) e same = seen-modify g f tasks r t s e same

pub is_named :
    (x : ℕ) (id : String) (r : ℕ) (tasks : List Task) (t : Task)
    → seen (λ t. t.id) tasks x ≡ some id
    → get_elem? tasks r ≡ some t
    → (x == r) ≡ true
    → t.id ≡ id
is_named x id r tasks t named e here =
    let at_r : seen (λ t. t.id) tasks r ≡ some id =
      subst (λ y. seen (λ t. t.id) tasks y ≡ some id) ((==_iff x r).0 here) named in
    some_inj (rw (e, seen) at at_r)

pub is_other :
    (x : ℕ) (id : String) (r : ℕ) (tasks : List Task)
    → seen (λ t. t.id) tasks x ≡ some id
    → get_elem? tasks r ≡ none
    → (x == r) ≡ false
is_other x id r tasks named gone = elim (Bool-cases (x == r)) [
  | inl here ↦
      let at_r : seen (λ t. t.id) tasks r ≡ some id =
        subst (λ y. seen (λ t. t.id) tasks y ≡ some id) ((==_iff x r).0 here) named in
      absurd (cc (rw (gone, seen) at at_r))
  | inr other ↦ other
]

pub no_more : (n : ℕ) (b c : Bool) → c ≡ false → n ≡ n + (if b then (if c then 1 else 0) else 0)
no_more n b c e = ground (arith, e)

pub skipped :
    (n k : ℕ) (b c : Bool)
    → c ≡ false
    → n ≡ (if b then 0 else k)
    → n ≡ (if b then 0 else (if c then 1 else 0) + k)
skipped n k b c e e' = ground (arith, e, e')

pub one_kept :
    (x r : ℕ) (kept : List ℕ) (k : ℕ) (stops b : Bool)
    → ((x == r) ≡ true → stops ≡ b)
    → times x kept ≡ (if b then 0 else k)
    → times x (if stops then kept else r ∷ kept) ≡ (if b then 0 else (if x == r then 1 else 0) + k)
unfolding times
one_kept x r kept k stops b same e = elim (Bool-cases (x == r)) [
  | inl here ↦ rw (same here) (
      if_either (λ l. times x l ≡ (if b then 0 else (if x == r then 1 else 0) + k)) b kept
        (r ∷ kept) (λ q. ground (arith, e, q)) (λ q. ground (arith, e, q)))
  | inr other ↦
      if_either (λ l. times x l ≡ (if b then 0 else (if x == r then 1 else 0) + k)) stops kept
        (r ∷ kept) (λ q. ground (arith, e, other)) (λ q. ground (arith, e, other))
]

pub counted :
    (b : Bool) (queue deleted deleted' appended queue' kept all : ℕ)
    → all ≡ queue' + kept
    → queue' ≡ queue - deleted'
    → deleted' ≡ deleted + (if b then queue else 0)
    → kept ≡ (if b then 0 else appended)
    → all ≡ (if b then 0 else (queue - deleted) + appended)
counted true queue deleted deleted' appended queue' kept all e f g h = omega (arith, e, f, g, h)
counted false queue deleted deleted' appended queue' kept all e f g h = omega (arith, e, f, g, h)

pub both :
    (n n' n'' : ℕ) (b b' : Bool) (k j : ℕ)
    → b' ≡ b
    → n'' ≡ n' + (if b' then j else 0)
    → n' ≡ n + (if b then k else 0)
    → n'' ≡ n + (if b then k + j else 0)
both n n' n'' b b' k j same e e' = ground (arith, same, e, e')

module _ (tasks tasks' : List Task) (same : (r : ℕ) → rank tasks' r ≡ rank tasks r) where
  All-same :
      (r : ℕ) (l : List ℕ)
      → All (λ s. sooner tasks r s ≡ true) l
      → All (λ s. sooner tasks' r s ≡ true) l
  All-same r [] h = tt
  All-same r (s ∷ l) (h, hs) = (ap₂ not_after (same r) (same s) ∙ h, All-same r l hs)

  pub IsSorted-same : (l : List ℕ) → IsSorted tasks l → IsSorted tasks' l
  IsSorted-same [] h = tt
  IsSorted-same (r ∷ l) (h, hs) = (All-same r l h, IsSorted-same l hs)

module _ {W : Type 0} (cluster : Cluster W) where
  -- Something of a task that the methods do not change
  module _ {A : Type 0} (g : Task → A)
      (kept : (d : Desk W) (t : Task) → g (stop_task cluster d t).2 ≡ g t)
      (ordered : (t : Task) (o : Option ℕ) → g (record t { order = o }) ≡ g t) where
    treat-seen :
        (r : ℕ) (m : TaskMgr W) (s : ℕ)
        → seen g (treat (λ d t. let (_, d', t') = stop_task cluster d t in (d', t')) r m).tasks s
          ≡ seen g m.tasks s
    unfolding treat
    treat-seen r m s = elim (Option-cases (get_elem? m.tasks r)) [
      | inl gone ↦ rw (gone, treat) refl
      | inr (t, e) ↦
          rw (e, treat)
            (seen-modify g (λ _. (stop_task cluster m.desk t).2) m.tasks r t s e (kept m.desk t))
    ]

    pub stop_one-seen :
        (r : ℕ) (m : TaskMgr W) (s : ℕ) → seen g (stop_one cluster r m).1.tasks s ≡ seen g m.tasks s
    unfolding stop_one
    stop_one-seen r m s = elim (Option-cases (get_elem? m.tasks r)) [
      | inl gone ↦ rw (gone, stop_one) refl
      | inr (t, e) ↦
          rw (e, stop_one)
            (if_either (λ (x : Bool × TaskMgr W). seen g x.1.tasks s ≡ seen g m.tasks s)
              (contains str_eq t.id m.lazy_stop_list) _ _ (λ _. treat-seen r m s) (λ _. refl))
    ]

    pub stop_all-seen :
        (rs : List ℕ) (m : TaskMgr W) (s : ℕ)
        → seen g (stop_all cluster rs m).1.tasks s ≡ seen g m.tasks s
    unfolding stop_all
    stop_all-seen [] m s = refl
    stop_all-seen (r ∷ rs) m s =
        let first = stop_one-seen r m s in
        if_either (λ (x : Bool × TaskMgr W). seen g x.1.tasks s ≡ seen g m.tasks s)
          (stop_one cluster r m).0 _ _ (λ _. stop_all-seen rs (stop_one cluster r m).1 s ∙ first)
          (λ _. first)

    pub number-seen :
        (rs : List ℕ) (n : ℕ) (gpus : List (String × ℕ)) (tasks : List Task) (s : ℕ)
        → seen g (number rs n gpus tasks).0 s ≡ seen g tasks s
    unfolding number
    number-seen [] n gpus tasks s = refl
    number-seen (r ∷ rs) n gpus tasks s = elim (Option-cases (get_elem? tasks r)) [
      | inl gone ↦ rw (gone, number) (number-seen rs n gpus tasks s)
      | inr (t, e) ↦
          rw (e, number)
            (if_either (λ (x : List Task × List (String × ℕ)). seen g x.0 s ≡ seen g tasks s)
              (str_eq t.gpu_preference "null") _ _
              (λ _.
                number-seen rs (suc n) gpus _ s
                ∙ seen-modify g _ tasks r t s e (ordered t (some n)))
              (λ _.
                number-seen rs n (count_pending t.gpu_preference gpus) _ s
                ∙ seen-modify g _ tasks r t s e
                    (ordered t (some (n + pending t.gpu_preference gpus)))))
    ]
