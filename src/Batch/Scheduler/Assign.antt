-- ===== src/Batch/Scheduler/Assign.antt =====
-- The usage where the scheduler hands out workers.
use docklet.Common.{
  ℕ, suc, ◌+◌, ◌≡◌, ◌⊎◌, refl, sym, subst, ◌∙◌, inl, inr, true, false, not, ◌||◌, ◌&&◌, Option,
  none, some, some_inj, Option-cases, Bool-cases, List, [], ◌∷◌, String, str_eq, if◌then◌else◌,
  if_either, contains, total, arith,
}
use docklet.Batch.Task.{SubTask, Task, is_waiting}
use docklet.Batch.Placement.{
  NodeInfo, Usage, choose, keeps_worker, choose_all, has_waiting, find_proper_workers,
}
use docklet.Batch.Desk.{same_worker}
use docklet.Batch.Desk.Uses.{on, cpu_on, gpu_on, Uses, UsesOne}
use docklet.Batch.Scheduler.{
  Found, nothing, crash, placed, behind, set_worker, assign, place_one, after_loop, Decision, start,
  schedule_parallel, schedule_traditional, schedule_task, unplaced,
}

-- A vnode that is started is not moved.
abbrev pub Keeps : SubTask → String → Type 0
Keeps s w = (keeps_worker s ≡ none) ⊎ (keeps_worker s ≡ some w)

Keeps-worker_cases :
    (s : SubTask) (w : String)
    → Keeps s w
    → (s.vnode_started ≡ false) ⊎ ((s.worker ≡ none) ⊎ (s.worker ≡ some w))
unfolding keeps_worker
Keeps-worker_cases s w h = elim (Bool-cases s.vnode_started) [
  | inr off ↦ inl off
  | inl on ↦ inr (rw (on, keeps_worker) at h)
]

-- What nobody's vnodes need is nothing, so it is nothing anywhere.
unused :
    (s : SubTask) (n others : ℕ)
    → s.worker ≡ none
    → others + on none s n ≡ 0
    → (s' : SubTask) (k : Option String) → s'.vnode_started ≡ s.vnode_started
    → on k s' n ≡ 0
unused s n others nowhere e s' k same =
    let e' : others + (if s.vnode_started && true then n else 0) ≡ 0 =
      subst (λ x. others + (if s.vnode_started && same_worker x none then n else 0) ≡ 0) nowhere
        e in
    let started : (if s'.vnode_started then n else 0) ≡ 0 = rw same (ground (arith, e')) in
    ground (arith, started)

module _ (c g : Option String → ℕ) (v : Usage) where
  set_worker-UsesOne :
      (s : SubTask) (w : String) → Keeps s w → UsesOne c g v s → UsesOne c g v (set_worker s w)
  unfolding set_worker
  set_worker-UsesOne s w h u = elim (Keeps-worker_cases s w h) [
    | inl off ↦ record {
      cpu = λ k. ground (arith, u.cpu k, off);
      gpu = λ k. ground (arith, u.gpu k, off);
      nobody = u.nobody;
    }
    | inr (inr here) ↦ record {
      cpu = λ k.
          subst
            (λ x.
              v.cpu_usage k
              ≡ c k + (if s.vnode_started && same_worker x k then s.instance_needs.cpu else 0))
            here (u.cpu k);
      gpu = λ k.
          subst
            (λ x.
              v.gpu_usage k
              ≡ g k + (if s.vnode_started && same_worker x k then s.instance_needs.gpu else 0))
            here (u.gpu k);
      nobody = u.nobody;
    }
    | inr (inl nowhere) ↦
        let free = unused s s.instance_needs.cpu (c none) nowhere (sym (u.cpu none) ∙ u.nobody.0) in
        let gfree =
          unused s s.instance_needs.gpu (g none) nowhere (sym (u.gpu none) ∙ u.nobody.1) in
        record {
          cpu = λ k. omega (arith, u.cpu k, free s k refl, free (set_worker s w) k refl);
          gpu = λ k. omega (arith, u.gpu k, gfree s k refl, gfree (set_worker s w) k refl);
          nobody = u.nobody;
        }
  ]

pub find_chosen :
    (subs : List SubTask) (u : Usage) (nodes : List (String × NodeInfo)) (w : String)
    (ws : List String)
    → find_proper_workers subs false u nodes ≡ some (w ∷ ws)
    → choose_all subs false u nodes ≡ some (w ∷ ws)
unfolding find_proper_workers
find_chosen subs u [] w ws e = cc
find_chosen subs u (n ∷ nodes) w ws e = elim (Option-cases (choose_all subs false u (n ∷ nodes))) [
  | inl short ↦ absurd (cc (rw (short, find_proper_workers) at e))
  | inr (workers, chosen) ↦ elim (Bool-cases (has_waiting subs)) [
    | inl waits ↦ chosen ∙ (rw (chosen, waits, find_proper_workers) at e)
    | inr idle ↦ absurd (cc (rw (chosen, idle, find_proper_workers) at e))
  ]
]

pub choose_all-Keeps :
    (s : SubTask) (subs : List SubTask) (u : Usage) (nodes : List (String × NodeInfo))
    (workers : List String)
    → choose_all (s ∷ subs) false u nodes ≡ some workers
    → (w : String) × (ws : List String) × (nodes' : List (String × NodeInfo)) × (workers ≡ w ∷ ws)
      × Keeps s w
      × (choose_all subs false u nodes' ≡ some ws)
unfolding choose_all
choose_all-Keeps s subs u nodes workers e = elim (Option-cases (keeps_worker s)) [
  | inr (w, keeps) ↦ elim (Option-cases (choose_all subs false u nodes)) [
    | inl short ↦ absurd (cc (rw (keeps, short, choose_all) at e))
    | inr (ws, rest) ↦
        (w, ws, nodes, sym (some_inj (rw (keeps, rest, choose_all) at e)), inr keeps, rest)
  ]
  | inl idle ↦ elim (Option-cases (choose s false u nodes)) [
    | inl short ↦ absurd (cc (rw (idle, short, choose_all) at e))
    | inr ((w, nodes'), chosen) ↦ elim (Option-cases (choose_all subs false u nodes')) [
      | inl short ↦ absurd (cc (rw (idle, chosen, short, choose_all) at e))
      | inr (ws, rest) ↦
          (w, ws, nodes', sym (some_inj (rw (idle, chosen, rest, choose_all) at e)), inl idle, rest)
    ]
  ]
]

module _ (v : Usage) where
  assign-Uses :
      (c g : Option String → ℕ) (subs : List SubTask) (u : Usage) (nodes : List (String × NodeInfo))
      (workers : List String)
      → choose_all subs false u nodes ≡ some workers
      → Uses c g v subs
      → Uses c g v (assign subs workers)
  unfolding assign total
  assign-Uses c g [] u nodes workers e h = h
  assign-Uses c g (s ∷ subs) u nodes workers e h =
      let (w, ws, nodes', q, keeps, e') = choose_all-Keeps s subs u nodes workers e in
      let one =
        set_worker-UsesOne (λ k. c k + total (cpu_on k) subs) (λ k. g k + total (gpu_on k) subs) v s
          w keeps
          (record {
            cpu = λ k. omega (arith, h.cpu k);
            gpu = λ k. omega (arith, h.gpu k);
            nobody = h.nobody;
          }) in
      let s' = set_worker s w in
      let rest =
        assign-Uses (λ k. c k + cpu_on k s') (λ k. g k + gpu_on k s') subs u nodes' ws e'
          (record {
            cpu = λ k. omega (arith, one.cpu k);
            gpu = λ k. omega (arith, one.gpu k);
            nobody = one.nobody;
          }) in
      subst (λ l. Uses c g v (assign (s ∷ subs) l)) (sym q)
        (record {
          cpu = λ k. omega (arith, rest.cpu k);
          gpu = λ k. omega (arith, rest.gpu k);
          nobody = rest.nobody;
        })

  abbrev FoundUses : (Option String → ℕ) → (Option String → ℕ) → Found → Type 0
  FoundUses c g nothing = Unit
  FoundUses c g crash = Unit
  FoundUses c g (placed subs i) = Uses c g v subs

  behind-Uses :
      (c g : Option String → ℕ) (s : SubTask) (f : Found)
      → FoundUses (λ k. c k + cpu_on k s) (λ k. g k + gpu_on k s) f
      → FoundUses c g (behind s f)
  unfolding total
  behind-Uses c g s nothing h = tt
  behind-Uses c g s crash h = tt
  behind-Uses c g s (placed subs i) h = record {
    cpu = λ k. omega (arith, h.cpu k);
    gpu = λ k. omega (arith, h.gpu k);
    nobody = h.nobody;
  }

  place_one-Uses :
      (c g : Option String → ℕ) (i : ℕ) (subs : List SubTask) (u : Usage)
      (nodes : List (String × NodeInfo)) (gpus : List String)
      → Uses c g v subs
      → FoundUses c g (place_one i subs u nodes gpus)
  unfolding place_one total
  place_one-Uses c g i [] u nodes gpus h = tt
  place_one-Uses c g i (s ∷ subs) u nodes gpus h =
      let rest = behind-Uses c g s (place_one (suc i) subs u nodes gpus) (
        place_one-Uses (λ k. c k + cpu_on k s) (λ k. g k + gpu_on k s) (suc i) subs u nodes gpus
          (record {
            cpu = λ k. omega (arith, h.cpu k);
            gpu = λ k. omega (arith, h.gpu k);
            nobody = h.nobody;
          })) in
      if_either (FoundUses c g) (not (is_waiting s.status) || contains str_eq s.gpu_preference gpus)
        _ _ (λ _. rest)
        (λ _. elim (Option-cases (find_proper_workers (s ∷ []) false u nodes)) [
          | inl none_run ↦ rw none_run tt
          | inr ([], short) ↦ rw short rest
          | inr (w ∷ ws, found) ↦
              let (w', ws', nodes', q, keeps, e') =
                choose_all-Keeps s [] u nodes (w ∷ ws) (find_chosen (s ∷ []) u nodes w ws found) in
              let named : w' ≡ w = cc q in
              let one =
                set_worker-UsesOne (λ k. c k + total (cpu_on k) subs)
                  (λ k. g k + total (gpu_on k) subs) v s w (subst (Keeps s) named keeps)
                  (record {
                    cpu = λ k. omega (arith, h.cpu k);
                    gpu = λ k. omega (arith, h.gpu k);
                    nobody = h.nobody;
                  }) in
              rw found (record {
                cpu = λ k. omega (arith, one.cpu k);
                gpu = λ k. omega (arith, one.gpu k);
                nobody = one.nobody;
              })
        ])

  -- The subtasks that are to be started use what they used before.
  abbrev pub DecisionUses : (Option String → ℕ) → (Option String → ℕ) → Decision → Type 0
  DecisionUses c g (start subs is) = Uses c g v subs
  DecisionUses c g d = Unit

  unplaced-Uses : (c g : Option String → ℕ) (t : Task) → DecisionUses c g (unplaced t)
  unfolding unplaced
  unplaced-Uses c g t =
      if_either (DecisionUses c g) (not (str_eq t.gpu_preference "null")) _ _ (λ _. tt) (λ _. tt)

  after_loop-Uses :
      (c g : Option String → ℕ) (t : Task) (f : Found)
      → FoundUses c g f
      → DecisionUses c g (after_loop t f)
  unfolding after_loop
  after_loop-Uses c g t nothing h =
      if_either (DecisionUses c g) (has_waiting t.subtask_list) _ _ (λ _. unplaced-Uses c g t)
        (λ _. tt)
  after_loop-Uses c g t crash h = tt
  after_loop-Uses c g t (placed subs i) h = h

  pub schedule_task-Uses :
      (c g : Option String → ℕ) (t : Task) (u : Usage) (nodes : List (String × NodeInfo))
      (gpus : List String)
      → Uses c g v t.subtask_list
      → DecisionUses c g (schedule_task t u nodes gpus)
  unfolding schedule_task schedule_parallel schedule_traditional
  schedule_task-Uses c g t u nodes gpus h =
      let parallel : DecisionUses c g (schedule_parallel t u nodes gpus) =
        if_either (DecisionUses c g)
          (not (has_waiting t.subtask_list) || contains str_eq t.gpu_preference gpus) _ _ (λ _. tt)
          (λ _. elim (Option-cases (find_proper_workers t.subtask_list false u nodes)) [
            | inl none_run ↦ rw none_run tt
            | inr ([], short) ↦ rw short (unplaced-Uses c g t)
            | inr (w ∷ ws, found) ↦ rw found (
                assign-Uses c g t.subtask_list u nodes (w ∷ ws)
                  (find_chosen t.subtask_list u nodes w ws found) h)
          ]) in
      let found = place_one-Uses c g 0 t.subtask_list u nodes gpus h in
      let traditional : DecisionUses c g (schedule_traditional t u nodes gpus) =
        after_loop-Uses c g t (place_one 0 t.subtask_list u nodes gpus) found in
      if_either (DecisionUses c g) t.at_same_time _ _ (λ _. parallel) (λ _. traditional)
