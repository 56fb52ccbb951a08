-- ===== src/Batch/Scheduler/Room.antt =====
-- The workers that the scheduler hands out have room for what it will start there.
use docklet.Common.{
  ℕ, suc, ◌+◌, ◌≤◌, ◌≡◌, refl, sym, ap, subst, ◌∙◌, inl, inr, false, not, ◌||◌, none, some,
  some_inj, Option-cases, Bool-cases, List, [], ◌∷◌, ◌++◌, String, str_eq, if◌then◌else◌, if_either,
  contains, total, get_elem?, arith,
}
use docklet.Batch.Task.{SubTask, Task, is_waiting}
use docklet.Batch.Job.Table.{find}
use docklet.Batch.Placement.{
  NodeInfo, Usage, take, keeps_worker, choose_all, has_waiting, find_proper_workers,
}
use docklet.Batch.Placement.FirstFit.{choose_lem}
use docklet.Batch.Placement.Capacity.{load, Within, IsDistinct, Fits, choose_all-Fits, find_change}
use docklet.Batch.Desk.Demand.{Measure, wants}
use docklet.Batch.Desk.Growth.{HasRoom}
use docklet.Batch.Scheduler.{
  Found, nothing, crash, placed, behind, set_worker, assign, place_one, after_loop, Decision, start,
  schedule_parallel, schedule_traditional, schedule_task, unplaced,
}
use docklet.Batch.Scheduler.Assign.{choose_all-Keeps, find_chosen}

module _ (p : Measure) (ip : String) where
  -- A vnode that gets a worker wants there no more than was reckoned for it.
  wants-set_worker :
      (s : SubTask) (w : String)
      → wants p ip (set_worker s w) ≤ elim (keeps_worker s) as (λ _. ℕ) [
        | none ↦ if str_eq w ip then p.need s.instance_needs else 0
        | some v ↦ 0
      ]
  unfolding set_worker keeps_worker
  wants-set_worker s w = elim (Bool-cases s.vnode_started) [
    | inl on ↦ rw on (omega arith)
    | inr off ↦ rw off (omega arith)
  ]

  wants-assign :
      (subs : List SubTask) (u : Usage) (nodes : List (String × NodeInfo)) (workers : List String)
      → choose_all subs false u nodes ≡ some workers
      → total (wants p ip) (assign subs workers) ≤ load p.need ip subs workers
  unfolding assign total load
  wants-assign [] u nodes workers e = omega arith
  wants-assign (s ∷ subs) u nodes workers e =
      let (w, ws, nodes', q, keeps, e') = choose_all-Keeps s subs u nodes workers e in
      subst (λ l. total (wants p ip) (assign (s ∷ subs) l) ≤ load p.need ip (s ∷ subs) l) (sym q)
        (omega (arith, wants-set_worker s w, wants-assign subs u nodes' ws e'))

  find-none :
      (w : String) (info : NodeInfo) (before behind : List (String × NodeInfo))
      → find ip (before ++ (w, info) ∷ behind) ≡ none
      → str_eq w ip ≡ false
  unfolding find
  find-none w info [] behind e = elim (Bool-cases (str_eq w ip)) [
    | inl same ↦ absurd (cc (rw (same, find) at e))
    | inr other ↦ other
  ]
  find-none w info ((k, i) ∷ before) behind e = elim (Bool-cases (str_eq k ip)) [
    | inl same ↦ absurd (cc (rw (same, find) at e))
    | inr other ↦ find-none w info before behind (rw (other, find) at e)
  ]

  -- A worker that does not run gets nothing.
  load_absent :
      (subs : List SubTask) (u : Usage) (nodes : List (String × NodeInfo)) (workers : List String)
      → choose_all subs false u nodes ≡ some workers
      → find ip nodes ≡ none
      → load p.need ip subs workers ≡ 0
  unfolding choose_all load
  load_absent [] u nodes workers e gone = refl
  load_absent (s ∷ subs) u nodes workers e gone = elim (Option-cases (keeps_worker s)) [
    | inr (v, keeps) ↦
        let (w, ws, nodes', q, _, _) = choose_all-Keeps s subs u nodes workers e in
        elim (Option-cases (choose_all subs false u nodes)) [
          | inl short ↦ absurd (cc (rw (keeps, short, choose_all) at e))
          | inr (rest, e') ↦
              let q' : v ∷ rest ≡ workers = some_inj (rw (keeps, e', choose_all) at e) in
              subst (λ l. load p.need ip (s ∷ subs) l ≡ 0) q'
                (rw (keeps, load) (omega (arith, load_absent subs u nodes rest e' gone)))
        ]
    | inl idle ↦ elim (choose_lem s false u nodes) [
      | inl (short, _) ↦ absurd (cc (rw (idle, short, choose_all) at e))
      | inr (w, nodes', chosen, c) ↦ elim (Option-cases (choose_all subs false u nodes')) [
        | inl short ↦ absurd (cc (rw (idle, chosen, short, choose_all) at e))
        | inr (rest, e') ↦
            let q' : w ∷ rest ≡ workers = some_inj (rw (idle, chosen, e', choose_all) at e) in
            let other = find-none w c.info c.before c.behind (ap (find ip) (sym c.found) ∙ gone) in
            let gone' : find ip nodes' ≡ none =
              ap (find ip) c.left
              ∙ (find_change w c.info (take s.instance_needs c.info) c.behind ip c.before other
                  ∙ (ap (find ip) (sym c.found) ∙ gone)) in
            subst (λ l. load p.need ip (s ∷ subs) l ≡ 0) q'
              (rw (idle, other, load) (omega (arith, load_absent subs u nodes' rest e' gone')))
      ]
    ]
  ]

  -- The vnodes that are to be started have room.
  abbrev pub RoomyDecision : ℕ → Usage → Decision → Type 0
  RoomyDecision cap u (start subs is) = HasRoom p ip cap u subs is
  RoomyDecision cap u d = Unit

  -- The running workers: the worker ip offers no more than `cap`, and what is in use there fits.
  module _ (offer : NodeInfo → ℕ) (cap : ℕ) (u : Usage) (nodes : List (String × NodeInfo))
      (distinct : IsDistinct nodes)
      (offers : (info : NodeInfo) → find ip nodes ≡ some info → offer info ≤ cap)
      (fits : (subs : List SubTask) (info : NodeInfo) (workers : List String)
        → Fits false u ip info subs workers
        → Within (load p.need ip subs workers) (p.used u (some ip)) (offer info))
      (used : p.used u (some ip) ≤ cap) where
    within :
        {wanted : ℕ} (load_there offered : ℕ)
        → wanted ≤ load_there
        → offered ≤ cap
        → Within load_there (p.used u (some ip)) offered
        → p.used u (some ip) + wanted ≤ cap
    within load_there offered less most (inl none_yet) = omega (arith, used)
    within load_there offered less most (inr fit) = omega arith

    chosen_room :
        (subs : List SubTask) (workers : List String)
        → choose_all subs false u nodes ≡ some workers
        → p.used u (some ip) + total (wants p ip) (assign subs workers) ≤ cap
    chosen_room subs workers e =
        let less = wants-assign subs u nodes workers e in
        elim (Option-cases (find ip nodes)) [
          | inl gone ↦ omega (arith, less, load_absent subs u nodes workers e gone, used)
          | inr (info, there) ↦
              within (load p.need ip subs workers) (offer info) less (offers info there) (
                fits subs info workers
                  (choose_all-Fits subs false u nodes workers ip info distinct e there))
        ]

    record IsRoomy (i : ℕ) (subs : List SubTask) (j : ℕ) : Type 0 where
      at : ℕ
      s : SubTask
      index : j ≡ i + at
      there : get_elem? subs at ≡ some s
      room : p.used u (some ip) + wants p ip s ≤ cap

    abbrev RoomyFound : ℕ → Found → Type 0
    RoomyFound i nothing = Unit
    RoomyFound i crash = Unit
    RoomyFound i (placed subs j) = IsRoomy i subs j

    behind_roomy :
        (i : ℕ) (s : SubTask) (f : Found) → RoomyFound (suc i) f → RoomyFound i (behind s f)
    unfolding get_elem?
    behind_roomy i s nothing h = tt
    behind_roomy i s crash h = tt
    behind_roomy i s (placed subs j) h = record {
      at = suc h.at;
      s = h.s;
      index = omega (arith, h.index);
      there = h.there;
      room = h.room;
    }

    place_one_roomy :
        (i : ℕ) (subs : List SubTask) (gpus : List String)
        → RoomyFound i (place_one i subs u nodes gpus)
    unfolding place_one get_elem? assign total
    place_one_roomy i [] gpus = tt
    place_one_roomy i (s ∷ subs) gpus =
        let rest =
          behind_roomy i s (place_one (suc i) subs u nodes gpus)
            (place_one_roomy (suc i) subs gpus) in
        if_either (RoomyFound i)
          (not (is_waiting s.status) || contains str_eq s.gpu_preference gpus) _ _ (λ _. rest)
          (λ _. elim (Option-cases (find_proper_workers (s ∷ []) false u nodes)) [
            | inl none_run ↦ rw none_run tt
            | inr ([], short) ↦ rw short rest
            | inr (w ∷ ws, found) ↦
                let room =
                  chosen_room (s ∷ []) (w ∷ ws) (find_chosen (s ∷ []) u nodes w ws found) in
                rw found (record {
                  at = 0;
                  s = set_worker s w;
                  index = omega arith;
                  there = refl;
                  room = omega (arith, room);
                })
          ])

    unplaced_roomy : (t : Task) → RoomyDecision cap u (unplaced t)
    unfolding unplaced
    unplaced_roomy t =
        if_either (RoomyDecision cap u) (not (str_eq t.gpu_preference "null")) _ _ (λ _. tt)
          (λ _. tt)

    after_loop_roomy :
        (t : Task) (f : Found) → RoomyFound 0 f → RoomyDecision cap u (after_loop t f)
    unfolding after_loop
    after_loop_roomy t nothing h =
        if_either (RoomyDecision cap u) (has_waiting t.subtask_list) _ _ (λ _. unplaced_roomy t)
          (λ _. tt)
    after_loop_roomy t crash h = tt
    after_loop_roomy t (placed subs i) h = inr (record {
      i = h.at;
      s = h.s;
      only = ap (λ j. j ∷ []) (h.index ∙ omega arith);
      there = h.there;
      fits = h.room;
    })

    pub schedule_task_roomy :
        (t : Task) (gpus : List String) → RoomyDecision cap u (schedule_task t u nodes gpus)
    unfolding schedule_task schedule_parallel schedule_traditional
    schedule_task_roomy t gpus =
        let parallel : RoomyDecision cap u (schedule_parallel t u nodes gpus) =
          if_either (RoomyDecision cap u)
            (not (has_waiting t.subtask_list) || contains str_eq t.gpu_preference gpus) _ _
            (λ _. tt)
            (λ _. elim (Option-cases (find_proper_workers t.subtask_list false u nodes)) [
              | inl none_run ↦ rw none_run tt
              | inr ([], short) ↦ rw short (unplaced_roomy t)
              | inr (w ∷ ws, found) ↦ rw found (
                  inl (
                    chosen_room t.subtask_list (w ∷ ws)
                      (find_chosen t.subtask_list u nodes w ws found)))
            ]) in
        if_either (RoomyDecision cap u) t.at_same_time _ _ (λ _. parallel)
          (λ _.
            after_loop_roomy t (place_one 0 t.subtask_list u nodes gpus)
              (place_one_roomy 0 t.subtask_list gpus))
