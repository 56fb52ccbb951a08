-- ===== src/Batch/Placement/FirstFit.antt =====
-- The choice of one worker: the first one that is proper.
use docklet.Common.{
  ◌≡◌, refl, ap, ◌⊎◌, inl, inr, Bool, true, false, none, some, List, [], ◌∷◌, ◌++◌, All, String,
  Bool-cases,
}
use docklet.Batch.Task.{SubTask, TaskStatus}
use docklet.Batch.Placement.{
  NodeInfo, Usage, is_proper, take, choose, keeps_worker, choose_all, has_waiting,
  find_proper_workers,
}

module _ (s : SubTask) (all_res : Bool) (u : Usage) where
  abbrev pub IsImproper : String × NodeInfo → Type 0
  IsImproper node = is_proper s all_res u node.0 node.1 ≡ false

  -- The worker is the first of the nodes that is proper, and loses what the vnode needs.
  pub record Chosen (nodes : List (String × NodeInfo)) (worker : String)
      (nodes' : List (String × NodeInfo)) : Type 0 where
    pub before : List (String × NodeInfo)
    pub info : NodeInfo
    pub behind : List (String × NodeInfo)
    pub found : nodes ≡ before ++ (worker, info) ∷ behind
    pub left : nodes' ≡ before ++ (worker, take s.instance_needs info) ∷ behind
    pub proper : is_proper s all_res u worker info ≡ true
    pub improper : All IsImproper before

  pub choose_lem :
      (nodes : List (String × NodeInfo))
      → ((choose s all_res u nodes ≡ none) × All IsImproper nodes)
        ⊎ ((worker : String) × (nodes' : List (String × NodeInfo)) × (choose s all_res u nodes
              ≡ some (worker, nodes'))
            × Chosen nodes worker nodes')
  unfolding choose
  choose_lem [] = inl (refl, tt)
  choose_lem ((ip, info) ∷ nodes) = elim (Bool-cases (is_proper s all_res u ip info)) [
    | inl here ↦ inr (
      ip,
      (ip, take s.instance_needs info) ∷ nodes,
      rw (here, choose) refl,
      record {
        before = [];
        info = info;
        behind = nodes;
        found = refl;
        left = refl;
        proper = here;
        improper = tt;
      },
    )
    | inr not_here ↦ elim (choose_lem nodes) [
      | inl (none_left, all) ↦ inl (rw (not_here, none_left, choose) refl, (not_here, all))
      | inr (worker, nodes', e, c) ↦ inr (
        worker,
        (ip, info) ∷ nodes',
        rw (not_here, e, choose) refl,
        record {
          before = (ip, info) ∷ c.before;
          info = c.info;
          behind = c.behind;
          found = ap (λ l. (ip, info) ∷ l) c.found;
          left = ap (λ l. (ip, info) ∷ l) c.left;
          proper = c.proper;
          improper = (not_here, c.improper);
        },
      )
    ]
  ]

  -- A waiting vnode that is not started, and at least one running worker: the answer is the first
  -- worker that is proper, or the empty list exactly where none is.
  pub find_proper_workers_one :
      (node : String × NodeInfo) (nodes : List (String × NodeInfo))
      → s.status ≡ TaskStatus.waiting
      → s.vnode_started ≡ false
      → ((find_proper_workers (s ∷ []) all_res u (node ∷ nodes) ≡ some [])
          × All IsImproper (node ∷ nodes))
        ⊎ ((worker : String) × (info : NodeInfo) × (before behind : List (String × NodeInfo))
            × (find_proper_workers (s ∷ []) all_res u (node ∷ nodes) ≡ some (worker ∷ []))
            × (node ∷ nodes ≡ before ++ (worker, info) ∷ behind)
            × (is_proper s all_res u worker info ≡ true)
            × All IsImproper before)
  unfolding find_proper_workers choose_all has_waiting keeps_worker
  find_proper_workers_one node nodes waits idle = elim (choose_lem (node ∷ nodes)) [
    | inl (e, all) ↦ inl (rw (idle, e, find_proper_workers) refl, all)
    | inr (worker, nodes', e, c) ↦ inr (
      worker,
      c.info,
      c.before,
      c.behind,
      rw (idle, e, waits, find_proper_workers) refl,
      c.found,
      c.proper,
      c.improper,
    )
  ]
