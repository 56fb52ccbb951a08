-- ===== src/Batch/Placement/Capacity.antt =====
-- What the workers that are chosen offer, and what is placed on them.
use docklet.Common.{
  ℕ, ◌+◌, ◌-◌, ◌≤◌, ◌≡◌, refl, sym, ap, subst, ◌∙◌, ◌⊎◌, inl, inr, Bool, true, false, none, some,
  some_inj, List, [], ◌∷◌, ◌++◌, if◌then◌else◌, String, str_eq, eq_iff, eq_refl, Bool-cases,
  Option-cases, arith,
}
use docklet.Batch.Task.{Instance, SubTask}
use docklet.Batch.Job.Table.{find}
use docklet.Batch.Placement.{
  NodeInfo, Usage, is_proper, take, keeps_worker, choose_all, has_waiting, find_proper_workers,
}
use docklet.Batch.Placement.FirstFit.{choose_lem}

-- What a choice places anew on the worker ip, of one measure of the needs.
unfoldable pub load : (Instance → ℕ) → String → List SubTask → List String → ℕ
load f ip [] workers = 0
load f ip (s ∷ subs) [] = 0
load f ip (s ∷ subs) (worker ∷ workers) =
    elim (keeps_worker s) [ none ↦ if str_eq worker ip then f s.instance_needs else 0 | some w ↦ 0 ]
    + load f ip subs workers

-- No name stands twice.
abbrev pub Absent : String → List (String × NodeInfo) → Type 0
Absent ip [] = Unit
Absent ip ((j, info) ∷ nodes) = (str_eq j ip ≡ false) × Absent ip nodes

abbrev pub IsDistinct : List (String × NodeInfo) → Type 0
IsDistinct [] = Unit
IsDistinct ((j, info) ∷ nodes) = Absent j nodes × IsDistinct nodes

module _ (w : String) (i i' : NodeInfo) (behind : List (String × NodeInfo)) where
  Absent-change :
      (j : String) (before : List (String × NodeInfo))
      → Absent j (before ++ (w, i) ∷ behind)
      → Absent j (before ++ (w, i') ∷ behind)
  Absent-change j [] a = a
  Absent-change j ((k, info) ∷ before) (ne, a) = (ne, Absent-change j before a)

  IsDistinct-change :
      (before : List (String × NodeInfo))
      → IsDistinct (before ++ (w, i) ∷ behind)
      → IsDistinct (before ++ (w, i') ∷ behind)
  IsDistinct-change [] d = d
  IsDistinct-change ((k, info) ∷ before) (a, d) =
      (Absent-change k before a, IsDistinct-change before d)

  Absent-middle :
      (j : String) (before : List (String × NodeInfo))
      → Absent j (before ++ (w, i) ∷ behind)
      → str_eq w j ≡ false
  Absent-middle j [] (ne, a) = ne
  Absent-middle j (k ∷ before) (ne, a) = Absent-middle j before a

  pub find_middle :
      (before : List (String × NodeInfo))
      → IsDistinct (before ++ (w, i) ∷ behind)
      → find w (before ++ (w, i) ∷ behind) ≡ some i
  unfolding find
  find_middle [] d = rw (eq_refl w, find) refl
  find_middle ((k, info) ∷ before) (a, d) = elim (Bool-cases (str_eq k w)) [
    | inl same ↦
        absurd
          (cc (Absent-middle k before a, ap (λ n. str_eq w n) ((eq_iff k w).0 same), eq_refl w))
    | inr other ↦ rw (other, find) (find_middle before d)
  ]

  pub find_change :
      (ip : String) (before : List (String × NodeInfo))
      → str_eq w ip ≡ false
      → find ip (before ++ (w, i') ∷ behind) ≡ find ip (before ++ (w, i) ∷ behind)
  unfolding find
  find_change ip [] ne = rw (ne, find) refl
  find_change ip ((k, info) ∷ before) ne = elim (Bool-cases (str_eq k ip)) [
    | inl same ↦ rw (same, find) refl
    | inr other ↦ rw (other, find) (find_change ip before ne)
  ]

abbrev pub Within : ℕ → ℕ → ℕ → Type 0
Within placed used offered = (placed ≡ 0) ⊎ (placed + used ≤ offered)

more :
    (placed need used offered left : ℕ)
    → left ≡ offered - need
    → need + used ≤ offered
    → Within placed used left
    → need + placed + used ≤ offered
more placed need used offered left e fit (inl none_yet) = omega arith
more placed need used offered left e fit (inr placed_fit) = omega arith

none_more :
    (placed used offered : ℕ) → Within placed used offered → Within (0 + placed) used offered
none_more placed used offered (inl none_yet) = inl (omega arith)
none_more placed used offered (inr placed_fit) = inr (omega arith)

-- One measure of the needs, what a worker offers of it, and what is in use there.
module _ (all_res : Bool) (u : Usage) (f : Instance → ℕ) (g : NodeInfo → ℕ) (used : String → ℕ)
    (fits : (s : SubTask) (ip : String) (info : NodeInfo)
      → is_proper s all_res u ip info ≡ true
      → f s.instance_needs + used ip ≤ g info)
    (taken : (needs : Instance) (info : NodeInfo) → g (take needs info) ≡ g info - f needs) where
  choose_all-Within :
      (subs : List SubTask) (nodes : List (String × NodeInfo)) (workers : List String) (ip : String)
      (info : NodeInfo)
      → IsDistinct nodes
      → choose_all subs all_res u nodes ≡ some workers
      → find ip nodes ≡ some info
      → Within (load f ip subs workers) (used ip) (g info)
  unfolding choose_all load
  choose_all-Within [] nodes workers ip info d e there = inl refl
  choose_all-Within (s ∷ subs) nodes workers ip info d e there =
      elim (Option-cases (keeps_worker s)) [
        | inr (w, keeps) ↦ elim (Option-cases (choose_all subs all_res u nodes)) [
          | inl short ↦ absurd (cc (rw (keeps, short, choose_all) at e))
          | inr (ws, rest) ↦
              let q : w ∷ ws ≡ workers = some_inj (rw (keeps, rest, choose_all) at e) in
              let h = choose_all-Within subs nodes ws ip info d rest there in
              subst (λ l. Within (load f ip (s ∷ subs) l) (used ip) (g info)) q
                (rw (keeps, load) (none_more (load f ip subs ws) (used ip) (g info) h))
        ]
        | inl idle ↦ elim (choose_lem s all_res u nodes) [
          | inl (short, _) ↦ absurd (cc (rw (idle, short, choose_all) at e))
          | inr (w, nodes', chosen, c) ↦ elim (Option-cases (choose_all subs all_res u nodes')) [
            | inl short ↦ absurd (cc (rw (idle, chosen, short, choose_all) at e))
            | inr (ws, rest) ↦
                let q : w ∷ ws ≡ workers = some_inj (rw (idle, chosen, rest, choose_all) at e) in
                let here = subst IsDistinct c.found d in
                let d' = subst IsDistinct (sym c.left) (
                  IsDistinct-change w c.info (take s.instance_needs c.info) c.behind c.before
                    here) in
                subst (λ l. Within (load f ip (s ∷ subs) l) (used ip) (g info)) q
                  (rw (idle, load)
                    (elim (Bool-cases (str_eq w ip)) [
                      | inl same ↦
                          let name : w ≡ ip = (eq_iff w ip).0 same in
                          let was : c.info ≡ info = some_inj (
                            sym (find_middle w c.info c.info c.behind c.before here)
                            ∙ (ap (find w) (sym c.found)
                                ∙ (ap (λ n. find n nodes) name ∙ there))) in
                          let still : find ip nodes' ≡ some (take s.instance_needs c.info) =
                            ap (λ n. find n nodes') (sym name)
                            ∙ (ap (find w) c.left
                                ∙ find_middle w (take s.instance_needs c.info) c.info c.behind
                                    c.before (subst IsDistinct c.left d')) in
                          let h =
                            choose_all-Within subs nodes' ws ip (take s.instance_needs c.info) d'
                              rest still in
                          rw same (
                            inr (
                              more (load f ip subs ws) (f s.instance_needs) (used ip) (g info)
                                (g (take s.instance_needs c.info))
                                (taken s.instance_needs c.info
                                  ∙ ap (λ n. g n - f s.instance_needs) was)
                                (subst (λ n. f s.instance_needs + used ip ≤ g n) was
                                  (subst (λ n. f s.instance_needs + used n ≤ g c.info) name
                                    (fits s w c.info c.proper)))
                                h))
                      | inr other ↦
                          let still =
                            ap (find ip) c.left
                            ∙ (find_change w c.info (take s.instance_needs c.info) c.behind ip
                                  c.before other
                                ∙ (ap (find ip) (sym c.found) ∙ there)) in
                          let h = choose_all-Within subs nodes' ws ip info d' rest still in
                          rw other (none_more (load f ip subs ws) (used ip) (g info) h)
                    ]))
          ]
        ]
      ]

-- What a choice of workers places on one of them, cores, memory, disk and gpus each.
pub record Fits (all_res : Bool) (u : Usage) (ip : String) (info : NodeInfo) (subs : List SubTask)
    (workers : List String) : Type 0 where
  pub cpu :
      Within
        (load (λ (n : Instance). n.cpu) ip subs workers)
        (if all_res then 0 else u.cpu_usage (some ip))
        info.cpu
  pub memory : Within (load (λ (n : Instance). n.memory) ip subs workers) 0 info.memory
  pub disk : Within (load (λ (n : Instance). n.disk) ip subs workers) 0 info.disk
  pub gpu :
      Within
        (load (λ (n : Instance). n.gpu) ip subs workers)
        (if all_res then 0 else u.gpu_usage (some ip))
        info.gpu

load_nobody : (f : Instance → ℕ) (ip : String) (subs : List SubTask) → load f ip subs [] ≡ 0
unfolding load
load_nobody f ip [] = refl
load_nobody f ip (s ∷ subs) = refl

pub choose_all-Fits :
    (subs : List SubTask) (all_res : Bool) (u : Usage) (nodes : List (String × NodeInfo))
    (workers : List String) (ip : String) (info : NodeInfo)
    → IsDistinct nodes
    → choose_all subs all_res u nodes ≡ some workers
    → find ip nodes ≡ some info
    → Fits all_res u ip info subs workers
unfolding is_proper take
choose_all-Fits subs all_res u nodes workers ip info d e there = record {
  cpu =
      choose_all-Within all_res u (λ n. n.cpu) (λ n. n.cpu)
        (λ i. if all_res then 0 else u.cpu_usage (some i)) (λ s i n h. ground (arith, h))
        (λ needs n. refl) subs nodes workers ip info d e there;
  memory =
      choose_all-Within all_res u (λ n. n.memory) (λ n. n.memory) (λ i. 0)
        (λ s i n h. ground (arith, h)) (λ needs n. refl) subs nodes workers ip info d e there;
  disk =
      choose_all-Within all_res u (λ n. n.disk) (λ n. n.disk) (λ i. 0)
        (λ s i n h. ground (arith, h)) (λ needs n. refl) subs nodes workers ip info d e there;
  gpu =
      choose_all-Within all_res u (λ n. n.gpu) (λ n. n.gpu)
        (λ i. if all_res then 0 else u.gpu_usage (some i)) (λ s i n h. ground (arith, h))
        (λ needs n. refl) subs nodes workers ip info d e there;
}

-- Where the running workers have different names, a choice of workers for any vnodes places on each
-- worker no more memory, disk, cores and gpus than it offers, the cores and gpus in use there
-- included unless the choice is among all resources; or it places nothing of that measure there.
pub find_proper_workers-Fits :
    (subs : List SubTask) (all_res : Bool) (u : Usage) (nodes : List (String × NodeInfo))
    (workers : List String) (ip : String) (info : NodeInfo)
    → IsDistinct nodes
    → find_proper_workers subs all_res u nodes ≡ some workers
    → find ip nodes ≡ some info
    → Fits all_res u ip info subs workers
unfolding find_proper_workers
find_proper_workers-Fits subs all_res u [] workers ip info d e there = cc
find_proper_workers-Fits subs all_res u (node ∷ nodes) workers ip info d e there =
    let nothing : Fits all_res u ip info subs [] = record {
      cpu = inl (load_nobody _ ip subs);
      memory = inl (load_nobody _ ip subs);
      disk = inl (load_nobody _ ip subs);
      gpu = inl (load_nobody _ ip subs);
    } in
    elim (Option-cases (choose_all subs all_res u (node ∷ nodes))) [
      | inl short ↦
          subst (Fits all_res u ip info subs) (some_inj (rw (short, find_proper_workers) at e))
            nothing
      | inr (ws, chosen) ↦ elim (Bool-cases (has_waiting subs)) [
        | inl waits ↦
            subst (Fits all_res u ip info subs)
              (some_inj (rw (chosen, waits, find_proper_workers) at e))
              (choose_all-Fits subs all_res u (node ∷ nodes) ws ip info d chosen there)
        | inr idle ↦
            subst (Fits all_res u ip info subs)
              (some_inj (rw (chosen, idle, find_proper_workers) at e)) nothing
      ]
    ]
