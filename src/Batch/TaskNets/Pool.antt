-- ===== src/Batch/TaskNets/Pool.antt =====
-- The free nets that the task manager starts with, and the nets that tasks hold.
use docklet.Common.{
  ℕ, zero, suc, ◌+◌, ◌-◌, ◌*◌, ◌/◌, ◌%◌, ◌^◌, ◌≤◌, ◌<◌, ◌≡◌, refl, ap, subst, ◌∙◌, inl, inr, Option,
  none, some, List, [], ◌∷◌, ◌++◌, ◌==◌, multiple_add, multiple_gap, pow_pos, IsMultiple-quotient,
  if◌then◌else◌, arith, Bool-cases, List-cases, ◌⊎◌,
}
use native.Mathlib.Nat.{
  lt-div-mul-add, pow-le-pow_right, mul-mod_right, pow-suc, div-mul-le_self, zero-mod,
}
use docklet.Net.Address.{Ip}
use docklet.Batch.TaskNets.{TaskNets, range, new, acquire_task_ips, release_task_ips}

-- How often a list has the net x.
unfoldable pub times : ℕ → List ℕ → ℕ
times x [] = 0
times x (y ∷ l) = (if x == y then 1 else 0) + times x l

pub times-append : (x : ℕ) (l m : List ℕ) → times x (l ++ m) ≡ times x l + times x m
unfolding times
times-append x [] m = omega arith
times-append x (y ∷ l) m = omega (arith, times-append x l m)

-- 1 for the offset that a task holds
abbrev pub holds : ℕ → Option ℕ → ℕ
holds x none = 0
holds x (some y) = if x == y then 1 else 0

-- x is the offset of a net within the batch network.
pub record IsNet (n : TaskNets) (x : ℕ) : Type 0 where
  pub aligned : x % 2 ^ n.task_cidr ≡ 0
  pub fits : x + 2 ^ n.task_cidr ≤ 2 ^ (32 - n.batch_cidr)

-- Each net of the batch network is free or held by a task, never twice, and what is free or held is one.
pub record IsOwned (n : TaskNets) (held : ℕ → ℕ) : Type 0 where
  pub once : (x : ℕ) → times x n.free_nets + held x ≤ 1
  pub net : (x : ℕ) → 0 < times x n.free_nets + held x → IsNet n x
  pub whole : (x : ℕ) → IsNet n x → 1 ≤ times x n.free_nets + held x

times-range_low : (n start step x : ℕ) → x < start → times x (range n start step) ≡ 0
unfolding times range
times-range_low zero start step x lt = refl
times-range_low (suc n) start step x lt =
    ground (arith, times-range_low n (start + step) step x (omega arith))

times-range :
    (n start step x : ℕ)
    → 0 < step
    → start % step ≡ 0
    → (times x (range n start step) ≤ 1)
      × (0 < times x (range n start step) → (x % step ≡ 0) × (x + step ≤ start + n * step))
unfolding times range
times-range zero start step x pos m = (omega arith, λ h. absurd (omega arith))
times-range (suc n) start step x pos m = elim (Bool-cases (x == start)) [
  | inl here ↦
      let same : x ≡ start = ground arith in
      let rest = times-range_low n (start + step) step x (omega (arith, same)) in
      (ground (arith, rest), λ _. (ap (λ y. y % step) same ∙ m, grind (arith, same)))
  | inr other ↦
      let (once, offset) = times-range n (start + step) step x pos (multiple_add step start m) in
      (
        ground (arith, once),
        λ h. let (aligned, below) = offset (ground (arith, h)) in (aligned, grind (arith, below)),
      )
]

-- Each multiple of the step within the range is there.
times-range_whole :
    (n start step x : ℕ)
    → 0 < step
    → start % step ≡ 0
    → x % step ≡ 0
    → start ≤ x
    → x < start + n * step
    → 1 ≤ times x (range n start step)
unfolding times range
times-range_whole zero start step x pos m mx le lt = absurd (omega (arith, le, lt))
times-range_whole (suc n) start step x pos m mx le lt = elim (Bool-cases (x == start)) [
  | inl here ↦ ground (arith, here)
  | inr other ↦
      let above : start < x = ground (arith, other, le) in
      let gap = multiple_gap step start x m mx above in
      let rest =
        times-range_whole n (start + step) step x pos (multiple_add step start m) mx gap
          (grind (arith, lt)) in
      ground (arith, rest)
]

pow_divides : (b k : ℕ) → 2 ^ (k + b) % 2 ^ b ≡ 0
pow_divides b zero =
    let e : 2 ^ (0 + b) ≡ 2 ^ b = ap (λ m. 2 ^ m) (omega arith) in
    let product : 2 ^ b ≡ 2 ^ b * 1 = omega arith in rw (e ∙ product) (mul-mod_right (2 ^ b) 1)
pow_divides b (suc k) =
    let half : 2 ^ suc (k + b) ≡ 2 ^ (k + b) * 2 = pow-suc 2 (k + b) in
    let e : 2 ^ (suc k + b) ≡ 2 ^ suc (k + b) = ap (λ m. 2 ^ m) (omega arith) in
    let q = IsMultiple-quotient (2 ^ b) (2 ^ (k + b)) (pow_divides b k) in
    let product : 2 ^ (suc k + b) ≡ 2 ^ b * (2 ^ (k + b) / 2 ^ b * 2) = grind (arith, e, half, q) in
    rw product (mul-mod_right (2 ^ b) (2 ^ (k + b) / 2 ^ b * 2))

-- For a batch network of cidr at most 30 the nets are cut from the whole of it, each once, and all of
-- them are free at first.
pub new-IsOwned :
    (batch_net : Ip) (batch_cidr cidr : ℕ)
    → batch_cidr ≤ 30
    → IsOwned (new batch_net batch_cidr cidr) (λ x. 0)
unfolding new
new-IsOwned batch_net batch_cidr cidr le =
    let n = new batch_net batch_cidr cidr in
    let step = 2 ^ n.task_cidr in
    let stop = 2 ^ (32 - batch_cidr) - 1 in
    let pos = pow_pos n.task_cidr in
    let fit : n.task_cidr ≤ 32 - batch_cidr = ground arith in
    let whole : 2 ^ (32 - batch_cidr) % step ≡ 0 =
      subst (λ k. 2 ^ k % step ≡ 0) (omega (arith, fit))
        (pow_divides n.task_cidr (32 - batch_cidr - n.task_cidr)) in
    let count = (stop + (step - 1)) / step in
    record {
      once = λ x. omega (arith, (times-range count 0 step x pos (zero-mod step)).0);
      net = λ x h.
          let (aligned, below) = (times-range count 0 step x pos (zero-mod step)).1 (omega arith) in
          record {
            aligned = aligned;
            fits =
                multiple_gap step x (2 ^ (32 - batch_cidr)) aligned whole
                  (omega (arith, below, div-mul-le_self (stop + (step - 1)) step, pos));
          };
      whole = λ x k.
          let two : 2 ≤ n.task_cidr = ground arith in
          let four : 4 ≤ step = pow-le-pow_right {n = 2} (omega arith) two in
          let up = lt-div-mul-add {a = stop + (step - 1)} {b = step} pos in
          let inside : x < 0 + count * step = omega (arith, four, up, k.fits) in
          omega (
            arith,
            times-range_whole count 0 step x pos (zero-mod step) k.aligned (omega arith) inside,
          );
    }

-- What a task gets when it asks for a net: it holds one afterwards, the nets are owned as before, and
-- a task that has one keeps it. It gets none only where it has none and none is free.
pub acquire_task_ips_lem :
    (n : TaskNets) (held : ℕ → ℕ) (o : Option ℕ)
    → IsOwned n (λ x. held x + holds x o)
    → ((acquire_task_ips n o ≡ none) × (n.free_nets ≡ []) × (o ≡ none))
      ⊎ ((net : ℕ) × (n' : TaskNets) × (acquire_task_ips n o ≡ some (net, n'))
          × ((x : ℕ) → times x n'.free_nets + holds x (some net) ≡ times x n.free_nets + holds x o)
          × IsOwned n' (λ x. held x + holds x (some net)))
unfolding acquire_task_ips times
acquire_task_ips_lem n held (some net) w = inr (net, n, refl, (λ x. refl), w)
acquire_task_ips_lem n held none w = elim (List-cases n.free_nets) [
  | inl empty ↦ inl (rw (empty, acquire_task_ips) refl, empty, refl)
  | inr (net, rest, e) ↦
      let same : (x : ℕ) → times x n.free_nets ≡ (if x == net then 1 else 0) + times x rest =
        λ x. ap (times x) e in
      inr (
        net,
        record n { free_nets = rest },
        rw (e, acquire_task_ips) refl,
        λ x. omega (arith, same x),
        record {
          once = λ x. omega (arith, same x, w.once x);
          net = λ x h.
              let k = w.net x (omega (arith, same x, h)) in
              record { aligned = k.aligned; fits = k.fits };
          whole = λ x k.
              omega (arith, same x, w.whole x (record { aligned = k.aligned; fits = k.fits }));
        },
      )
]

-- A task that gives its net back holds none afterwards, and the nets are owned as before.
pub release_task_ips_lem :
    (n : TaskNets) (held : ℕ → ℕ) (o : Option ℕ)
    → IsOwned n (λ x. held x + holds x o)
    → ((x : ℕ) → times x (release_task_ips n o).free_nets ≡ times x n.free_nets + holds x o)
      × IsOwned (release_task_ips n o) held
unfolding release_task_ips times
release_task_ips_lem n held none w = (
  λ x. omega arith,
  record {
    once = λ x. omega (arith, w.once x);
    net = λ x h. w.net x (omega (arith, h));
    whole = λ x k. omega (arith, w.whole x k);
  },
)
release_task_ips_lem n held (some net) w =
    let back : (x : ℕ)
        → times x (n.free_nets ++ net ∷ []) ≡ times x n.free_nets + holds x (some net) =
      λ x. omega (arith, times-append x n.free_nets (net ∷ [])) in
    (
      back,
      record {
        once = λ x. omega (arith, back x, w.once x);
        net = λ x h.
            let k = w.net x (omega (arith, back x, h)) in
            record { aligned = k.aligned; fits = k.fits };
        whole =
            λ x k. omega (arith, back x, w.whole x (record { aligned = k.aligned; fits = k.fits }));
      },
    )
