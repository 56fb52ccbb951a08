-- ===== src/Net/IntervalPool/Cover.antt =====
-- The abstract view of an interval pool: how many of its intervals hold an address. A pool is valid
-- if its keys are the cidrs from its own to 32, its intervals are aligned blocks within its network,
-- and no address is held twice.
use docklet.Common.{
  ℕ, ◌+◌, ◌%◌, ◌≤◌, ◌≡◌, ◌≢◌, refl, sym, subst, ap, ◌∙◌, inl, inr, Bool, true, false, ◌&&◌, none,
  some, List, [], ◌∷◌, ◌++◌, arith, ltb, leb, if◌then◌else◌, All, Bool-cases, sum_upto,
  sum_upto_change,
}
use native.Mathlib.Decide.{ℕ_discrete}
use docklet.Net.Address.{Ip, eq_ip, ip_to_int, block_size}
use docklet.Net.Address.Laws.{IsQuad, eq_ip_sound}
use docklet.Net.IntervalPool.{IntervalPool, at, put, mem, remove, insert, sort}

-- 1 if the block of `c` that starts at `start` holds `x`, and 0 if not.
abbrev pub inside : ℕ → ℕ → ℕ → ℕ
inside start c x = if leb start x && ltb x (start + block_size c) then 1 else 0

unfoldable pub hits : ℕ → ℕ → List Ip → ℕ
hits x c [] = 0
hits x c (b ∷ l) = inside (ip_to_int b) c x + hits x c l

unfoldable pub cover : IntervalPool → ℕ → ℕ
cover p x = sum_upto 32 (λ k. hits x k (at p k))

pub hits-append : (x c : ℕ) (l m : List Ip) → hits x c (l ++ m) ≡ hits x c l + hits x c m
unfolding hits
hits-append x c [] m = omega arith
hits-append x c (b ∷ l) m = omega (arith, hits-append x c l m)

pub hits-remove :
    (x c : ℕ) (b : Ip) (l : List Ip)
    → mem b l ≡ true
    → hits x c l ≡ inside (ip_to_int b) c x + hits x c (remove b l)
unfolding hits mem remove
hits-remove x c b [] h = cc
hits-remove x c b (y ∷ l) h = elim (Bool-cases (eq_ip b y)) [
  | inl e ↦ rw e (rw (eq_ip_sound b y e) refl)
  | inr ne ↦ rw ne (omega (arith, hits-remove x c b l (rw ne at h)))
]

hits-insert :
    (x c : ℕ) (b : Ip) (l : List Ip) → hits x c (insert b l) ≡ inside (ip_to_int b) c x + hits x c l
unfolding hits insert
hits-insert x c b [] = refl
hits-insert x c b (y ∷ l) = elim (Bool-cases (leb (ip_to_int b) (ip_to_int y))) [
  | inl e ↦ rw e refl
  | inr e ↦ rw e (omega (arith, hits-insert x c b l))
]

pub hits-sort : (x c : ℕ) (l : List Ip) → hits x c (sort l) ≡ hits x c l
unfolding hits sort
hits-sort x c [] = refl
hits-sort x c (b ∷ l) = omega (arith, hits-insert x c b (sort l), hits-sort x c l)

abbrev pub has_key : IntervalPool → ℕ → Bool
has_key p k = elim (p.pool k) [ none ↦ false | some _ ↦ true ]

pub at-some : (p : IntervalPool) (k : ℕ) (l : List Ip) → p.pool k ≡ some l → at p k ≡ l
unfolding at
at-some p k l e = rw (e, at)

pub at_no_key : (p : IntervalPool) (k : ℕ) → has_key p k ≡ false → at p k ≡ []
unfolding at
at_no_key p k h = ground arith

pub has_key-put : (p : IntervalPool) (k j : ℕ) (l : List Ip) → has_key (put p k l) j ≡ has_key p j
unfolding put
has_key-put p k j l = ground arith

pub at-put_self :
    (p : IntervalPool) (k : ℕ) (l : List Ip) → has_key p k ≡ true → at (put p k l) k ≡ l
unfolding put at
at-put_self p k l h = ground arith

pub at-put_ne : (p : IntervalPool) (k j : ℕ) (l : List Ip) → j ≢ k → at (put p k l) j ≡ at p j
unfolding put at
at-put_ne p k j l h = ground arith

-- A write at one key changes the cover by what it changes there.
pub cover-put :
    (p : IntervalPool) (k x : ℕ) (l : List Ip)
    → k ≤ 32
    → has_key p k ≡ true
    → cover (put p k l) x + hits x k (at p k) ≡ cover p x + hits x k l
unfolding cover
cover-put p k x l le h =
    sum_upto_change 32 k (λ j. hits x j (at p j)) (λ j. hits x j (at (put p k l) j)) le
      (λ j ne. ap (hits x j) (at-put_ne p k j l ne))
    ∙ ap (λ t. cover p x + hits x k t) (at-put_self p k l h)

-- An aligned block within [lo, hi).
pub record IsBlock (lo hi k : ℕ) (b : Ip) : Type 0 where
  pub quad : IsQuad b
  pub aligned : ip_to_int b % block_size k ≡ 0
  pub above : lo ≤ ip_to_int b
  pub below : ip_to_int b + block_size k ≤ hi

abbrev pub base : IntervalPool → ℕ
base p = ip_to_int p.info_addr

abbrev pub end : IntervalPool → ℕ
end p = base p + block_size p.info_cidr

pub record IsWellFormed (p : IntervalPool) : Type 0 where
  pub top : p.info_cidr ≤ 32
  pub base_quad : IsQuad p.info_addr
  pub base_aligned : base p % block_size p.info_cidr ≡ 0
  pub keys : (k : ℕ) → has_key p k ≡ (leb p.info_cidr k && leb k 32)
  pub blocks : (k : ℕ) → All (IsBlock (base p) (end p) k) (at p k)

pub record IsValid (p : IntervalPool) : Type 0 where
  pub well_formed : IsWellFormed p
  pub once : (x : ℕ) → cover p x ≤ 1

pub put-IsWellFormed :
    (p : IntervalPool) (k : ℕ) (l : List Ip)
    → IsWellFormed p
    → has_key p k ≡ true
    → All (IsBlock (base p) (end p) k) l
    → IsWellFormed (put p k l)
unfolding put
put-IsWellFormed p k l w h new = record {
  top = w.top;
  base_quad = w.base_quad;
  base_aligned = w.base_aligned;
  keys = λ j. has_key-put p k j l ∙ w.keys j;
  blocks = λ j. elim (ℕ_discrete j k) [
    | yes e ↦ rw e (subst (All _) (sym (at-put_self p k l h)) new)
    | no ne ↦ subst (All _) (sym (at-put_ne p k j l ne)) (w.blocks j)
  ];
}

pub All-remove : (P : Ip → Type 0) (b : Ip) (l : List Ip) → All P l → All P (remove b l)
unfolding remove
All-remove P b [] a = tt
All-remove P b (y ∷ l) a = elim (Bool-cases (eq_ip b y)) [
  | inl e ↦ rw e a.1
  | inr e ↦ rw e (a.0, All-remove P b l a.1)
]

All-insert : (P : Ip → Type 0) (b : Ip) (l : List Ip) → P b → All P l → All P (insert b l)
unfolding insert
All-insert P b [] h a = (h, tt)
All-insert P b (y ∷ l) h a = elim (Bool-cases (leb (ip_to_int b) (ip_to_int y))) [
  | inl e ↦ rw e (h, a)
  | inr e ↦ rw e (a.0, All-insert P b l h a.1)
]

pub All-sort : (P : Ip → Type 0) (l : List Ip) → All P l → All P (sort l)
unfolding sort
All-sort P [] a = tt
All-sort P (b ∷ l) a = All-insert P b (sort l) a.0 (All-sort P l a.1)

pub All-mem : (P : Ip → Type 0) (b : Ip) (l : List Ip) → All P l → mem b l ≡ true → P b
unfolding mem
All-mem P b [] a h = absurd (cc)
All-mem P b (y ∷ l) a h = elim (Bool-cases (eq_ip b y)) [
  | inl e ↦ rw (eq_ip_sound b y e) a.0
  | inr e ↦ All-mem P b l a.1 (rw e at h)
]
