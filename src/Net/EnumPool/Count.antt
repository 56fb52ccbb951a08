-- ===== src/Net/EnumPool/Count.antt =====
-- How often a list holds an address.
use docklet.Common.{
  ℕ, ◌+◌, ◌≡◌, refl, inl, inr, true, List, [], ◌∷◌, ◌++◌, arith, leb, if◌then◌else◌, Bool-cases,
}
use docklet.Net.Address.{Ip, eq_ip, ip_to_int}
use docklet.Net.Address.Laws.{eq_ip_sound}
use docklet.Net.IntervalPool.{mem, remove, insert, sort}

unfoldable pub count : Ip → List Ip → ℕ
count x [] = 0
count x (y ∷ l) = (if eq_ip x y then 1 else 0) + count x l

pub count-append : (x : Ip) (l m : List Ip) → count x (l ++ m) ≡ count x l + count x m
unfolding count
count-append x [] m = omega arith
count-append x (y ∷ l) m = omega (arith, count-append x l m)

-- Membership is a positive count.
pub mem_iff_count : (x : Ip) (l : List Ip) → (mem x l ≡ leb 1 (count x l))
unfolding mem count
mem_iff_count x [] = refl
mem_iff_count x (y ∷ l) = ground (arith, mem_iff_count x l)

pub count-remove :
    (x y : Ip) (l : List Ip)
    → mem y l ≡ true
    → count x l ≡ count x (remove y l) + (if eq_ip x y then 1 else 0)
unfolding count mem remove
count-remove x y [] h = cc
count-remove x y (z ∷ l) h = elim (Bool-cases (eq_ip y z)) [
  | inl e ↦ rw e (rw (eq_ip_sound y z e) (omega arith))
  | inr ne ↦ rw ne (omega (arith, count-remove x y l (rw ne at h)))
]

count-insert :
    (x y : Ip) (l : List Ip) → count x (insert y l) ≡ (if eq_ip x y then 1 else 0) + count x l
unfolding count insert
count-insert x y [] = refl
count-insert x y (z ∷ l) = elim (Bool-cases (leb (ip_to_int y) (ip_to_int z))) [
  | inl e ↦ rw e refl
  | inr e ↦ rw e (omega (arith, count-insert x y l))
]

pub count-sort : (x : Ip) (l : List Ip) → count x (sort l) ≡ count x l
unfolding count sort
count-sort x [] = refl
count-sort x (y ∷ l) = omega (arith, count-insert x y (sort l), count-sort x l)
