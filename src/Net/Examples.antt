-- ===== src/Net/Examples.antt =====
-- The theorems on the pools at concrete networks, and a few runs.
use docklet.Common.{
  ℕ, ◌+◌, ◌^◌, ◌≤◌, ◌<◌, ◌≡◌, refl, sym, subst, ◌∙◌, inr, true, false, none, some, List, [], ◌∷◌,
  ◌++◌, arith, length,
}
use docklet.Net.Address.{Ip, ip_to_int, int_to_ip, block_size, fix_ip}
use docklet.Net.Address.Laws.{int_to_ip-ip_to_int}
use docklet.Net.Result.{ok, ok-injective, refused, not_enough, overlaps, bad_release}
use docklet.Net.IntervalPool.{
  IntervalPool, at, put, mem, remove, insert, sort, find_up, split, allocate, search_level,
  overlap_fuel, overlap_level, overlap_from, overlap, inrange, buddy, place, merge, free,
}
use docklet.Net.IntervalPool
use docklet.Net.IntervalPool.Cover.{inside, cover, end, IsValid}
use docklet.Net.IntervalPool.New.{new-IsValid}
use docklet.Net.IntervalPool.Search.{Answers}
use docklet.Net.IntervalPool.Overlap.{InBlock, overlap-Answers}
use docklet.Net.IntervalPool.Allocate.{Allocated, allocate_ok, allocate_refused}
use docklet.Net.IntervalPool.Free.{free_lem, free_twice, free_unseen, free-allocate}
use docklet.Net.EnumPool
use docklet.Net.EnumPool.{EnumPool, hosts, pops, pop, release_by}
use docklet.Net.EnumPool.Count.{count}
use docklet.Net.EnumPool.New.{new-Conserved}
use docklet.Net.EnumPool.Ownership.{Conserved, acquire-Conserved, release-Conserved}
use docklet.Net.EnumPool.Release.{release_refused, release_duplicate}
use docklet.Net.UserPool
use docklet.Net.UserPool.{UserPool}
use docklet.Net.UserPool.Gateway.{new_ok}

-- 10.0.0.64, in 10.0.0.0/24
abbrev addr : Ip
addr = record { a = 10; b = 0; c = 0; d = 64 }

abbrev home : IntervalPool
home = IntervalPool.new addr 24

home-IsValid : IsValid home
home-IsValid = (new-IsValid addr 24 (omega arith) (omega arith)).0

new-IsValid_example :
    IsValid home × ((x : ℕ) → cover home x ≡ inside (ip_to_int (fix_ip addr 24)) 24 x)
new-IsValid_example = new-IsValid addr 24 (omega arith) (omega arith)

int_to_ip-ip_to_int_example : int_to_ip (ip_to_int addr) ≡ addr
int_to_ip-ip_to_int_example = int_to_ip-ip_to_int addr (omega arith)

-- a /26 of a fresh /24 is its first quarter
quarter : (allocate home 26).0 ≡ ok (record { a = 10; b = 0; c = 0; d = 0 })
unfolding allocate find_up IntervalPool.new fix_ip ip_to_int int_to_ip block_size
quarter = refl

abbrev first_quarter : Ip
first_quarter = record { a = 10; b = 0; c = 0; d = 0 }

first_taken : Allocated home (allocate home 26).1 26 first_quarter
first_taken = allocate_ok home 26 first_quarter home-IsValid quarter

allocate_ok_example : Allocated home (allocate home 26).1 26 first_quarter
allocate_ok_example = allocate_ok home 26 first_quarter home-IsValid quarter

too_large : (allocate home 20).0 ≡ refused not_enough
unfolding allocate find_up IntervalPool.new
too_large = refl

spent : (allocate (allocate home 24).1 26).0 ≡ refused not_enough
unfolding allocate find_up split put at IntervalPool.new fix_ip ip_to_int int_to_ip block_size
spent = refl

abbrev rest : IntervalPool
rest = (allocate home 26).1

rest-IsValid : IsValid rest
rest-IsValid = first_taken.valid

all_taken : (allocate home 24).0 ≡ ok first_quarter
unfolding allocate find_up IntervalPool.new fix_ip ip_to_int int_to_ip block_size
all_taken = refl

low : (allocate home 24).1.info_cidr ≤ 25
unfolding allocate find_up split put at IntervalPool.new fix_ip ip_to_int int_to_ip block_size
low = omega arith

allocate_refused_example :
    (at (allocate home 24).1 25 ≡ [])
    × ((allocate (allocate home 24).1 26).1 ≡ (allocate home 24).1)
allocate_refused_example =
    allocate_refused (allocate home 24).1 26 25
      (allocate_ok home 24 first_quarter home-IsValid all_taken).valid (omega arith) spent low
      (omega arith)

home_below : end home < 2 ^ 32
unfolding IntervalPool.new fix_ip ip_to_int int_to_ip block_size
home_below = omega arith

rest_below : end rest < 2 ^ 32
unfolding allocate find_up split put at IntervalPool.new fix_ip ip_to_int int_to_ip block_size
rest_below = omega arith

quarter_in_range : inrange rest first_quarter 26 ≡ true
unfolding inrange allocate find_up split put at IntervalPool.new fix_ip ip_to_int int_to_ip
    block_size
quarter_in_range = refl

quarter_held : (x : ℕ) → InBlock first_quarter 26 x → cover rest x ≡ 0
unfolding fix_ip ip_to_int int_to_ip block_size
quarter_held x i = ground (arith, first_taken.loses x, home-IsValid.once x)

free_lem_example :
    (q : IntervalPool) × (free rest first_quarter 26 ≡ ok q)
    × IsValid q
    × ((x : ℕ) → cover q x ≡ cover rest x + inside (ip_to_int (fix_ip first_quarter 26)) 26 x)
free_lem_example =
    free_lem rest first_quarter 26 rest-IsValid (omega arith) (omega arith) quarter_in_range
      rest_below quarter_held

free-allocate_example :
    (q : IntervalPool) × (free rest first_quarter 26 ≡ ok q)
    × IsValid q
    × ((x : ℕ) → cover q x ≡ cover home x)
free-allocate_example = free-allocate home 26 first_quarter home-IsValid home_below quarter

overlap-Answers_example :
    Answers
      ((x : ℕ) × InBlock first_quarter 26 x × (0 < cover rest x))
      ((x : ℕ) → InBlock first_quarter 26 x → cover rest x ≡ 0)
      (overlap rest first_quarter 26)
overlap-Answers_example =
    overlap-Answers rest first_quarter 26 rest-IsValid.well_formed (omega arith) (omega arith)
      quarter_in_range rest_below

home_in_range : inrange home addr 26 ≡ true
unfolding inrange IntervalPool.new fix_ip ip_to_int int_to_ip block_size
home_in_range = refl

home_free : 0 < cover home 167772224
unfolding fix_ip ip_to_int int_to_ip block_size
home_free = ground (arith, (new-IsValid addr 24 (omega arith) (omega arith)).1 167772224)

free_twice_example : free home addr 26 ≡ refused overlaps
free_twice_example =
    free_twice home addr 26 home-IsValid (omega arith) (omega arith) home_in_range home_below
      167772224 (unfold fix_ip ip_to_int int_to_ip block_size in omega arith) home_free

-- 255.255.255.0/24, the last /24 of the address space
abbrev edge : Ip
edge = record { a = 255; b = 255; c = 255; d = 0 }

edge_in_range : inrange (IntervalPool.new edge 24) edge 24 ≡ true
unfolding inrange IntervalPool.new fix_ip ip_to_int int_to_ip block_size
edge_in_range = refl

free_unseen_example :
    (q : IntervalPool) × (free (IntervalPool.new edge 24) edge 24 ≡ ok q)
    × ((x : ℕ) → InBlock edge 24 x → cover q x ≡ cover (IntervalPool.new edge 24) x + 1)
free_unseen_example =
    free_unseen (IntervalPool.new edge 24) edge 24
      (new-IsValid edge 24 (omega arith) (omega arith)).0 (omega arith) (omega arith) edge_in_range
      (unfold fix_ip ip_to_int int_to_ip block_size in refl)

-- the addresses 10.0.0.1 to 10.0.0.6
abbrev six : EnumPool
six = EnumPool.new first_quarter 29

six-Conserved : Conserved (EnumPool.inrange six) six []
six-Conserved = new-Conserved first_quarter 29 (omega arith) (omega arith)

new-Conserved_example : Conserved (EnumPool.inrange six) six []
new-Conserved_example = new-Conserved first_quarter 29 (omega arith) (omega arith)

abbrev host_six : Ip
host_six = record { a = 10; b = 0; c = 0; d = 6 }

abbrev after_one : EnumPool
after_one = (EnumPool.acquire six 1).1

acquire-Conserved_example :
    (ips : List Ip) × ((EnumPool.acquire six 1).0 ≡ ok ips)
    × (length ips ≡ 1)
    × Conserved (EnumPool.inrange six) after_one (ips ++ [])
acquire-Conserved_example =
    acquire-Conserved (EnumPool.inrange six) six [] six-Conserved 1
      (unfold EnumPool.new hosts block_size in omega arith)

took : (EnumPool.acquire six 1).0 ≡ ok (host_six ∷ [])
unfolding EnumPool.acquire EnumPool.new hosts pops pop fix_ip ip_to_int int_to_ip block_size
took = refl

five_Conserved : Conserved (EnumPool.inrange six) after_one (host_six ∷ [])
five_Conserved =
    let (ips, e, len, c) =
      acquire-Conserved (EnumPool.inrange six) six [] six-Conserved 1
        (unfold EnumPool.new hosts block_size in omega arith) in
    subst (λ t. Conserved (EnumPool.inrange six) after_one (t ++ [])) (ok-injective (sym e ∙ took))
      c

release-Conserved_example :
    ((release_by (EnumPool.inrange six) after_one ((host_six, none) ∷ [])).0 ≡ ok tt)
    × Conserved
        (EnumPool.inrange six)
        (release_by (EnumPool.inrange six) after_one ((host_six, none) ∷ [])).1
        []
release-Conserved_example =
    release-Conserved (EnumPool.inrange six) after_one (host_six ∷ []) five_Conserved
      ((host_six, none) ∷ []) [] (omega arith) (λ x. unfold count in omega arith)

release_refused_example :
    release_by (EnumPool.inrange six) six ((host_six, none) ∷ (addr, some 24) ∷ [])
    ≡ (refused bad_release, six)
release_refused_example =
    release_refused (EnumPool.inrange six) six ((host_six, none) ∷ []) [] addr (some 24)
      (inr (unfold EnumPool.inrange EnumPool.new fix_ip ip_to_int int_to_ip block_size in refl))

returnable : (mem host_six after_one.pool ≡ false) × (EnumPool.inrange six host_six ≡ true)
unfolding EnumPool.acquire EnumPool.inrange EnumPool.new mem hosts pops pop fix_ip ip_to_int
    int_to_ip block_size
returnable = (refl, refl)

release_duplicate_example :
    ((release_by (EnumPool.inrange six) after_one ((host_six, none) ∷ (host_six, some 29) ∷ [])).0
      ≡ ok tt)
    × (count host_six
          (release_by
            (EnumPool.inrange six)
            after_one
            ((host_six, none) ∷ (host_six, some 29) ∷ [])).1.pool
        ≡ 2)
release_duplicate_example =
    release_duplicate (EnumPool.inrange six) after_one host_six none (some 29) returnable

new_ok_example :
    (u : UserPool) × (UserPool.new addr 24 ≡ ok u)
    × (ip_to_int u.gateway ≡ ip_to_int (fix_ip addr 24) + 1)
    × (UserPool.inrange u u.gateway ≡ false)
    × Conserved (UserPool.inrange u) u.enum []
new_ok_example = new_ok addr 24 (omega arith) (omega arith)
