-- ===== src/Net/Store.antt =====
-- The keys of etcd that class NetworkMgr uses, and what it relies on: src/utils/etcdlib.py hands each
-- request to the etcd service. The service answers every request, and the JSON text of a pool reads
-- back as the pool; a key is under "network/", as the text behind it.
use docklet.Common.{
  ◌≡◌, ◌≢◌, refl, ap, ◌⊎◌, inl, inr, Option, none, some, String, str_eq, eq_iff, Bool-cases,
}
use docklet.Net.IntervalPool.{IntervalPool}
use docklet.Net.EnumPool.{EnumPool}
use docklet.Net.UserPool.{UserPool}

-- "center", "system" and "users/" with the name
pub data Key : Type 0 where
  center_key system_key : Key
  user_key : String → Key

abbrev pub Stored : Key → Type 0
Stored center_key = IntervalPool
Stored system_key = EnumPool
Stored (user_key username) = UserPool

pub record Etcd (S : Type 0) : Type 0 where
  pub getkey : (k : Key) → S → Option (Stored k)
  pub setkey : (k : Key) → Stored k → S → S
  pub deldir : Key → S → S
  pub get_set : (k : Key) (v : Stored k) (s : S) → getkey k (setkey k v s) ≡ some v
  pub get_set_other :
      (k j : Key) (v : Stored k) (s : S) → k ≢ j → getkey j (setkey k v s) ≡ getkey j s
  pub get_del : (k : Key) (s : S) → getkey k (deldir k s) ≡ none
  pub get_del_other : (k j : Key) (s : S) → k ≢ j → getkey j (deldir k s) ≡ getkey j s

abbrev name_of : Key → String → String
name_of center_key other = other
name_of system_key other = other
name_of (user_key username) other = username

pub Key-cases : (k j : Key) → (k ≡ j) ⊎ (k ≢ j)
Key-cases center_key center_key = inl refl
Key-cases center_key system_key = inr (λ e. cc)
Key-cases center_key (user_key m) = inr (λ e. cc)
Key-cases system_key center_key = inr (λ e. cc)
Key-cases system_key system_key = inl refl
Key-cases system_key (user_key m) = inr (λ e. cc)
Key-cases (user_key n) center_key = inr (λ e. cc)
Key-cases (user_key n) system_key = inr (λ e. cc)
Key-cases (user_key n) (user_key m) = elim (Bool-cases (str_eq n m)) [
  | inl same ↦ inl (ap user_key ((eq_iff n m).0 same))
  | inr other ↦ inr (λ e. absurd (cc (other, (eq_iff n m).1 (cc e))))
]
