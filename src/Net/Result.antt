-- ===== src/Net/Result.antt =====
-- What the pools' methods return: `[True, value]`, `[False, message]`, or a Python exception.
use docklet.Common.{◌≡◌, refl, ◌⊎◌, inl, inr}

-- `endless` stands for a loop that has not ended within the fuel it was given.
pub data Fault : Type 0 where
  value_error key_error index_error endless : Fault

-- `failed` is an exception that was caught, with its text as the message.
pub data Refusal : Type 0 where
  not_enough not_in_range overlaps cidr_not_in_pool bad_release user_exists no_user : Refusal
  failed : Fault → Refusal

pub data Result {ℓ} (A : Type ℓ) : Type ℓ where
  ok : A → Result A
  refused : Refusal → Result A
  raises : Fault → Result A

pub ok-injective {ℓ} : {A : Type ℓ} {a b : A} → ok a ≡ ok b → a ≡ b
ok-injective e = cc

pub Result-cases {ℓ} :
    {A : Type ℓ} (r : Result A)
    → ((a : A) × (r ≡ ok a)) ⊎ (((e : Refusal) × (r ≡ refused e)) ⊎ ((e : Fault) × (r ≡ raises e)))
Result-cases (ok a) = inl (a, refl)
Result-cases (refused e) = inr (inl (e, refl))
Result-cases (raises e) = inr (inr (e, refl))
