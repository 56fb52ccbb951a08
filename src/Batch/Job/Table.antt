-- ===== src/Batch/Job/Table.antt =====
-- The dictionary of a job's tasks, as an association list.
use docklet.Common.{
  ◌≡◌, Option, none, some, List, [], ◌∷◌, if◌then◌else◌, String, str_eq, eq_iff, arith,
}

module _ {ℓ} {V : Type ℓ} where
  unfoldable pub find : String → List (String × V) → Option V
  find k [] = none
  find k ((j, v) ∷ m) = if str_eq j k then some v else find k m

  -- A write under a key that is there.
  unfoldable pub alter : String → (V → V) → List (String × V) → List (String × V)
  alter k f [] = []
  alter k f ((j, v) ∷ m) = if str_eq j k then (j, f v) ∷ m else (j, v) ∷ alter k f m

  abbrev pub fmap : (V → V) → Option V → Option V
  fmap f none = none
  fmap f (some v) = some (f v)

  pub find-alter :
      (k j : String) (f : V → V) (m : List (String × V))
      → find j (alter k f m) ≡ (if str_eq k j then fmap f (find j m) else find j m)
  unfolding find alter
  find-alter k j f [] = ground arith
  find-alter k j f ((i, v) ∷ m) =
      ground (arith, eq_iff k j, eq_iff i k, eq_iff i j, find-alter k j f m)
