-- ===== src/Cluster/Valid.antt =====
-- The numbering of clusters and containers by src/master/vclustermgr.py, and the names of clusters.
use docklet.Common.{
  ℕ, ◌<◌, ◌≡◌, ◌≢◌, refl, sym, subst, false, none, some, some_inj, List, [], ◌∷◌, ◌++◌, All,
  All-append, String, str_eq, eq_iff, Bool-cases, inl, inr,
}
use docklet.Cluster.Rows.{Name}
use docklet.Cluster.Shapes.{str_eq_sym}
use docklet.Cluster.Registry.{Shape, Registry, names_it, find, on, remove}

-- No two items have the same number.
abbrev pub Distinct : {A : Type 0} → (A → ℕ) → List A → Type 0
Distinct f [] = Unit
Distinct f (x ∷ l) = All (λ y. f x ≢ f y) l × Distinct f l

abbrev pub Belongs : Shape → Name → Type 0
Belongs c x = (x.username ≡ c.ownername) × (x.clusterid ≡ c.clusterid) × (x.cid < c.nextcid)

-- A cluster's containers carry its owner and its number, and numbers of their own below the next one.
pub record IsNumbered (c : Shape) : Type 0 where
  pub belongs : All (Belongs c) c.names
  pub distinct : Distinct Name.cid c.names

-- No two clusters of a user have the same name.
abbrev pub Unique : List Shape → Type 0
Unique [] = Unit
Unique (c ∷ l) = (find c.clustername c.ownername l ≡ none) × Unique l

abbrev pub Below : ℕ → Shape → Type 0
Below k c = (c.clusterid < k) × IsNumbered c

pub record IsValid (r : Registry) : Type 0 where
  pub below : All (Below r.nextid) r.clusters
  pub apart : Distinct Shape.clusterid r.clusters
  pub unique : Unique r.clusters

module _ {A : Type 0} where
  pub All-weaken : {P Q : A → Type 0} (l : List A) → ((x : A) → P x → Q x) → All P l → All Q l
  All-weaken [] h a = tt
  All-weaken (x ∷ l) h a = (h x a.0, All-weaken l h a.1)

  pub Distinct-snoc :
      (f : A → ℕ) (l : List A) (x : A)
      → All (λ y. f y ≢ f x) l
      → Distinct f l
      → Distinct f (l ++ x ∷ [])
  Distinct-snoc f [] x a d = (tt, tt)
  Distinct-snoc f (y ∷ l) x a d =
      (All-append (λ z. f y ≢ f z) l (x ∷ []) d.0 (a.0, tt), Distinct-snoc f l x a.1 d.1)

module _ (n u : String) where
  pub find-owner : (l : List Shape) (c : Shape) → find n u l ≡ some c → u ≡ c.ownername
  unfolding find
  find-owner [] c e = cc
  find-owner (x ∷ l) c e = elim (Bool-cases (names_it n u x)) [
    | inr p ↦ find-owner l c (rw p at e)
    | inl p ↦
        let q : x ≡ c = some_inj (rw p at e) in
        elim (Bool-cases (str_eq x.ownername u)) [
          | inl s ↦ let t : x.ownername ≡ u = (eq_iff x.ownername u).0 s in rw (sym q) (sym t)
          | inr s ↦ absurd (cc (rw s at p))
        ]
  ]

  module _ (P : Shape → Type 0) where
    pub All-find : (l : List Shape) (c : Shape) → find n u l ≡ some c → All P l → P c
    unfolding find
    All-find [] c e a = cc
    All-find (x ∷ l) c e a = elim (Bool-cases (names_it n u x)) [
      | inr p ↦ All-find l c (rw p at e) a.1
      | inl p ↦ subst P (some_inj (rw p at e)) a.0
    ]

    pub All-on :
        (f : Shape → Shape) (l : List Shape) (c : Shape)
        → find n u l ≡ some c
        → P (f c)
        → All P l
        → All P (on n u f l)
    unfolding find on
    All-on f [] c e b a = tt
    All-on f (x ∷ l) c e b a = elim (Bool-cases (names_it n u x)) [
      | inr p ↦ rw p (a.0, All-on f l c (rw p at e) b a.1)
      | inl p ↦ rw p (subst (λ y. P (f y)) (sym (some_inj (rw p at e))) b, a.1)
    ]

    pub All-on_each :
        (f : Shape → Shape) (l : List Shape)
        → ((x : Shape) → P x → P (f x))
        → All P l
        → All P (on n u f l)
    unfolding on
    All-on_each f [] h a = tt
    All-on_each f (x ∷ l) h a = elim (Bool-cases (names_it n u x)) [
      | inr p ↦ rw p (a.0, All-on_each f l h a.1)
      | inl p ↦ rw p (h x a.0, a.1)
    ]

    pub All-remove : (l : List Shape) → All P l → All P (remove n u l)
    unfolding remove
    All-remove [] a = tt
    All-remove (x ∷ l) a = elim (Bool-cases (names_it n u x)) [
      | inr p ↦ rw p (a.0, All-remove l a.1)
      | inl p ↦ rw p a.1
    ]

  -- A change of a row keeps the numbers of clusters apart.
  pub Distinct-on :
      (f : Shape → Shape) (l : List Shape)
      → ((x : Shape) → (f x).clusterid ≡ x.clusterid)
      → Distinct Shape.clusterid l
      → Distinct Shape.clusterid (on n u f l)
  unfolding on
  Distinct-on f [] h d = tt
  Distinct-on f (x ∷ l) h d = elim (Bool-cases (names_it n u x)) [
    | inr p ↦ rw p (
      All-on_each (λ (y : Shape). x.clusterid ≢ y.clusterid) f l (λ y q. rw (h y) q) d.0,
      Distinct-on f l h d.1,
    )
    | inl p ↦ rw p (rw (h x) d.0, d.1)
  ]

  pub Distinct-remove :
      (l : List Shape) → Distinct Shape.clusterid l → Distinct Shape.clusterid (remove n u l)
  unfolding remove
  Distinct-remove [] d = tt
  Distinct-remove (x ∷ l) d = elim (Bool-cases (names_it n u x)) [
    | inr p ↦
        rw p (All-remove (λ (y : Shape). x.clusterid ≢ y.clusterid) l d.0, Distinct-remove l d.1)
    | inl p ↦ rw p d.1
  ]

  module _ (n' u' : String) where
    find-on_other :
        (f : Shape → Shape) (l : List Shape)
        → ((x : Shape) → names_it n' u' (f x) ≡ names_it n' u' x)
        → find n' u' l ≡ none
        → find n' u' (on n u f l) ≡ none
    unfolding find on
    find-on_other f [] h e = refl
    find-on_other f (x ∷ l) h e = elim (Bool-cases (names_it n' u' x)) [
      | inl s ↦ absurd (cc (rw s at e))
      | inr s ↦ elim (Bool-cases (names_it n u x)) [
        | inr p ↦ rw (p, s) (find-on_other f l h (rw s at e))
        | inl p ↦ rw (p, h x, s) (rw s at e)
      ]
    ]

    find-remove_other : (l : List Shape) → find n' u' l ≡ none → find n' u' (remove n u l) ≡ none
    unfolding find remove
    find-remove_other [] e = refl
    find-remove_other (x ∷ l) e = elim (Bool-cases (names_it n' u' x)) [
      | inl s ↦ absurd (cc (rw s at e))
      | inr s ↦ elim (Bool-cases (names_it n u x)) [
        | inr p ↦ rw (p, s) (find-remove_other l (rw s at e))
        | inl p ↦ rw p (rw s at e)
      ]
    ]

  pub Unique-on :
      (f : Shape → Shape) (l : List Shape)
      → ((x : Shape) → (f x).clustername ≡ x.clustername)
      → ((x : Shape) → (f x).ownername ≡ x.ownername)
      → Unique l
      → Unique (on n u f l)
  unfolding on
  Unique-on f [] h k a = tt
  Unique-on f (x ∷ l) h k a = elim (Bool-cases (names_it n u x)) [
    | inl p ↦ rw p (rw (h x, k x) a.0, a.1)
    | inr p ↦ rw p (
      find-on_other x.clustername x.ownername f l (λ y. rw (h y, k y) refl) a.0,
      Unique-on f l h k a.1,
    )
  ]

  pub Unique-remove : (l : List Shape) → Unique l → Unique (remove n u l)
  unfolding remove
  Unique-remove [] a = tt
  Unique-remove (x ∷ l) a = elim (Bool-cases (names_it n u x)) [
    | inl p ↦ rw p a.1
    | inr p ↦ rw p (find-remove_other x.clustername x.ownername l a.0, Unique-remove l a.1)
  ]

find-snoc_other :
    (n u : String) (c : Shape) (l : List Shape)
    → find n u l ≡ none
    → names_it n u c ≡ false
    → find n u (l ++ c ∷ []) ≡ none
unfolding find
find-snoc_other n u c [] e h = rw h refl
find-snoc_other n u c (x ∷ l) e h = elim (Bool-cases (names_it n u x)) [
  | inl p ↦ absurd (cc (rw p at e))
  | inr p ↦ rw p (find-snoc_other n u c l (rw p at e) h)
]

names_it_sym :
    (x c : Shape)
    → names_it c.clustername c.ownername x ≡ false
    → names_it x.clustername x.ownername c ≡ false
names_it_sym x c e =
    rw (str_eq_sym c.ownername x.ownername, str_eq_sym c.clustername x.clustername) e

pub Unique-snoc :
    (l : List Shape) (c : Shape)
    → find c.clustername c.ownername l ≡ none
    → Unique l
    → Unique (l ++ c ∷ [])
unfolding find
Unique-snoc [] c e a = (refl, tt)
Unique-snoc (x ∷ l) c e a = elim (Bool-cases (names_it c.clustername c.ownername x)) [
  | inl p ↦ absurd (cc (rw p at e))
  | inr p ↦ (
    find-snoc_other x.clustername x.ownername c l a.0 (names_it_sym x c p),
    Unique-snoc l c (rw p at e) a.1,
  )
]
