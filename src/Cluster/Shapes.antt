-- ===== src/Cluster/Shapes.antt =====
-- The rows of src/utils/model.py, seen as the registry sees them: get_vcluster, is_cluster and the
-- changes of rows in src/master/vclustermgr.py.
use docklet.Common.{
  ◌≡◌, refl, false, none, some, List, [], ◌∷◌, ◌++◌, map, String, str_eq, eq_iff, some_inj,
  contains, Bool-cases, inl, inr,
}
use docklet.Cluster.Rows.{
  VCluster, is_named, get_vcluster, change, delete, list_clusters, is_cluster, Name, Container,
  same_name, without,
}
use docklet.Cluster.Registry.{Shape, find, on, remove, except}
use docklet.Cluster.Quiet.{shape}

pub str_eq_sym : (a b : String) → str_eq a b ≡ str_eq b a
str_eq_sym a b = elim (Bool-cases (str_eq a b)) [
  | inl p ↦ let q : a ≡ b = (eq_iff a b).0 p in rw q refl
  | inr p ↦ elim (Bool-cases (str_eq b a)) [
    | inl p' ↦ let q : b ≡ a = (eq_iff b a).0 p' in rw q refl
    | inr p' ↦ rw (p, p') refl
  ]
]

module _ (n u : String) where
  pub find-get_vcluster :
      (v : VCluster) (rows : List VCluster)
      → get_vcluster n u rows ≡ some v
      → find n u (map shape rows) ≡ some (shape v)
  unfolding get_vcluster find
  find-get_vcluster v [] e = cc
  find-get_vcluster v (c ∷ l) e = elim (Bool-cases (is_named n u c)) [
    | inl p ↦ let q : c ≡ v = some_inj (rw p at e) in rw p (rw q refl)
    | inr p ↦ rw p (find-get_vcluster v l (rw p at e))
  ]

  pub map-change :
      (f : VCluster → VCluster) (g : Shape → Shape) (rows : List VCluster)
      → ((v : VCluster) → shape (f v) ≡ g (shape v))
      → map shape (change n u f rows) ≡ on n u g (map shape rows)
  unfolding change on
  map-change f g [] e = refl
  map-change f g (c ∷ l) e = elim (Bool-cases (is_named n u c)) [
    | inl p ↦ rw p (rw (e c) refl)
    | inr p ↦ rw p (rw (map-change f g l e) refl)
  ]

  pub map-change_same :
      (f : VCluster → VCluster) (rows : List VCluster)
      → ((v : VCluster) → shape (f v) ≡ shape v)
      → map shape (change n u f rows) ≡ map shape rows
  unfolding change
  map-change_same f [] e = refl
  map-change_same f (c ∷ l) e = elim (Bool-cases (is_named n u c)) [
    | inl p ↦ rw p (rw (e c) refl)
    | inr p ↦ rw p (rw (map-change_same f l e) refl)
  ]

  pub map-delete :
      (rows : List VCluster) → map shape (delete n u rows) ≡ remove n u (map shape rows)
  unfolding delete remove
  map-delete [] = refl
  map-delete (c ∷ l) = elim (Bool-cases (is_named n u c)) [
    | inl p ↦ rw p refl
    | inr p ↦ rw p (rw (map-delete l) refl)
  ]

  pub find-is_cluster :
      (rows : List VCluster) → is_cluster n u rows ≡ false → find n u (map shape rows) ≡ none
  unfolding is_cluster list_clusters contains find
  find-is_cluster [] e = refl
  find-is_cluster (c ∷ l) e = elim (Bool-cases (str_eq c.ownername u)) [
    | inr p ↦ rw p (find-is_cluster l (rw (p, list_clusters, is_cluster) at e))
    | inl p ↦ elim (Bool-cases (str_eq c.clustername n)) [
      | inl q ↦ absurd (cc (rw (p, str_eq_sym n c.clustername, q, list_clusters, contains) at e))
      | inr q ↦
          rw (p, q)
            (find-is_cluster l
              (rw (p, str_eq_sym n c.clustername, q, list_clusters, contains) at e))
    ]
  ]

pub map-without :
    (x : Name) (l : List Container)
    → map (λ (c : Container). c.containername) (without x l)
      ≡ except x (map (λ (c : Container). c.containername) l)
unfolding without except
map-without x [] = refl
map-without x (c ∷ l) = elim (Bool-cases (same_name c.containername x)) [
  | inl p ↦ rw p (map-without x l)
  | inr p ↦ rw p (rw (map-without x l) refl)
]

pub map-append {ℓ κ} :
    {A : Type ℓ} {B : Type κ} (f : A → B) (l m : List A) → map f (l ++ m) ≡ map f l ++ map f m
map-append f [] m = refl
map-append f (x ∷ l) m = rw (map-append f l m) refl
