-- ===== src/Escrow/Resources/Totals.antt =====
-- No resource is lost or counted twice on the way from the workloads to the farmers.
use tfexplorer.Base.{
  ℕ, ◌%◌, ◌≡◌, refl, ap, sym, ◌∙◌, inl, inr, Bool, Option, some, List, [], ◌∷◌, arith, ◌==◌,
  Bool-cases, Option-cases,
}
use tfexplorer.Base.Int64.{add, modulus}
use tfexplorer.Base.Text.{Text, text_eq}
use tfexplorer.Models.Workloads.{ReservationData}
use tfexplorer.Escrow.Resources.{
  Floats, Rsu, PerNode, PerFarmer, add_at, add_node, add_farmer, add_all, add_rsu, no_rsu, per_node,
  per_farmer, process_reservation_resources, process_container, process_volume, process_zdb,
  process_kubernetes,
}

-- The int64 sum of `g` over the elements of a list.
pub sum_by : {A : Type 0} → (A → ℕ) → List A → ℕ
sum_by g [] = 0
sum_by g (x ∷ xs) = add (g x) (sum_by g xs)

-- The same over the values of a map.
pub total : {K V : Type 0} → (V → ℕ) → List (K × V) → ℕ
total g [] = 0
total g ((k, v) ∷ m) = add (g v) (total g m)

total-nil : (K : Type 0) {V : Type 0} (g : V → ℕ) → total {K = K} g [] ≡ 0
unfolding total
total-nil K g = refl

total_small : {K V : Type 0} (g : V → ℕ) (m : List (K × V)) → total g m % modulus ≡ total g m
unfolding total add
total_small g [] = refl
total_small g ((k, v) ∷ m) = omega arith

add-zero_total : {K V : Type 0} (g : V → ℕ) (m : List (K × V)) → add (total g m) 0 ≡ total g m
add-zero_total g m = unfold add in omega (arith, total_small g m)

add_assoc : (a b c : ℕ) → add (add a b) c ≡ add a (add b c)
unfolding add
add_assoc a b c = omega arith

module _ {K V : Type 0} (eq : K → K → Bool) (plus : V → V → V) (zero_value : V) (g : V → ℕ)
    (g-plus : (a b : V) → g (plus a b) ≡ add (g a) (g b)) (g-zero : g zero_value ≡ 0) where
  total-add_at :
      (k : K) (v : V) (m : List (K × V))
      → total g (add_at eq plus zero_value k v m) ≡ add (total g m) (g v)
  unfolding total add_at
  total-add_at k v [] = rw (g-plus, g-zero) (unfold add in omega arith)
  total-add_at k v ((j, u) ∷ m) = elim (Bool-cases (eq j k)) [
    | inl here ↦ rw (here, g-plus) (unfold add in omega arith)
    | inr there ↦ rw (there, total-add_at k v m) (unfold add in omega arith)
  ]

sum_by_small : {A : Type 0} (g : A → ℕ) (xs : List A) → sum_by g xs % modulus ≡ sum_by g xs
unfolding sum_by add
sum_by_small g [] = refl
sum_by_small g (x ∷ xs) = omega arith

zero-add-total : {K V : Type 0} (g : V → ℕ) (m : List (K × V)) → add 0 (total g m) ≡ total g m
zero-add-total g m = unfold add in omega (arith, total_small g m)

zero-add-sum_by : {A : Type 0} (g : A → ℕ) (xs : List A) → add 0 (sum_by g xs) ≡ sum_by g xs
zero-add-sum_by g xs = unfold add in omega (arith, sum_by_small g xs)

-- What the workloads of a reservation use.
pub used_by : (fl : Floats) (g : Rsu fl.Float → ℕ) → ReservationData → ℕ
used_by fl g d =
    add
      (add
        (add (sum_by (λ cont. g (process_container fl cont)) d.containers)
          (sum_by (λ vol. g (process_volume fl vol)) d.volumes))
        (sum_by (λ zdb. g (process_zdb fl zdb)) d.zdbs))
      (sum_by (λ k8s. g (process_kubernetes fl k8s)) d.kubernetes)

module _ (fl : Floats) (g : Rsu fl.Float → ℕ)
    (g-plus : (a b : Rsu fl.Float) → g (add_rsu fl a b) ≡ add (g a) (g b))
    (g-zero : g (no_rsu fl) ≡ 0) where
  total-add_node :
      (k : Text) (v : Rsu fl.Float) (m : PerNode fl)
      → total g (add_node fl k v m) ≡ add (total g m) (g v)
  unfolding add_node
  total-add_node k v m = total-add_at text_eq (add_rsu fl) (no_rsu fl) g g-plus g-zero k v m

  total-add_farmer :
      (k : ℕ) (v : Rsu fl.Float) (m : PerFarmer fl)
      → total g (add_farmer fl k v m) ≡ add (total g m) (g v)
  unfolding add_farmer
  total-add_farmer k v m = total-add_at ◌==◌ (add_rsu fl) (no_rsu fl) g g-plus g-zero k v m

  total-add_all :
      {A : Type 0} (used : A → Text × Rsu fl.Float) (ws : List A) (m : PerNode fl)
      → total g (add_all fl used ws m) ≡ add (total g m) (sum_by (λ w. g (used w).1) ws)
  unfolding add_all sum_by
  total-add_all used [] m = sym (add-zero_total g m)
  total-add_all used (w ∷ ws) m =
      total-add_all used ws (add_node fl (used w).0 (used w).1 m)
      ∙ ap (λ t. add t (sum_by (λ w. g (used w).1) ws)) (total-add_node (used w).0 (used w).1 m)
      ∙ add_assoc (total g m) (g (used w).1) _

  total-per_farmer :
      (farm_of : Text → Option ℕ) (nodes : PerNode fl) (m m' : PerFarmer fl)
      → per_farmer fl farm_of nodes m ≡ some m'
      → total g m' ≡ add (total g m) (total g nodes)
  unfolding per_farmer total
  total-per_farmer farm_of [] m m' h = cc (h, add-zero_total g m)
  total-per_farmer farm_of ((node, r) ∷ rest) m m' h = elim (Option-cases (farm_of node)) [
    | inl fails ↦ ground arith
    | inr (farm, found) ↦
        total-per_farmer farm_of rest (add_farmer fl farm r m) m' (rw (found, per_farmer) at h)
        ∙ ap (λ t. add t (total g rest)) (total-add_farmer farm r m)
        ∙ add_assoc (total g m) (g r) (total g rest)
  ]

  total-per_node : (d : ReservationData) → total g (per_node fl d) ≡ used_by fl g d
  unfolding per_node used_by
  total-per_node d =
      rw (total-add_all (λ k8s. (k8s.node_id, process_kubernetes fl k8s)) d.kubernetes _) (
        rw (total-add_all (λ zdb. (zdb.node_id, process_zdb fl zdb)) d.zdbs _) (
          rw (total-add_all (λ vol. (vol.node_id, process_volume fl vol)) d.volumes _) (
            rw
              (
                total-add_all (λ cont. (cont.node_id, process_container fl cont)) d.containers _,
                total-nil Text g,
              )
              (rw (zero-add-sum_by (λ cont. g (process_container fl cont)) d.containers)))))

  total-process_reservation_resources :
      (farm_of : Text → Option ℕ) (d : ReservationData) (m : PerFarmer fl)
      → process_reservation_resources fl farm_of d ≡ some m
      → total g m ≡ used_by fl g d
  unfolding process_reservation_resources
  total-process_reservation_resources farm_of d m h =
      total-per_farmer farm_of (per_node fl d) [] m h
      ∙ ap (λ t. add t (total g (per_node fl d))) (total-nil ℕ g)
      ∙ zero-add-total g (per_node fl d)
      ∙ total-per_node d

-- If every node is found, the compute, SSD and HDD units over the farmers are those of all the
-- containers, volumes, 0-DBs and Kubernetes nodes of the reservation, each counted once (as int64
-- sums).
pub resources_total :
    (fl : Floats) (farm_of : Text → Option ℕ) (d : ReservationData) (m : PerFarmer fl)
    → process_reservation_resources fl farm_of d ≡ some m
    → (total (λ r. r.cru) m ≡ used_by fl (λ r. r.cru) d)
      × (total (λ r. r.sru) m ≡ used_by fl (λ r. r.sru) d)
      × (total (λ r. r.hru) m ≡ used_by fl (λ r. r.hru) d)
unfolding add_rsu
resources_total fl farm_of d m h = (
  total-process_reservation_resources fl (λ r. r.cru) (λ a b. refl) refl farm_of d m h,
  total-process_reservation_resources fl (λ r. r.sru) (λ a b. refl) refl farm_of d m h,
  total-process_reservation_resources fl (λ r. r.hru) (λ a b. refl) refl farm_of d m h,
)
