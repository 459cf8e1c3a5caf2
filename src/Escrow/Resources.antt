-- ===== src/Escrow/Resources.antt =====
-- pkg/escrow/resource.go: the resources that a reservation uses, and what they cost.
pub mod Totals
use tfexplorer.Base.{ℕ, ◌*◌, Bool, Option, none, some, List, [], ◌∷◌, ◌==◌, if◌then◌else◌}
use tfexplorer.Base.Int64.{add, sle}
use tfexplorer.Base.Time.{day}
use tfexplorer.Base.Text.{Text, text_eq}
use tfexplorer.Models.Workloads.{
  Container, Volume, Zdb, K8s, ReservationData, DiskType, hdd, ssd, unknown_disk,
}

-- float64 and big.Float, the functions of math, and amount.Parse of the Stellar SDK on the text of
-- a big.Float. `decimal m k` is the literal m / 10 ^ k.
pub record Floats : Type 1 where
  pub Float : Type 0
  pub decimal : ℕ → ℕ → Float
  pub of_int : ℕ → Float
  pub plus : Float → Float → Float
  pub times : Float → Float → Float
  pub divide : Float → Float → Float
  pub smaller : Float → Float → Float
  pub round : Float → Float
  pub ceil : Float → Float
  pub hours : ℕ → Float
  pub BigFloat : Type 0
  pub big : Float → BigFloat
  pub big_plus : BigFloat → BigFloat → BigFloat
  pub big_times : BigFloat → BigFloat → BigFloat
  pub parse_amount : BigFloat → Option ℕ

-- A Go map, in the order of insertion. Go leaves the order of iteration open.
module _ {K V : Type 0} (eq : K → K → Bool) where
  -- m[k] = m[k].add(v), where a missing entry reads as the zero value
  unfoldable pub add_at : (V → V → V) → V → K → V → List (K × V) → List (K × V)
  add_at plus zero_value k v [] = (k, plus zero_value v) ∷ []
  add_at plus zero_value k v ((j, u) ∷ m) =
      if eq j k then (j, plus u v) ∷ m else (j, u) ∷ add_at plus zero_value k v m

abbrev week : ℕ
week = 7 * day

abbrev month : ℕ
month = 30 * day

pub record Rsu (F : Type 0) : Type 0 where
  pub cru : ℕ
  pub sru : ℕ
  pub hru : ℕ
  pub mru : F

pub record CloudUnits (F : Type 0) : Type 0 where
  pub cu : F
  pub su : F

module _ (fl : Floats) where
  open fl use {
    Float, decimal, of_int, plus, times, divide, smaller, round, ceil, hours, BigFloat, big,
    big_plus, big_times, parse_amount,
  }

  abbrev pub no_rsu : Rsu Float
  no_rsu = record { cru = 0; sru = 0; hru = 0; mru = decimal 0 0 }

  -- rsu.add
  unfoldable pub add_rsu : Rsu Float → Rsu Float → Rsu Float
  add_rsu r other = record {
    cru = add r.cru other.cru;
    sru = add r.sru other.sru;
    hru = add r.hru other.hru;
    mru = plus r.mru other.mru;
  }

  unfoldable pub process_container : Container → Rsu Float
  process_container cont = record no_rsu {
    cru = cont.capacity.cpu;
    mru =
        divide
          (round (times (divide (of_int cont.capacity.memory) (decimal 1024 0)) (decimal 10000 0)))
          (decimal 10000 0);
  }

  of_disk : DiskType → ℕ → Rsu Float
  of_disk hdd size = record no_rsu { hru = size }
  of_disk ssd size = record no_rsu { sru = size }
  of_disk (unknown_disk n) size = no_rsu

  unfoldable pub process_volume : Volume → Rsu Float
  unfolding of_disk
  process_volume vol = of_disk vol.kind vol.size

  unfoldable pub process_zdb : Zdb → Rsu Float
  unfolding of_disk
  process_zdb zdb = of_disk zdb.disk_type zdb.size

  unfoldable pub process_kubernetes : K8s → Rsu Float
  process_kubernetes k8s =
      if k8s.size == 1
      then record no_rsu { cru = 1; mru = decimal 2 0; sru = 50 }
      else if k8s.size == 2
      then record no_rsu { cru = 2; mru = decimal 4 0; sru = 100 }
      else no_rsu

  abbrev pub PerNode : Type 0
  PerNode = List (Text × Rsu Float)

  abbrev pub PerFarmer : Type 0
  PerFarmer = List (ℕ × Rsu Float)

  unfoldable pub add_node : Text → Rsu Float → PerNode → PerNode
  unfolding add_at add_rsu
  add_node = add_at text_eq add_rsu no_rsu

  unfoldable pub add_farmer : ℕ → Rsu Float → PerFarmer → PerFarmer
  unfolding add_at add_rsu
  add_farmer = add_at ◌==◌ add_rsu no_rsu

  -- One of the four loops of processReservationResources: `used` gives the node and its resources.
  unfoldable pub add_all : {A : Type 0} → (A → Text × Rsu Float) → List A → PerNode → PerNode
  unfolding add_node
  add_all used [] m = m
  add_all used (w ∷ ws) m = add_all used ws (add_node (used w).0 (used w).1 m)

  unfoldable pub per_node : ReservationData → PerNode
  unfolding add_all process_container process_volume process_zdb process_kubernetes
  per_node d =
      add_all (λ k8s. (k8s.node_id, process_kubernetes k8s)) d.kubernetes
        (add_all (λ zdb. (zdb.node_id, process_zdb zdb)) d.zdbs
          (add_all (λ vol. (vol.node_id, process_volume vol)) d.volumes
            (add_all (λ cont. (cont.node_id, process_container cont)) d.containers [])))

  -- The loop over the nodes: `farm_of` loads a node from the database and gives its farm.
  unfoldable pub per_farmer : (Text → Option ℕ) → PerNode → PerFarmer → Option PerFarmer
  unfolding add_farmer
  per_farmer farm_of [] m = some m
  per_farmer farm_of ((node, rsu) ∷ rest) m = elim (farm_of node) [
    | none ↦ none
    | some farm ↦ per_farmer farm_of rest (add_farmer farm rsu m)
  ]

  -- Stellar.processReservationResources; `none` is an error of the database.
  unfoldable pub process_reservation_resources :
      (Text → Option ℕ) → ReservationData → Option PerFarmer
  unfolding per_node per_farmer
  process_reservation_resources farm_of d = per_farmer farm_of (per_node d) []

  -- rsuToCu
  unfoldable pub rsu_to_cu : Rsu Float → CloudUnits Float
  rsu_to_cu r = record {
    cu =
        divide
          (round (
            times
              (smaller (times (divide r.mru (decimal 4 0)) (decimal 95 2))
                (times (of_int r.cru) (decimal 2 0)))
              (decimal 1000 0)))
          (decimal 1000 0);
    su =
        divide
          (round (
            times
              (plus (divide (of_int r.hru) (decimal 1093 0)) (divide (of_int r.sru) (decimal 91 0)))
              (decimal 1000 0)))
          (decimal 1000 0);
  }

  -- getDiscount: the constants 1 - 0.70, 1 - 0.60, 1 - 0.50 and 1 - 0.25 are exact in Go.
  unfoldable pub get_discount : ℕ → Float
  get_discount d =
      if sle (12 * month) d
      then decimal 30 2
      else if sle (6 * month) d
      then decimal 40 2
      else if sle month d
      then decimal 50 2
      else if sle week d
      then decimal 75 2
      else decimal 1 0

  -- The cost of one farmer's cloud units: the loop body of calculateReservationCost.
  unfoldable pub farmer_cost : ℕ → CloudUnits Float → Option ℕ
  unfolding get_discount
  farmer_cost duration cu =
      let per_hour : BigFloat =
        big_plus (big_times (big (decimal 266 3)) (big cu.cu))
          (big_times (big (decimal 200 3)) (big cu.su)) in
      let plain : BigFloat = big_times per_hour (big (ceil (hours duration))) in
      parse_amount (big_times plain (big (get_discount duration)))

  -- Stellar.calculateReservationCost; `none` is the error of a cost that cannot be parsed.
  unfoldable pub calculate_reservation_cost : PerFarmer → ℕ → Option (List (ℕ × ℕ))
  unfolding rsu_to_cu farmer_cost
  calculate_reservation_cost [] duration = some []
  calculate_reservation_cost ((farmer, rsu) ∷ rest) duration =
      elim (farmer_cost duration (rsu_to_cu rsu)) [
        | none ↦ none
        | some cost ↦ elim (calculate_reservation_cost rest duration) [
          | none ↦ none
          | some costs ↦ some ((farmer, cost) ∷ costs)
        ]
      ]
