-- ===== src/Reservation/Workloads.antt =====
-- Reservation.Workloads of pkg/workloads/types/reservation.go: the workloads of a reservation, of
-- one node or of all.
pub mod Filter
use tfexplorer.Base.{
  ℕ, ◌-◌, ◌/◌, ◌%◌, Bool, ◌&&◌, ◌||◌, not, List, [], ◌∷◌, ◌++◌, map, leb, if◌then◌else◌,
}
use tfexplorer.Base.Int64.{quot}
use tfexplorer.Base.Time.{sub_time, second}
use tfexplorer.Base.Text.{Text, text_eq, is_empty}
use tfexplorer.Base.Decimal.{format_int}
use tfexplorer.Models.Workloads.{
  WorkloadType, zdb, container, volume, network, kubernetes, proxy, reverse_proxy, sub_domain,
  domain_delegate, gateway4_to6, Container, Volume, Zdb, Network, NetworkNetResource, K8s,
  GatewayProxy, GatewayReserveProxy, GatewaySubdomain, GatewayDelegate, Gateway4To6,
  ReservationData, Reservation, delete, deleted, action_eq,
}

-- The interface{} of ReservationWorkload.
pub data Content : Type 0 where
  of_container : Container → Content
  of_volume : Volume → Content
  of_zdb : Zdb → Content
  of_network : Network → Content
  of_kubernetes : K8s → Content
  of_proxy : GatewayProxy → Content
  of_reserve_proxy : GatewayReserveProxy → Content
  of_subdomain : GatewaySubdomain → Content
  of_delegate : GatewayDelegate → Content
  of_gateway4_to6 : Gateway4To6 → Content

-- types.Workload with its inline ReservationWorkload.
pub record Workload : Type 0 where
  pub workload_id : Text
  pub user : Text
  pub kind : WorkloadType
  pub content : Content
  pub created : ℕ
  pub duration : ℕ
  pub signature : Text
  pub to_delete : Bool
  pub node_id : Text

-- fmt.Sprintf("%d-%d", r.ID, wl.WorkloadId)
unfoldable pub workload_key : ℕ → ℕ → Text
workload_key reservation workload = format_int reservation ++ b'-' ∷ format_int workload

-- int64(a.Sub(b).Seconds()): the conversion truncates towards 0. Stored dates have at most
-- milliseconds, which float64 seconds hold apart.
unfoldable pub whole_seconds : ℕ → ℕ → ℕ
whole_seconds a b = quot (sub_time a b) second

-- The literal that `newWrkl` fills in, and its content.
new_workload : Reservation → Text → WorkloadType → Text → Content → Workload
unfolding whole_seconds
new_workload r key kind node_id content = record {
  workload_id = key;
  user = format_int r.customer_tid;
  kind = kind;
  content = content;
  created = r.epoch;
  duration = whole_seconds r.data_reservation.expiration_reservation r.epoch;
  signature = [];
  to_delete = action_eq r.next_action delete || action_eq r.next_action deleted;
  node_id = node_id;
}

-- The `continue` of each loop: a node is asked for, and this is another.
abbrev pub is_elsewhere : Text → Text → Bool
is_elsewhere wanted node_id = not (is_empty wanted) && not (text_eq node_id wanted)

-- What a loop reads of the workload that it stands at.
pub record Listed : Type 0 where
  pub kind : WorkloadType
  pub workload_id : ℕ
  pub node_id : Text
  pub content : Content

abbrev pub item : WorkloadType → ℕ → Text → Content → Listed
item k w n c = record { kind = k; workload_id = w; node_id = n; content = c }

-- One workload for each resource of a network.
unfoldable pub network_items : List Network → List Listed
network_items [] = []
network_items (wl ∷ wls) =
    map (λ (nr : NetworkNetResource). item network wl.workload_id nr.node_id (of_network wl))
      wl.network_resources
    ++ network_items wls

-- The workloads in the order of the loops.
unfoldable pub items : ReservationData → List Listed
unfolding network_items
items d =
    map (λ (wl : Container). item container wl.workload_id wl.node_id (of_container wl))
      d.containers
    ++ map (λ (wl : Volume). item volume wl.workload_id wl.node_id (of_volume wl)) d.volumes
    ++ map (λ (wl : Zdb). item zdb wl.workload_id wl.node_id (of_zdb wl)) d.zdbs
    ++ map (λ (wl : K8s). item kubernetes wl.workload_id wl.node_id (of_kubernetes wl)) d.kubernetes
    ++ map (λ (wl : GatewayProxy). item proxy wl.workload_id wl.node_id (of_proxy wl)) d.proxies
    ++ map
        (λ (wl : GatewayReserveProxy).
          item reverse_proxy wl.workload_id wl.node_id (of_reserve_proxy wl))
        d.reserve_proxy
    ++ map (λ (wl : GatewaySubdomain). item sub_domain wl.workload_id wl.node_id (of_subdomain wl))
        d.subdomains
    ++ map
        (λ (wl : GatewayDelegate). item domain_delegate wl.workload_id wl.node_id (of_delegate wl))
        d.domain_delegates
    ++ map (λ (wl : Gateway4To6). item gateway4_to6 wl.workload_id wl.node_id (of_gateway4_to6 wl))
        d.gateway4_to6s
    ++ network_items d.networks

-- The body of the loops, over all the workloads: `len(nodeID) > 0 && wl.NodeId != nodeID` skips.
unfoldable pub collect : Reservation → Text → List Listed → List Workload
unfolding new_workload workload_key
collect r wanted [] = []
collect r wanted (wl ∷ wls) =
    let rest = collect r wanted wls in
    if is_elsewhere wanted wl.node_id
    then rest
    else new_workload r (workload_key r.id wl.workload_id) wl.kind wl.node_id wl.content ∷ rest

unfoldable pub workloads : Reservation → Text → List Workload
unfolding collect items
workloads r wanted = collect r wanted (items r.data_reservation)
