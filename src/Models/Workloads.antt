-- ===== src/Models/Workloads.antt =====
-- models/generated/workloads: the documents of a reservation. An int64 is its 64-bit pattern
-- (Base.Int64), a string is a Text, a schema.Date counts nanoseconds from Go's zero time, a net.IP
-- is its bytes, and a uint8 enumeration has a constructor for each named value and one for the
-- rest, which decoding a request can produce.
use tfexplorer.Base.{ℕ, Bool, List, ◌==◌}
use tfexplorer.Base.Text.{Text}

pub data NextAction : Type 0 where
  create sign pay deploy delete invalid deleted : NextAction
  unknown_action : ℕ → NextAction

pub data ResultState : Type 0 where
  error_state ok_state deleted_state : ResultState
  unknown_state : ℕ → ResultState

pub data WorkloadType : Type 0 where
  zdb container volume network kubernetes proxy reverse_proxy sub_domain : WorkloadType
  domain_delegate gateway4_to6 : WorkloadType
  unknown_workload : ℕ → WorkloadType

-- VolumeTypeEnum and DiskTypeEnum
pub data DiskType : Type 0 where
  hdd ssd : DiskType
  unknown_disk : ℕ → DiskType

pub data ZdbMode : Type 0 where
  seq_mode user_mode : ZdbMode
  unknown_mode : ℕ → ZdbMode

-- schema.IPRange
pub record IpRange : Type 0 where
  pub ip : List ℕ
  pub mask : List ℕ

pub record SigningRequest : Type 0 where
  pub signers : List ℕ
  pub quorum_min : ℕ

pub record SigningSignature : Type 0 where
  pub tid : ℕ
  pub signature : Text
  pub epoch : ℕ

pub record Result : Type 0 where
  pub category : WorkloadType
  pub workload_id : Text
  pub data_json : Text
  pub signature : Text
  pub state : ResultState
  pub message : Text
  pub epoch : ℕ
  pub node_id : Text

pub record ContainerCapacity : Type 0 where
  pub cpu : ℕ
  pub memory : ℕ

pub record Logs : Type 0 where
  pub kind : Text
  pub stdout : Text
  pub stderr : Text

pub record ContainerMount : Type 0 where
  pub volume_id : Text
  pub mountpoint : Text

pub record NetworkConnection : Type 0 where
  pub network_id : Text
  pub ipaddress : List ℕ
  pub public_ip6 : Bool

pub record StatsAggregator : Type 0 where
  pub kind : Text
  pub endpoint : Text

pub record Container : Type 0 where
  pub workload_id : ℕ
  pub node_id : Text
  pub flist : Text
  pub hub_url : Text
  pub environment : List (Text × Text)
  pub secret_environment : List (Text × Text)
  pub entrypoint : Text
  pub interactive : Bool
  pub volumes : List ContainerMount
  pub network_connection : List NetworkConnection
  pub stats_aggregator : List StatsAggregator
  pub logs : List Logs
  pub farmer_tid : ℕ
  pub capacity : ContainerCapacity

pub record Volume : Type 0 where
  pub workload_id : ℕ
  pub node_id : Text
  pub size : ℕ
  pub kind : DiskType
  pub stats_aggregator : List StatsAggregator
  pub farmer_tid : ℕ

pub record Zdb : Type 0 where
  pub workload_id : ℕ
  pub node_id : Text
  pub size : ℕ
  pub mode : ZdbMode
  pub password : Text
  pub disk_type : DiskType
  pub is_public : Bool
  pub stats_aggregator : List StatsAggregator
  pub farmer_tid : ℕ

pub record WireguardPeer : Type 0 where
  pub public_key : Text
  pub allowed_iprange : List IpRange
  pub endpoint : Text
  pub iprange : IpRange

pub record NetworkNetResource : Type 0 where
  pub node_id : Text
  pub wireguard_private_key_encrypted : Text
  pub wireguard_public_key : Text
  pub wireguard_listen_port : ℕ
  pub iprange : IpRange
  pub peers : List WireguardPeer

pub record Network : Type 0 where
  pub name : Text
  pub workload_id : ℕ
  pub iprange : IpRange
  pub stats_aggregator : List StatsAggregator
  pub network_resources : List NetworkNetResource
  pub farmer_tid : ℕ

pub record K8s : Type 0 where
  pub workload_id : ℕ
  pub node_id : Text
  pub size : ℕ
  pub network_id : Text
  pub ipaddress : List ℕ
  pub cluster_secret : Text
  pub master_ips : List (List ℕ)
  pub ssh_keys : List Text
  pub stats_aggregator : List StatsAggregator
  pub farmer_tid : ℕ

pub record GatewayProxy : Type 0 where
  pub id : ℕ
  pub workload_id : ℕ
  pub node_id : Text
  pub domain : Text
  pub addr : Text
  pub port : ℕ
  pub port_tls : ℕ

pub record GatewayReserveProxy : Type 0 where
  pub id : ℕ
  pub workload_id : ℕ
  pub node_id : Text
  pub domain : Text
  pub secret : Text

pub record GatewaySubdomain : Type 0 where
  pub id : ℕ
  pub workload_id : ℕ
  pub node_id : Text
  pub domain : Text
  pub ips : List Text

pub record GatewayDelegate : Type 0 where
  pub id : ℕ
  pub workload_id : ℕ
  pub node_id : Text
  pub domain : Text

pub record Gateway4To6 : Type 0 where
  pub id : ℕ
  pub workload_id : ℕ
  pub node_id : Text
  pub public_key : Text

pub record ReservationData : Type 0 where
  pub description : Text
  pub currencies : List Text
  pub signing_request_provision : SigningRequest
  pub signing_request_delete : SigningRequest
  pub containers : List Container
  pub volumes : List Volume
  pub zdbs : List Zdb
  pub networks : List Network
  pub kubernetes : List K8s
  pub proxies : List GatewayProxy
  pub reserve_proxy : List GatewayReserveProxy
  pub subdomains : List GatewaySubdomain
  pub domain_delegates : List GatewayDelegate
  pub gateway4_to6s : List Gateway4To6
  pub expiration_provisioning : ℕ
  pub expiration_reservation : ℕ

pub record Reservation : Type 0 where
  pub id : ℕ
  pub json : Text
  pub data_reservation : ReservationData
  pub customer_tid : ℕ
  pub customer_signature : Text
  pub next_action : NextAction
  pub signatures_provision : List SigningSignature
  pub signatures_farmer : List SigningSignature
  pub signatures_delete : List SigningSignature
  pub epoch : ℕ
  pub metadata : Text
  pub results : List Result

-- The `==` of the enumerations.
abbrev pub action_eq : NextAction → NextAction → Bool
action_eq create create = Bool.true
action_eq sign sign = Bool.true
action_eq pay pay = Bool.true
action_eq deploy deploy = Bool.true
action_eq delete delete = Bool.true
action_eq invalid invalid = Bool.true
action_eq deleted deleted = Bool.true
action_eq (unknown_action m) (unknown_action n) = m == n
action_eq _ _ = Bool.false

abbrev pub state_eq : ResultState → ResultState → Bool
state_eq error_state error_state = Bool.true
state_eq ok_state ok_state = Bool.true
state_eq deleted_state deleted_state = Bool.true
state_eq (unknown_state m) (unknown_state n) = m == n
state_eq _ _ = Bool.false
