-- ===== src/Models/Directory.antt =====
-- models/generated/directory: the documents of farms, nodes and gateways. A float64 is its 64-bit
-- pattern, a uint16 and a uint64 are numbers, a nil slice or net.IP is the empty list, an
-- interface{} is its JSON text, and a map lists its entries.
use tfexplorer.Base.{ℕ, Bool, ◌&&◌, ◌||◌, Option, List, ◌==◌}
use tfexplorer.Base.Int64.{sign_bit}
use tfexplorer.Base.Text.{Text, is_empty}
use tfexplorer.Models.Workloads.{IpRange}

pub data PriceCurrency : Type 0 where
  eur usd tft aed gbp : PriceCurrency
  unknown_currency : ℕ → PriceCurrency

pub data IfaceType : Type 0 where
  macvlan vlan : IfaceType
  unknown_iface : ℕ → IfaceType

pub record WalletAddress : Type 0 where
  pub asset : Text
  pub address : Text

pub record NodeResourcePrice : Type 0 where
  pub currency : PriceCurrency
  pub cru : ℕ
  pub mru : ℕ
  pub hru : ℕ
  pub sru : ℕ
  pub nru : ℕ

pub record Location : Type 0 where
  pub city : Text
  pub country : Text
  pub continent : Text
  pub latitude : ℕ
  pub longitude : ℕ

pub record Farm : Type 0 where
  pub id : ℕ
  pub threebot_id : ℕ
  pub iyo_organization : Text
  pub name : Text
  pub wallet_addresses : List WalletAddress
  pub location : Location
  pub email : Text
  pub resource_prices : List NodeResourcePrice
  pub prefix_zero : IpRange

pub record ResourceAmount : Type 0 where
  pub cru : ℕ
  pub mru : ℕ
  pub hru : ℕ
  pub sru : ℕ

pub record WorkloadAmount : Type 0 where
  pub network : ℕ
  pub volume : ℕ
  pub zdb_namespace : ℕ
  pub container : ℕ
  pub k8s_vm : ℕ
  pub proxy : ℕ
  pub reverse_proxy : ℕ
  pub subdomain : ℕ
  pub delegate_domain : ℕ

pub record Proof : Type 0 where
  pub created : ℕ
  pub hardware_hash : Text
  pub disk_hash : Text
  pub hardware : List (Text × Text)
  pub disks : List (Text × Text)
  pub hypervisor : List Text

pub record Iface : Type 0 where
  pub name : Text
  pub addrs : List IpRange
  pub gateway : List (List ℕ)
  pub mac_address : List ℕ

pub record PublicIface : Type 0 where
  pub master : Text
  pub kind : IfaceType
  pub ipv4 : IpRange
  pub ipv6 : IpRange
  pub gw4 : List ℕ
  pub gw6 : List ℕ
  pub version : ℕ

pub record Node : Type 0 where
  pub id : ℕ
  pub node_id : Text
  pub node_id_v1 : Text
  pub farm_id : ℕ
  pub os_version : Text
  pub created : ℕ
  pub updated : ℕ
  pub uptime : ℕ
  pub address : Text
  pub location : Location
  pub total_resources : ResourceAmount
  pub used_resources : ResourceAmount
  pub reserved_resources : ResourceAmount
  pub workloads : WorkloadAmount
  pub proofs : List Proof
  pub ifaces : List Iface
  pub public_config : Option PublicIface
  pub free_to_use : Bool
  pub approved : Bool
  pub public_key_hex : Text
  pub wg_ports : List ℕ

pub record Gateway : Type 0 where
  pub id : ℕ
  pub node_id : Text
  pub farm_id : ℕ
  pub os_version : Text
  pub created : ℕ
  pub updated : ℕ
  pub uptime : ℕ
  pub address : Text
  pub location : Location
  pub public_key_hex : Text
  pub workloads : WorkloadAmount
  pub managed_domains : List Text
  pub tcp_router_port : ℕ
  pub dns_nameserver : List Text
  pub free_to_use : Bool

-- A float64 equals 0 when it is one of the two zeros.
abbrev is_zero : ℕ → Bool
is_zero f = f == 0 || f == sign_bit

-- location == generated.Location{}
unfoldable pub is_no_location : Location → Bool
is_no_location l =
    is_empty l.city
    && is_empty l.country
    && is_empty l.continent
    && is_zero l.latitude
    && is_zero l.longitude
