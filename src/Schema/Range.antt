-- ===== src/Schema/Range.antt =====
-- schema/types.go: IPRange in JSON.
use tfexplorer.Base.{◌++◌, ◌∷◌, [], if◌then◌else◌}
use tfexplorer.Base.Text.{Text, is_empty}
use tfexplorer.Models.Workloads.{IpRange}
use tfexplorer.Provision.Address.{format_range}

-- IPRange.MarshalJSON
unfoldable pub marshal_ip_range : IpRange → Text
unfolding format_range
marshal_ip_range i = if is_empty i.ip then 34 ∷ 34 ∷ [] else 34 ∷ (format_range i ++ 34 ∷ [])
