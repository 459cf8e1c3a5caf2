-- ===== src/Directory/Nodes/Own.antt =====
-- A node reports only of itself.
use tfexplorer.Base.{ℕ, ◌≡◌, true, not, Option, List, []}
use tfexplorer.Base.Text.{Text, text_eq, is_empty, text_eq→≡}
use tfexplorer.Base.Int64.{slt}
use tfexplorer.Models.Directory.{ResourceAmount, WorkloadAmount, Iface, Proof}
use tfexplorer.Mw.{Status, bad_request, not_found, forbidden, internal, ok, created}
use tfexplorer.Program.{pure, or_fail, map_error}
use tfexplorer.Program.Quiet.{pure-IsQuiet, or_fail-IsQuiet, ask-IsQuiet, ask_total-IsQuiet}
use tfexplorer.Program.Confined.{
  IsConfined, weaken, quiet-IsConfined, >>=-IsConfined, write-IsConfined, guard-IsConfined,
  map_error-IsConfined,
}
use tfexplorer.Directory.Outside.{
  Env, Exec, Change, uptime, total_resources, reserved_resources, workloads, ifaces, wg_ports,
  Write, set_node, push_proof, directory_store,
}
use tfexplorer.Directory.Filters.{with_node_id}
use tfexplorer.Directory.Node.{
  DirectoryError, other_error, node_update, node_push_proof, node_update_total_resources,
  node_update_reserved_resources, node_update_workloads_amount, node_update_uptime,
  node_set_interfaces, node_set_wg_ports,
}
use tfexplorer.Directory.Proofs.{Hardware, proof_of, store_proof}
use tfexplorer.Directory.Nodes.{
  answer, requires_node, register_capacity, register_ifaces, register_ports, update_uptime,
  update_reserved_resources,
}

-- The writes that change fields of the node with a given ID, or add a proof to it.
pub data Concerns (node_id : Text) : Write → Type 0 where
  sets : (x : Change) → Concerns node_id (set_node (with_node_id [] node_id) x)
  proves : (p : Proof) → Concerns node_id (push_proof (with_node_id [] node_id) p)

-- A write about a node for which the node's key has signed.
pub record IsOwn (node_id key_id : Text) (c : Write) : Type 0 where
  pub signed : node_id ≡ key_id
  pub concerns : Concerns node_id c

node_update-Concerns :
    (node_id : Text) (x : Change) → IsConfined (Concerns node_id) (node_update node_id x)
unfolding node_update
node_update-Concerns node_id x =
    guard-IsConfined (Concerns node_id) other_error (not (is_empty node_id)) λ _.
      write-IsConfined (Concerns node_id) other_error (set_node (with_node_id [] node_id) x)
        (sets x)

node_update_uptime-Concerns :
    (node_id : Text) (n : ℕ) → IsConfined (Concerns node_id) (node_update_uptime node_id n)
unfolding node_update_uptime
node_update_uptime-Concerns node_id n =
    >>=-IsConfined (Concerns node_id)
      (quiet-IsConfined (Concerns node_id) (ask_total-IsQuiet (λ (env : Env) w. env.now w)))
      λ now. node_update-Concerns node_id (uptime n now)

store_proof-Concerns :
    (node_id : Text) (h : Hardware) → IsConfined (Concerns node_id) (store_proof node_id h)
unfolding store_proof node_push_proof
store_proof-Concerns node_id h =
    >>=-IsConfined (Concerns node_id)
      (quiet-IsConfined (Concerns node_id) (ask_total-IsQuiet (λ (env : Env) w. env.now w)))
      λ now. guard-IsConfined (Concerns node_id) other_error (not (is_empty node_id)) λ _.
        write-IsConfined (Concerns node_id) other_error
          (push_proof (with_node_id [] node_id) (proof_of now h)) (proves (proof_of now h))

module _ (node_id key_id : Text) where
  own :
      {A : Type 0} {m : Exec DirectoryError A} (e : Status)
      → text_eq node_id key_id ≡ true
      → IsConfined (Concerns node_id) m
      → IsConfined (IsOwn node_id key_id) (map_error (answer e) m)
  own {m} e h confined =
      map_error-IsConfined (IsOwn node_id key_id) (answer e)
        (weaken confined λ c k. record { signed = text_eq→≡ node_id key_id h; concerns = k })

  answered :
      {A : Type 0} (a : A) → IsConfined (IsOwn node_id key_id) (pure {V = Env} {E = Status} a)
  answered a = quiet-IsConfined (IsOwn node_id key_id) (pure-IsQuiet a)

  decoded :
      {A : Type 0} (body : Option A)
      → IsConfined (IsOwn node_id key_id) (or_fail {V = Env} bad_request body)
  decoded body = quiet-IsConfined (IsOwn node_id key_id) (or_fail-IsQuiet bad_request body)

  register_capacity-IsOwn :
      (body : Option (ResourceAmount × Hardware))
      → IsConfined (IsOwn node_id key_id) (register_capacity node_id key_id body)
  unfolding register_capacity node_update_total_resources
  register_capacity-IsOwn body = >>=-IsConfined _ (decoded body) λ x.
      guard-IsConfined _ forbidden (text_eq node_id key_id) λ same.
        >>=-IsConfined _ (own not_found same (node_update-Concerns node_id (total_resources x.0)))
          λ _.
            >>=-IsConfined _ (own internal same (store_proof-Concerns node_id x.1)) λ _. answered ok

  register_ifaces-IsOwn :
      (body : Option (List Iface))
      → IsConfined (IsOwn node_id key_id) (register_ifaces node_id key_id body)
  unfolding register_ifaces node_set_interfaces
  register_ifaces-IsOwn body = >>=-IsConfined _ (decoded body) λ x.
      guard-IsConfined _ forbidden (text_eq node_id key_id) λ same.
        >>=-IsConfined _ (own internal same (node_update-Concerns node_id (ifaces x)))
          λ _. answered created

  register_ports-IsOwn :
      (body : Option (List ℕ))
      → IsConfined (IsOwn node_id key_id) (register_ports node_id key_id body)
  unfolding register_ports node_set_wg_ports
  register_ports-IsOwn body = guard-IsConfined _ forbidden (text_eq node_id key_id) λ same.
      >>=-IsConfined _ (decoded body) λ x.
        >>=-IsConfined _ (own not_found same (node_update-Concerns node_id (wg_ports x)))
          λ _. answered ok

  update_uptime-IsOwn :
      (body : Option ℕ) → IsConfined (IsOwn node_id key_id) (update_uptime node_id key_id body)
  unfolding update_uptime
  update_uptime-IsOwn body = guard-IsConfined _ forbidden (text_eq node_id key_id) λ same.
      >>=-IsConfined _ (decoded body) λ x.
        >>=-IsConfined _ (own not_found same (node_update_uptime-Concerns node_id x))
          λ _. answered ok

  update_reserved_resources-IsOwn :
      (body : Option (ResourceAmount × WorkloadAmount))
      → IsConfined (IsOwn node_id key_id) (update_reserved_resources node_id key_id body)
  unfolding update_reserved_resources node_update_reserved_resources node_update_workloads_amount
  update_reserved_resources-IsOwn body =
      guard-IsConfined _ forbidden (text_eq node_id key_id) λ same.
        >>=-IsConfined _ (decoded body) λ x.
          >>=-IsConfined _
            (own not_found same (node_update-Concerns node_id (reserved_resources x.0)))
            λ _.
              >>=-IsConfined _ (own not_found same (node_update-Concerns node_id (workloads x.1)))
                λ _. answered ok

  required :
      {A : Type 0} {m : Exec Status A}
      → IsConfined (IsOwn node_id key_id) m
      → IsConfined (IsOwn node_id key_id) (requires_node node_id m)
  unfolding requires_node
  required confined =
      >>=-IsConfined _
        (quiet-IsConfined _
          (ask-IsQuiet internal (λ (env : Env) w. env.count_nodes w (with_node_id [] node_id))))
        λ n. guard-IsConfined _ not_found (slt 0 n) λ _. confined

-- The reports of a node. A report that is routed to a node writes only changes of the document of
-- that node and proofs for it, and only if the request is signed by the key that is named as the
-- node.
pub node_reports-IsOwn :
    (node_id key_id : Text) (capacity : Option (ResourceAmount × Hardware))
    (list : Option (List Iface)) (ports : Option (List ℕ)) (seconds : Option ℕ)
    (amounts : Option (ResourceAmount × WorkloadAmount))
    → IsConfined
        (IsOwn node_id key_id)
        (requires_node node_id (register_capacity node_id key_id capacity))
      × IsConfined
          (IsOwn node_id key_id)
          (requires_node node_id (register_ifaces node_id key_id list))
      × IsConfined
          (IsOwn node_id key_id)
          (requires_node node_id (register_ports node_id key_id ports))
      × IsConfined
          (IsOwn node_id key_id)
          (requires_node node_id (update_uptime node_id key_id seconds))
      × IsConfined
          (IsOwn node_id key_id)
          (requires_node node_id (update_reserved_resources node_id key_id amounts))
node_reports-IsOwn node_id key_id capacity list ports seconds amounts = (
  required node_id key_id (register_capacity-IsOwn node_id key_id capacity),
  required node_id key_id (register_ifaces-IsOwn node_id key_id list),
  required node_id key_id (register_ports-IsOwn node_id key_id ports),
  required node_id key_id (update_uptime-IsOwn node_id key_id seconds),
  required node_id key_id (update_reserved_resources-IsOwn node_id key_id amounts),
)
