-- ===== src/Provision/Nodes/Ports.antt =====
-- The ports and addresses that AddNode of provision/builders/networkBuilder.go chooses.
use tfexplorer.Base.{
  ℕ, zero, suc, ◌+◌, ◌≤◌, ◌<◌, ◌≡◌, refl, Bool, true, false, ◌&&◌, not, Option, none, some, List,
  [], ◌∷◌, arith, All, All-append, Bool-cases, inl, inr,
}
use tfexplorer.Base.Text.{Text}
use tfexplorer.Models.Workloads.{IpRange}
use tfexplorer.Models.Directory.{Node}
use tfexplorer.Program.{done}
use tfexplorer.Provision.Network.{NetworkBuilder, no_endpoints, >>=-eq-done, eq_of_done}
use tfexplorer.Provision.Address.{is_global_unicast, is_private_ip}
use tfexplorer.Provision.Nodes.{
  NetEnv, ZosNode, or_error, is_nil_ip, if_public, addresses_of, is_in, pick, pick_port,
  is_public_address, public_addresses, iface_addresses, get_end_point_addrs,
}

-- A port that is picked: it is between 2000 and 7999, and not used yet.
abbrev IsFree : List ℕ → ℕ → Type 0
IsFree used p = (2000 ≤ p) × (p < 8000) × (is_in used p ≡ false)

pick-IsFree :
    (env : NetEnv) (fuel : ℕ) (used : List ℕ) (k : ℕ) {p : ℕ}
    → ((j : ℕ) → env.intn_6000 j < 6000)
    → pick env fuel used k ≡ done p
    → IsFree used p
unfolding pick
pick-IsFree env zero used k r h = absurd (cc h)
pick-IsFree env (suc fuel) used k {p} r h =
    elim (Bool-cases (is_in used (env.intn_6000 k + 2000))) [
      | inl e ↦ pick-IsFree env fuel used (suc k) r (rw e at h)
      | inr e ↦
          let same : env.intn_6000 k + 2000 ≡ p = eq_of_done (rw e at h) in
          rw (← same) (omega arith, omega (arith, r k), e)
    ]

pick-ends :
    (env : NetEnv) (fuel : ℕ) (used : List ℕ) (k j : ℕ)
    → is_in used (env.intn_6000 (k + j) + 2000) ≡ false
    → j < fuel
    → (p : ℕ) × (pick env fuel used k ≡ done p)
unfolding pick
pick-ends env zero used k j free h = absurd (omega arith)
pick-ends env (suc fuel) used k zero free h =
    let here_free : is_in used (env.intn_6000 k + 2000) ≡ false =
      let e : k + 0 ≡ k = omega arith in rw e at free in
    (env.intn_6000 k + 2000, rw here_free refl)
pick-ends env (suc fuel) used k (suc j) free h =
    elim (Bool-cases (is_in used (env.intn_6000 k + 2000))) [
      | inl e ↦
          let shift : k + suc j ≡ suc k + j = omega arith in
          let (p, ends) = pick-ends env fuel used (suc k) j (rw shift at free) (omega arith) in
          (p, rw e ends)
      | inr e ↦ (env.intn_6000 k + 2000, rw e refl)
    ]

-- If the random numbers are below 6000 as rand.Intn has it, and the one after j others gives a port
-- that the node does not use, then the loop of pickPort ends after at most j + 1 rounds, with a port
-- from 2000 to 7999 that the node does not use.
pub pick_port-IsFree :
    (env : NetEnv) (fuel j : ℕ) (n : NetworkBuilder) (node : Node)
    → ((k : ℕ) → env.intn_6000 k < 6000)
    → env.node_get 0 n.node_id ≡ some node
    → is_in node.wg_ports (env.intn_6000 j + 2000) ≡ false
    → j < fuel
    → (p : ℕ) × (pick_port env fuel n ≡ done p)
      × (2000 ≤ p)
      × (p < 8000)
      × (is_in node.wg_ports p ≡ false)
unfolding pick_port
pick_port-IsFree env fuel j n node r found free h =
    let start : j ≡ 0 + j = omega arith in
    let (p, e) = pick-ends env fuel node.wg_ports 0 j (rw start at free) h in
    let (lo, hi, new) = pick-IsFree env fuel node.wg_ports 0 r e in (p, rw found e, lo, hi, new)

public_addresses-All :
    (rs : List IpRange) → All (λ r. is_public_address r ≡ true) (public_addresses rs)
unfolding public_addresses
public_addresses-All [] = tt
public_addresses-All (r ∷ rs) = elim (Bool-cases (is_public_address r)) [
  | inl e ↦ rw e (e, public_addresses-All rs)
  | inr e ↦ rw e (public_addresses-All rs)
]

iface_addresses-All :
    (ifaces : List (List IpRange)) → All (λ r. is_public_address r ≡ true) (iface_addresses ifaces)
unfolding iface_addresses
iface_addresses-All [] = tt
iface_addresses-All (addrs ∷ rest) =
    All-append (λ r. is_public_address r ≡ true) (public_addresses addrs) (iface_addresses rest)
      (public_addresses-All addrs) (iface_addresses-All rest)

if_public-All : (r : IpRange) → All (λ r'. is_public_address r' ≡ true) (if_public r)
if_public-All r = elim (Bool-cases (not (is_nil_ip r.ip) && is_public_address r)) [
  | inl e ↦ rw e (ground arith, tt)
  | inr e ↦ rw e tt
]

addresses_of-All :
    (config : Option (IpRange × IpRange)) (ifaces : List (List IpRange))
    → All (λ r. is_public_address r ≡ true) (addresses_of config ifaces)
addresses_of-All none ifaces = iface_addresses-All ifaces
addresses_of-All (some (v4, v6)) ifaces =
    All-append (λ r. is_public_address r ≡ true) (if_public v4) (if_public v6) (if_public-All v4)
      (if_public-All v6)

and_not : (a b : Bool) → (a && not b) ≡ true → (a ≡ true) × (b ≡ false)
and_not true b h = ground arith
and_not false b h = ground arith

-- An address that is reached from everywhere.
abbrev pub IsReachedFromAnywhere : IpRange → Type 0
IsReachedFromAnywhere r = (is_global_unicast r.ip ≡ true) × (is_private_ip r.ip ≡ false)

each_reached :
    (rs : List IpRange) → All (λ r. is_public_address r ≡ true) rs → All IsReachedFromAnywhere rs
unfolding is_public_address
each_reached [] h = tt
each_reached (r ∷ rs) h =
    (and_not (is_global_unicast r.ip) (is_private_ip r.ip) h.0, each_reached rs h.1)

-- What getEndPointAddrs returns are addresses that are global unicast and not private.
pub get_end_point_addrs-All :
    (env : NetEnv) (k : ℕ) (id : Text) {rs : List IpRange}
    → get_end_point_addrs env k id ≡ done rs
    → All (λ r. (is_global_unicast r.ip ≡ true) × (is_private_ip r.ip ≡ false)) rs
unfolding get_end_point_addrs
get_end_point_addrs-All env k id {rs} h =
    let (node, _, h') = >>=-eq-done (or_error no_endpoints (env.node_get k id)) _ h in
    let zos : ZosNode = env.from_schema node in
    rw (← (eq_of_done h')) (
      each_reached (addresses_of zos.public_config zos.ifaces)
        (addresses_of-All zos.public_config zos.ifaces))
