-- ===== src/Provision/Peers/Routes.antt =====
-- provision/builders/networkBuilder.go: what generatePeers routes to a peer and where it reaches it,
-- described without its loops.
use mathlib.Core.List.{append-nil, append_assoc}
use tfexplorer.Base.{
  ℕ, zero, suc, ◌≡◌, ◌∙◌, refl, sym, Bool, true, false, Option, none, some, List, [], ◌∷◌, ◌++◌,
  any, find, arith, inl, inr, Bool-cases, Option-cases,
}
use tfexplorer.Base.Text.{Text, codes}
use tfexplorer.Base.Decimal.{format_int}
use tfexplorer.Base.Net.{is_to4, format_ip}
use tfexplorer.Models.Workloads.{IpRange}
use tfexplorer.Program.{done}
use tfexplorer.Provision.Dict.{Dict, get_or}
use tfexplorer.Provision.Network.{NetResource, >>=-eq-done, eq_of_done}
use tfexplorer.Provision.Address.{wg_ip, format_range}
use tfexplorer.Provision.Peers.{
  with_link, with_links, extend, endpoint_v4, endpoint_v6, is_v6_only, first_v4, first_v6,
}

-- Subnets, each followed by the link address for it.
pub data IsLinked : List IpRange → List IpRange → Type 0 where
  no_subnet : IsLinked [] []
  subnet :
      (r wg : IpRange) {rs links : List IpRange}
      → wg_ip r ≡ done wg
      → IsLinked rs links
      → IsLinked (r ∷ rs) (r ∷ wg ∷ links)

-- What is routed for a list of subnets: each of them, and then what the external subnets of each
-- bring along.
pub data IsRouted (external : Dict (List IpRange)) : List IpRange → List IpRange → Type 0 where
  all_routed : IsRouted external [] []
  route :
      (r : IpRange) {rs more out : List IpRange}
      → IsLinked (get_or external (format_range r) []) more
      → IsRouted external (rs ++ more) out
      → IsRouted external (r ∷ rs) (r ∷ out)

with_links-IsLinked :
    (rs : List IpRange) {links : List IpRange} → with_links rs ≡ done links → IsLinked rs links
unfolding with_links with_link
with_links-IsLinked [] h = rw (sym (eq_of_done h)) no_subnet
with_links-IsLinked (r ∷ rs) h =
    let (pair, ep, h') = >>=-eq-done (with_link r) _ h in
    let (rest, er, h'') = >>=-eq-done (with_links rs) _ h' in
    let (wg, ew, eq) = >>=-eq-done (wg_ip r) _ ep in
    rw (sym (eq_of_done h''), sym (eq_of_done eq)) (subnet r wg ew (with_links-IsLinked rs er))

pub extend-IsRouted :
    (fuel : ℕ) (external : Dict (List IpRange)) (seen rs : List IpRange) {allowed : List IpRange}
    → extend fuel external seen rs ≡ done allowed
    → (out : List IpRange) × (allowed ≡ seen ++ out) × IsRouted external rs out
unfolding extend
extend-IsRouted zero external seen [] h =
    ([], sym (eq_of_done h) ∙ sym (append-nil seen), all_routed)
extend-IsRouted (suc fuel) external seen [] h =
    ([], sym (eq_of_done h) ∙ sym (append-nil seen), all_routed)
extend-IsRouted zero external seen (r ∷ rs) h = absurd (cc h)
extend-IsRouted (suc fuel) external seen (r ∷ rs) h =
    let (more, em, h') = >>=-eq-done (with_links (get_or external (format_range r) [])) _ h in
    let (out, e, routed) = extend-IsRouted fuel external (seen ++ r ∷ []) (rs ++ more) h' in
    (
      r ∷ out,
      e ∙ append_assoc seen (r ∷ []) out,
      route r (with_links-IsLinked (get_or external (format_range r) []) em) routed,
    )

-- The first element of a list that passes a test.
pub data IsFirst {A : Type 0} (p : A → Bool) (a : A) : List A → Type 0 where
  at_front : (rest : List A) → p a ≡ true → IsFirst p a (a ∷ rest)
  further : (b : A) {rest : List A} → p b ≡ false → IsFirst p a rest → IsFirst p a (b ∷ rest)

find-IsFirst :
    {A : Type 0} (p : A → Bool) (rest : List A) {a : A} → find p rest ≡ some a → IsFirst p a rest
find-IsFirst p [] h = absurd (cc h)
find-IsFirst {A} p (b ∷ rest) {a} h = elim (Bool-cases (p b)) [
  | inl e ↦
      let found : ◌≡◌ {A = Option A} (some b) (some a) = rw e at h in
      let same : b ≡ a = cc in rw (sym same) (at_front rest e)
  | inr e ↦ further b e (find-IsFirst p rest (rw e at h))
]

find-none : {A : Type 0} (p : A → Bool) (rest : List A) → find p rest ≡ none → any p rest ≡ false
find-none p [] h = refl
find-none p (a ∷ rest) h = ground (arith, find-none p rest)

-- The endpoint of a node is its first IPv4 address with its port.
abbrev pub IsV4Endpoint : NetResource → Text → Type 0
IsV4Endpoint o text =
    (ip : List ℕ) × IsFirst is_to4 ip o.pub_endpoints
    × (text ≡ format_ip ip ++ (codes ":" ++ format_int o.resource.wireguard_listen_port))

-- The endpoint of a node is its first IPv6 address, in brackets, with its port.
abbrev pub IsV6Endpoint : NetResource → Text → Type 0
IsV6Endpoint o text =
    (ip : List ℕ) × IsFirst is_v6_only ip o.pub_endpoints
    × (text
        ≡ codes "["
          ++ (format_ip ip ++ (codes "]:" ++ format_int o.resource.wireguard_listen_port)))

-- How public nodes reach each other: over IPv6 if they can, else over IPv4; an address may be
-- neither.
pub data IsPublicEndpoint (o : NetResource) (text : Text) : Type 0 where
  over_v6 : IsV6Endpoint o text → IsPublicEndpoint o text
  over_v4 : any is_v6_only o.pub_endpoints ≡ false → IsV4Endpoint o text → IsPublicEndpoint o text
  not_reached :
      any is_v6_only o.pub_endpoints ≡ false
      → any is_to4 o.pub_endpoints ≡ false
      → text ≡ []
      → IsPublicEndpoint o text

pub first_v4-IsV4Endpoint :
    (o : NetResource) → any is_to4 o.pub_endpoints ≡ true → IsV4Endpoint o (first_v4 o)
unfolding first_v4 endpoint_v4
first_v4-IsV4Endpoint o h = elim (Option-cases (find is_to4 o.pub_endpoints)) [
  | inl e ↦ let no_v4 = find-none is_to4 o.pub_endpoints e in absurd (ground arith)
  | inr (ip, e) ↦ (ip, find-IsFirst is_to4 o.pub_endpoints e, rw e refl)
]

find-nil : {A : Type 0} (p : A → Bool) (rest : List A) → any p rest ≡ false → find p rest ≡ none
find-nil p [] h = refl
find-nil p (a ∷ rest) h = ground (arith, find-nil p rest)

first_v4-nil : (o : NetResource) → any is_to4 o.pub_endpoints ≡ false → first_v4 o ≡ []
unfolding first_v4
first_v4-nil o h = rw (find-nil is_to4 o.pub_endpoints h) refl

pub first_v6-IsPublicEndpoint : (o : NetResource) → IsPublicEndpoint o (first_v6 o)
unfolding first_v6 endpoint_v6
first_v6-IsPublicEndpoint o = elim (Option-cases (find is_v6_only o.pub_endpoints)) [
  | inr (ip, e) ↦ over_v6 (ip, find-IsFirst is_v6_only o.pub_endpoints e, rw e refl)
  | inl e ↦
      let no_v6 = find-none is_v6_only o.pub_endpoints e in
      let text : first_v6 o ≡ first_v4 o = rw e refl in
      elim (Bool-cases (any is_to4 o.pub_endpoints)) [
        | inl v4 ↦ over_v4 no_v6 (rw text (first_v4-IsV4Endpoint o v4))
        | inr v4 ↦ not_reached no_v6 v4 (text ∙ first_v4-nil o v4)
      ]
]
