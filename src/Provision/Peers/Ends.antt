-- ===== src/Provision/Peers/Ends.antt =====
-- The loop over allowedIPs in generatePeers of provision/builders/networkBuilder.go, which runs over
-- a list that it makes longer, ends.
use mathlib.Core.List.{append-nil, append_assoc}
use mathlib.Core.Path.{subst}
use tfexplorer.Base.{
  ℕ, zero, suc, ◌+◌, ◌*◌, ◌≤◌, ◌≡◌, ◌∙◌, refl, sym, ap, true, false, List, [], ◌∷◌, ◌++◌, arith,
  All, All-append, if◌then◌else◌, length, length-append,
}
use tfexplorer.Base.Text.{Text, text_eq}
use tfexplorer.Models.Workloads.{IpRange}
use tfexplorer.Program.{done}
use tfexplorer.Provision.Dict.{Dict, put, get_or, get_or-put}
use tfexplorer.Provision.Network.{AccessPoint, >>=-eq-done, eq_of_done, Ends, >>=-Ends, done-Ends}
use tfexplorer.Provision.Address.{format_range, byte_from_end, wg_ip}
use tfexplorer.Provision.Tables.{external_subnets, no_range}
use tfexplorer.Provision.Peers.{with_link, with_links, extend}

byte_from_end-Ends : (k : ℕ) (ip : List ℕ) → Ends (byte_from_end k ip)
unfolding byte_from_end
byte_from_end-Ends k ip h = ground arith

wg_ip-Ends : (r : IpRange) → Ends (wg_ip r)
unfolding wg_ip
wg_ip-Ends r =
    >>=-Ends (byte_from_end 3 r.ip) _ (byte_from_end-Ends 3 r.ip)
      λ a _. >>=-Ends (byte_from_end 2 r.ip) _ (byte_from_end-Ends 2 r.ip) λ b _. done-Ends _

pub with_link-Ends : (r : IpRange) → Ends (with_link r)
unfolding with_link
with_link-Ends r = >>=-Ends (wg_ip r) _ (wg_ip-Ends r) λ wg _. done-Ends _

pub with_links-Ends : (rs : List IpRange) → Ends (with_links rs)
unfolding with_links
with_links-Ends [] = done-Ends []
with_links-Ends (r ∷ rs) =
    >>=-Ends (with_link r) _ (with_link-Ends r)
      λ pair _. >>=-Ends (with_links rs) _ (with_links-Ends rs) λ rest _. done-Ends _

module _ (ext : Dict (List IpRange)) where
  -- No external subnet comes in through this one.
  abbrev pub IsLeaf : IpRange → Type 0
  IsLeaf r = get_or ext (format_range r) [] ≡ []

  -- Nor through the link address for it.
  pub record IsFinal (r : IpRange) : Type 0 where
    pub leaf : IsLeaf r
    pub link_leaf : (wg : IpRange) → wg_ip r ≡ done wg → IsLeaf wg

  -- What the loop appends is twice as long as what it has found, and final.
  with_links-IsLeaf :
      (rs more : List IpRange)
      → All IsFinal rs
      → with_links rs ≡ done more
      → All IsLeaf more × (length more ≡ 2 * length rs)
  unfolding with_links with_link
  with_links-IsLeaf [] more h e = rw (sym (eq_of_done e)) (tt, refl)
  with_links-IsLeaf (r ∷ rs) more h e =
      let (pair, e1, e') = >>=-eq-done (with_link r) _ e in
      let (wg, ewg, e2) = >>=-eq-done (wg_ip r) _ e1 in
      let (rest, er, e3) = >>=-eq-done (with_links rs) _ e' in
      let (leaves, len) = with_links-IsLeaf rs rest h.1 er in
      let e4 : r ∷ wg ∷ rest ≡ more = ap (λ p. p ++ rest) (eq_of_done e2) ∙ eq_of_done e3 in
      rw (← e4) ((h.0.leaf, (h.0.link_leaf wg ewg, leaves)), omega (arith, len))

  module _ (bound : ℕ) (small : (r : IpRange) → length (get_or ext (format_range r) []) ≤ bound)
      (final : (r : IpRange) → All IsFinal (get_or ext (format_range r) [])) where
    -- The loop with subnets that are read in full, and final ones behind them.
    pub extend-Ends :
        (fuel : ℕ) (seen xs ys : List IpRange)
        → All IsLeaf ys
        → length ys + (1 + 2 * bound) * length xs ≤ fuel
        → Ends (extend fuel ext seen (xs ++ ys))
    unfolding extend
    extend-Ends fuel seen [] [] h le = done-Ends seen
    extend-Ends zero seen [] (y ∷ ys) h le = absurd (omega arith)
    extend-Ends (suc fuel) seen [] (y ∷ ys) h le = rw h.0 (
        subst (λ l. Ends (extend fuel ext (seen ++ y ∷ []) l)) (sym (append-nil ys))
          (extend-Ends fuel (seen ++ y ∷ []) [] ys h.1 (omega arith)))
    extend-Ends zero seen (x ∷ xs) ys h le = absurd (grind arith)
    extend-Ends (suc fuel) seen (x ∷ xs) ys h le =
        >>=-Ends (with_links (get_or ext (format_range x) [])) _
          (with_links-Ends (get_or ext (format_range x) []))
          λ more e.
            let (leaves, len) =
              with_links-IsLeaf (get_or ext (format_range x) []) more (final x) e in
            rw (append_assoc xs ys more) (
              extend-Ends fuel (seen ++ x ∷ []) xs (ys ++ more) (All-append IsLeaf ys more h leaves)
                (omega (arith, len, small x, length-append ys more)))

-- What holds of all entries of a table holds after one more subnet is appended to one of them.
put_subnet-All :
    (P : List IpRange → Type 0) (key : Text) (r : IpRange) (m : Dict (List IpRange))
    → ((k : Text) → P (get_or m k []))
    → P (get_or m key [] ++ r ∷ [])
    → (j : Text) → P (get_or (put key (get_or m key [] ++ r ∷ []) m) j [])
put_subnet-All P key r m old new j =
    subst P (sym (get_or-put key j (get_or m key [] ++ r ∷ []) [] m))
      (elim (text_eq key j) as (λ b. P (if b then get_or m key [] ++ r ∷ [] else get_or m j [])) [
        | true ↦ new
        | false ↦ old j
      ])

-- Every entry of a table satisfies what all subnets of the access points do.
pub external_subnets-All :
    (P : IpRange → Type 0) (internal : Dict IpRange) (ps : List AccessPoint)
    (m : Dict (List IpRange))
    → All (λ a. P a.subnet) ps
    → ((k : Text) → All P (get_or m k []))
    → (k : Text) → All P (get_or (external_subnets internal ps m) k [])
unfolding external_subnets
external_subnets-All P internal [] m h old k = old k
external_subnets-All P internal (p ∷ ps) m h old k =
    let key = format_range (get_or internal p.node_id no_range) in
    external_subnets-All P internal ps (put key (get_or m key [] ++ p.subnet ∷ []) m) h.1
      (put_subnet-All (All P) key p.subnet m old
        (All-append P (get_or m key []) (p.subnet ∷ []) (old key) (h.0, tt)))
      k

-- No entry is longer than the list of the access points.
pub external_subnets-length :
    (internal : Dict IpRange) (ps : List AccessPoint) (m : Dict (List IpRange)) (bound : ℕ)
    → ((k : Text) → length (get_or m k []) ≤ bound)
    → (k : Text) → length (get_or (external_subnets internal ps m) k []) ≤ bound + length ps
unfolding external_subnets
external_subnets-length internal [] m bound old k = omega (arith, old k)
external_subnets-length internal (p ∷ ps) m bound old k =
    let key = format_range (get_or internal p.node_id no_range) in
    let rest =
      external_subnets-length internal ps (put key (get_or m key [] ++ p.subnet ∷ []) m) (bound + 1)
        (put_subnet-All (λ l. length l ≤ bound + 1) key p.subnet m (λ j. omega (arith, old j))
          (omega (arith, old key, length-append (get_or m key []) (p.subnet ∷ []))))
        k in
    omega (arith, rest)

pub with_link-length : (r : IpRange) (own : List IpRange) → with_link r ≡ done own → length own ≡ 2
unfolding with_link
with_link-length r own e =
    let (wg, _, e') = >>=-eq-done (wg_ip r) _ e in rw (sym (eq_of_done e')) refl
