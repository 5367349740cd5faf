-- ===== src/Selector/Resolve/Serves.antt =====
-- What `Resolve` of selector/selector.go guarantees of the node that it returns.
use geo_proxy.Common.{◌≡◌, refl, true, false, List, [], ◌∷◌, Option, none, some, arith, subst}
use geo_proxy.Common.Int.{ℤ}
use geo_proxy.Common.Key.{Text}
use geo_proxy.Storage.{Proxy}
use geo_proxy.Auth.{ParsedUsername}
use geo_proxy.Affinity.{Store, Binding}
use geo_proxy.Selector.{
  ok, NodeStore, Limits, Runtime, is_empty, proxy_available, excluded, normalize_region,
  region_mismatch, proxy_matches_unlock, requested_or_bound_region,
}
use geo_proxy.Selector.Score.{Float64}
use geo_proxy.Common.{In}
use geo_proxy.Selector.Pick.Outcome.{PickedFor}
use geo_proxy.Selector.Resolve.{
  parent_runs, check_pinned, node_of_pin, resolve_pinned_node, check_sticky, stale, sticky_found,
}

-- What the queries of the node store promise: the list for a normalized region holds no excluded
-- node, none of another region and none of a paused subscription, and a node is found under its own
-- ID.
pub record Lawful (rt : Runtime) (f : Float64) (store : NodeStore) (cfg : Option Limits)
    : Type 0 where
  pub listed :
      (region : Text) (excludes : List ℤ) (ps : List Proxy) (x : Proxy)
      → store.get_by_region (normalize_region rt region) excludes ≡ some ps
      → In x ps
      → (excluded x.id excludes ≡ false)
        × (region_mismatch rt x.region (normalize_region rt region) ≡ false)
        × (parent_runs rt f store cfg x ≡ true)
  pub by_id : (n : ℤ) (x : Proxy) → store.get_proxy_by_id n ≡ some x → x.id ≡ n

-- The node may serve the request.
pub record Serves (rt : Runtime) (f : Float64) (store : NodeStore) (cfg : Option Limits)
    (route : ParsedUsername) (excludes : List ℤ) (p : Proxy) : Type 0 where
  pub available : proxy_available p ≡ true
  pub unlocked : proxy_matches_unlock rt p route.unlock ≡ true
  pub right_region : region_mismatch rt p.region route.region ≡ false
  pub not_excluded : excluded p.id excludes ≡ false
  pub parent : parent_runs rt f store cfg p ≡ true

module _ (rt : Runtime) (f : Float64) (store : NodeStore) (cfg : Option Limits)
    (route : ParsedUsername) (excludes : List ℤ) where
  checked_pin :
      (q p : Proxy)
      → check_pinned rt f store cfg route excludes (some q) ≡ ok p
      → (q ≡ p) × Serves rt f store cfg route excludes q
  unfolding check_pinned
  checked_pin q p h = (
    ground arith,
    record {
      available = ground arith;
      unlocked = ground arith;
      right_region = ground arith;
      not_excluded = ground arith;
      parent = ground arith;
    },
  )

  -- A pinned node passed every check, and is the node that the pin names.
  pub pinned-Serves :
      (p : Proxy)
      → resolve_pinned_node rt f store cfg route excludes ≡ ok p
      → Serves rt f store cfg route excludes p × (node_of_pin rt f store cfg route.node ≡ some p)
  unfolding resolve_pinned_node
  pinned-Serves p e = go (node_of_pin rt f store cfg route.node) refl e
    where
      go :
          (o : Option Proxy)
          → node_of_pin rt f store cfg route.node ≡ o
          → check_pinned rt f store cfg route excludes o ≡ ok p
          → Serves rt f store cfg route excludes p
            × (node_of_pin rt f store cfg route.node ≡ some p)
      go none n h = unfold check_pinned in cc
      go (some q) n h =
          let (same, serves) = checked_pin q p h in
          (subst (Serves rt f store cfg route excludes) same serves, cc)

  checked_sticky :
      (q p : Proxy)
      → check_sticky rt f store cfg route (some q) ≡ some p
      → excluded q.id excludes ≡ false
      → (q ≡ p) × Serves rt f store cfg route excludes q
  unfolding check_sticky
  checked_sticky q p h x = (
    ground arith,
    record {
      available = ground arith;
      unlocked = ground arith;
      right_region = ground arith;
      not_excluded = x;
      parent = ground arith;
    },
  )

  pub sticky-Serves :
      (b : Option Binding) (p : Proxy)
      → Lawful rt f store cfg
      → sticky_found rt f store cfg route excludes b ≡ some p
      → Serves rt f store cfg route excludes p
        × ((c : Binding) × (b ≡ some c) × (c.proxy_id ≡ p.id))
  unfolding sticky_found
  sticky-Serves none p laws e = cc
  sticky-Serves (some c) p laws e = go (store.get_proxy_by_id c.proxy_id) refl found
    where
      found : check_sticky rt f store cfg route (store.get_proxy_by_id c.proxy_id) ≡ some p
      found = ground arith

      included : excluded c.proxy_id excludes ≡ false
      included = unfold stale in ground arith

      go :
          (o : Option Proxy)
          → store.get_proxy_by_id c.proxy_id ≡ o
          → check_sticky rt f store cfg route o ≡ some p
          → Serves rt f store cfg route excludes p
            × ((d : Binding) × (some c ≡ some d) × (d.proxy_id ≡ p.id))
      go none n h = unfold check_sticky in cc
      go (some q) n h =
          let own = laws.by_id c.proxy_id q n in
          let (same, serves) = checked_sticky q p h (rw own included) in
          (
            subst (Serves rt f store cfg route excludes) same serves,
            (c, refl, ground (arith, own, same)),
          )

  region_requested :
      (bound : Text) (r : Text)
      → normalize_region rt route.region ≡ route.region
      → region_mismatch rt r (normalize_region rt (requested_or_bound_region route.region bound))
        ≡ false
      → region_mismatch rt r route.region ≡ false
  unfolding requested_or_bound_region
  region_requested bound r plain h = go route.region refl plain h
    where
      go :
          (region : Text)
          → route.region ≡ region
          → normalize_region rt region ≡ region
          → region_mismatch rt r (normalize_region rt (requested_or_bound_region region bound))
            ≡ false
          → region_mismatch rt r region ≡ false
      go [] e n k = unfold region_mismatch is_empty in refl
      go (b ∷ region) e n k = rw n at k

  -- A node that is chosen for the region of the request, or else of the old binding.
  pub chosen-Serves :
      (bound : Text) (max minutes : ℤ) (s : Store) (p : Proxy)
      → Lawful rt f store cfg
      → normalize_region rt route.region ≡ route.region
      → PickedFor rt f store
          (requested_or_bound_region route.region bound)
          excludes
          route.unlock
          max
          minutes
          s
          p
      → Serves rt f store cfg route excludes p
  chosen-Serves bound max minutes s p laws plain (ps, e, chosen) =
      let law =
        laws.listed (requested_or_bound_region route.region bound) excludes ps p e chosen.listed in
      record {
        available = chosen.available;
        unlocked = chosen.unlocked;
        right_region = region_requested bound p.region plain law.1;
        not_excluded = law.0;
        parent = law.2;
      }
