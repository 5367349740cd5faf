-- ===== src/Selector/Resolve.antt =====
-- `Resolve` of selector/selector.go: pinned nodes, sticky sessions and first bindings.
pub mod Effect
pub mod Serves
pub mod Results
pub mod Rebinding
pub mod Pinning
pub mod Correct
pub mod Freshness
pub mod Sticky
use geo_proxy.Common.{
  ℕ, ◌+◌, ◌*◌, ◌^◌, Bool, true, false, ◌||◌, not, List, Option, none, some, if◌then◌else◌, drop,
}
use geo_proxy.Common.Int.{ℤ, pos, pos_part, ltb_ℤ, leb_ℤ, eq_ℤ}
use geo_proxy.Common.Key.{Text}
use geo_proxy.GoText.{codes, has_prefix}
use geo_proxy.Storage.{Proxy}
use geo_proxy.Auth.{ParsedUsername}
use geo_proxy.Affinity.{
  Store, Binding, get, set_proxy, remove, set_cooldown, in_cooldown, count_by_proxy,
}
use geo_proxy.Selector.{
  unavailable, capacity, cooldown, no_node, Result, ok, err, NodeStore, Limits, Runtime,
  proxy_available, excluded, max_sessions_per_proxy, proxy_cooldown_minutes,
  requested_or_bound_region, is_empty, region_mismatch, binding_region_mismatch,
  proxy_matches_unlock,
}
use geo_proxy.Selector.Score.{Float64}
use geo_proxy.Selector.Pick.{pick_unlock, pick_for_session}

abbrev pub minute : ℕ
minute = 60 * 10 ^ 9

module _ (rt : Runtime) (f : Float64) (store : NodeStore) (cfg : Option Limits) where
  -- The parent subscription of a node, if it has one, is known not to be paused.
  unfoldable pub parent_runs : Proxy → Bool
  parent_runs p =
      if ltb_ℤ (pos 0) p.subscription_id
      then elim (store.is_subscription_paused p.subscription_id) [
        | none ↦ false
        | some paused ↦ not paused
      ]
      else true

  unfoldable pub node_of_pin : Text → Option Proxy
  node_of_pin node =
      if has_prefix node (codes "key-")
      then store.get_proxy_by_node_key (drop 4 node)
      else store.get_proxy_by_address node

  unfoldable pub check_pinned : ParsedUsername → List ℤ → Option Proxy → Result Proxy
  check_pinned route excludes none = err (no_node route.region unavailable)
  check_pinned route excludes (some p) =
      if excluded p.id excludes
      then err (no_node route.region unavailable)
      else if not (proxy_available p)
      then err (no_node route.region unavailable)
      else if region_mismatch rt p.region route.region
      then err (no_node route.region unavailable)
      else if not (proxy_matches_unlock rt p route.unlock)
      then err (no_node route.region unavailable)
      else if not (parent_runs p)
      then err (no_node route.region unavailable)
      else ok p

  unfoldable pub resolve_pinned_node : ParsedUsername → List ℤ → Result Proxy
  resolve_pinned_node route excludes = check_pinned route excludes (node_of_pin route.node)

  unfoldable pub check_sticky : ParsedUsername → Option Proxy → Option Proxy
  check_sticky route none = none
  check_sticky route (some p) =
      if not (proxy_available p) || region_mismatch rt p.region route.region
      then none
      else if not (proxy_matches_unlock rt p route.unlock)
      then none
      else if not (parent_runs p)
      then none
      else some p

  unfoldable pub stale : ParsedUsername → List ℤ → Binding → Bool
  stale route excludes b =
      leb_ℤ b.proxy_id (pos 0)
      || excluded b.proxy_id excludes
      || binding_region_mismatch rt b route.region

  unfoldable pub sticky_found : ParsedUsername → List ℤ → Option Binding → Option Proxy
  sticky_found route excludes none = none
  sticky_found route excludes (some b) =
      if stale route excludes b then none else check_sticky route (store.get_proxy_by_id b.proxy_id)

  unfoldable pub sticky_bound_proxy : ParsedUsername → List ℤ → Store → Option Proxy × Store
  sticky_bound_proxy route excludes s =
      let (binding, t) = get route.session s in (sticky_found route excludes binding, t)

  -- Both branches of the source remove the binding and return the same region.
  unfoldable pub release_found : ParsedUsername → Option Binding → Store → Text × Store
  release_found route none s = (route.region, s)
  release_found route (some b) s =
      (requested_or_bound_region route.region b.region, remove route.session s)

  unfoldable pub release_stale_binding : ParsedUsername → Store → Text × Store
  release_stale_binding route s =
      let (binding, t) = get route.session s in release_found route binding t

  -- The write of a first binding, with the cooldown that it starts.
  unfoldable pub bind : ParsedUsername → ℤ → Proxy → Store → Store
  bind route minutes p s =
      let bound = set_proxy route.session p.id p.address p.region s in
      if ltb_ℤ (pos 0) minutes
      then set_cooldown p.id (bound.now + pos_part minutes * minute) bound
      else bound

  -- A pinned node that the session is not bound to yet: its cooldown, then its capacity first.
  unfoldable pub pin_cooldown : ParsedUsername → ℤ → Proxy → Bool × Store → Result Proxy × Store
  pin_cooldown route minutes p (true, s) = (err (no_node route.region cooldown), s)
  pin_cooldown route minutes p (false, s) = (ok p, bind route minutes p s)

  unfoldable pub ask_cooldown : ℤ → Proxy → Store → Bool × Store
  ask_cooldown minutes p s = if ltb_ℤ (pos 0) minutes then in_cooldown p.id s else (false, s)

  unfoldable pub ask_full : ℤ → Proxy → Store → Bool × Store
  ask_full max p s =
      if ltb_ℤ (pos 0) max
      then (let (n, t) = count_by_proxy p.id s in (leb_ℤ max (pos n), t))
      else (false, s)

  unfoldable pub pin_capacity : ParsedUsername → ℤ → Proxy → Bool × Store → Result Proxy × Store
  pin_capacity route minutes p (true, s) = (err (no_node route.region capacity), s)
  pin_capacity route minutes p (false, s) = pin_cooldown route minutes p (ask_cooldown minutes p s)

  unfoldable pub bound_here : Proxy → Option Binding → Bool
  bound_here p none = false
  bound_here p (some b) = eq_ℤ b.proxy_id p.id

  unfoldable pub pin_session : ParsedUsername → Proxy → Store → Result Proxy × Store
  pin_session route p s =
      let (binding, t) = get route.session s in
      if bound_here p binding
      then (ok p, t)
      else pin_capacity route (proxy_cooldown_minutes cfg) p
          (ask_full (max_sessions_per_proxy cfg) p t)

  unfoldable pub resolve_pin :
      ParsedUsername → Result Proxy → Option Store → Result Proxy × Option Store
  resolve_pin route (err e) s = (err e, s)
  resolve_pin route (ok p) none = (ok p, none)
  resolve_pin route (ok p) (some s) =
      if is_empty route.session
      then (ok p, some s)
      else (let (r, t) = pin_session route p s in (r, some t))

  unfoldable pub bind_picked :
      ParsedUsername → Result Proxy × Option Store → Result Proxy × Option Store
  bind_picked route (err e, s) = (err e, s)
  bind_picked route (ok p, none) = (ok p, none)
  bind_picked route (ok p, some s) = (ok p, some (bind route (proxy_cooldown_minutes cfg) p s))

  -- Under the first-bind lock, after the second look at the binding failed.
  unfoldable pub rebind : ParsedUsername → List ℤ → Text × Store → Result Proxy × Option Store
  rebind route excludes (region, s) = bind_picked route (
      pick_for_session rt f store region route.session excludes (max_sessions_per_proxy cfg)
        (proxy_cooldown_minutes cfg) route.unlock (some s))

  unfoldable pub second_look :
      ParsedUsername → List ℤ → Option Proxy × Store → Result Proxy × Option Store
  second_look route excludes (some p, s) = (ok p, some s)
  second_look route excludes (none, s) = rebind route excludes (release_stale_binding route s)

  unfoldable pub first_look :
      ParsedUsername → List ℤ → Option Proxy × Store → Result Proxy × Option Store
  first_look route excludes (some p, s) = (ok p, some s)
  first_look route excludes (none, s) =
      second_look route excludes (sticky_bound_proxy route excludes s)

  unfoldable pub resolve_session :
      ParsedUsername → List ℤ → Option Store → Result Proxy × Option Store
  resolve_session route excludes none =
      pick_for_session rt f store route.region route.session excludes (max_sessions_per_proxy cfg)
        (proxy_cooldown_minutes cfg) route.unlock none
  resolve_session route excludes (some s) =
      first_look route excludes (sticky_bound_proxy route excludes s)

  unfoldable pub resolve :
      (ℕ → ℕ) → ParsedUsername → List ℤ → Option Store → Result Proxy × Option Store
  resolve rand route excludes s =
      if not (is_empty route.node)
      then resolve_pin route (resolve_pinned_node route excludes) s
      else if is_empty route.session
      then (pick_unlock rt f store rand route.region excludes route.unlock, s)
      else resolve_session route excludes s
