-- ===== src/Selector/Resolve/Correct.antt =====
-- `Resolve` of selector/selector.go on every branch: the node it returns and the store it leaves.
use geo_proxy.Common.{ℕ, ◌≡◌, false, List, Option, some, inl, inr, Bool-cases}
use geo_proxy.Common.Int.{ℤ}
use geo_proxy.Auth.{ParsedUsername}
use geo_proxy.Affinity.{Store}
use geo_proxy.Affinity.Consistency.{IsConsistent}
use geo_proxy.Selector.{NodeStore, Limits, Runtime, is_empty, normalize_region}
use geo_proxy.Selector.Score.{Float64}
use geo_proxy.Selector.Resolve.{resolve_session, resolve}
use geo_proxy.Selector.Resolve.Serves.{Lawful, pinned-Serves}
use geo_proxy.Selector.Resolve.Results.{Resolved}
use geo_proxy.Selector.Resolve.Rebinding.{first_look-Resolved, sticky_bound_proxy-Looked}
use geo_proxy.Selector.Resolve.Pinning.{resolve_pin-Resolved}

module _ (rt : Runtime) (f : Float64) (store : NodeStore) (cfg : Option Limits)
    (route : ParsedUsername) (excludes : List ℤ) where
  -- For a request with a session, over a lawful node store and a consistent session store: `resolve`
  -- returns an error, or a node that may serve the request (available, of the region, with the
  -- unlocks, not excluded, its subscription not paused) and to which the session is bound from then
  -- on. On every branch the session store stays consistent, no other session is bound to anything
  -- else than before, and no proxy goes over a positive limit on its live sessions that it kept.
  pub resolve-Resolved :
      (rand : ℕ → ℕ) (s : Store)
      → Lawful rt f store cfg
      → normalize_region rt route.region ≡ route.region
      → is_empty route.session ≡ false
      → IsConsistent s
      → Resolved rt f store cfg route excludes s
          (resolve rt f store cfg rand route excludes (some s))
  unfolding resolve resolve_session
  resolve-Resolved rand s laws plain named c = elim (Bool-cases (is_empty route.node)) [
    | inl unpinned ↦
        rw (unpinned, named)
          (first_look-Resolved rt f store cfg route excludes s _ laws plain c
            (sticky_bound_proxy-Looked rt f store cfg route excludes s laws c))
    | inr pinned ↦ rw pinned (
        resolve_pin-Resolved rt f store cfg route excludes s _
          (λ p e. (pinned-Serves rt f store cfg route excludes p e).0) named c)
  ]
