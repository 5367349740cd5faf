-- ===== src/Selector/Resolve/Sticky.antt =====
-- A session that asks `Resolve` of selector/selector.go twice.
use geo_proxy.Common.{
  ℕ, ◌+◌, ◌≡◌, refl, ap, ◌∙◌, true, false, ◌&&◌, List, Option, some, arith, subst,
}
use geo_proxy.Common.Int.{ℤ, pos, ltb_ℤ, leb_ℤ}
use geo_proxy.Common.Key.{text_key}
use geo_proxy.Storage.{Proxy}
use geo_proxy.Auth.{ParsedUsername}
use geo_proxy.Affinity.{Store, Binding, get, expired}
use geo_proxy.Affinity.Consistency.{IsConsistent}
use geo_proxy.Affinity.Sticky.{current, get_lem}
use geo_proxy.Selector.{
  ok, NodeStore, Limits, Runtime, is_empty, normalize_region, binding_region_mismatch,
}
use geo_proxy.Selector.Score.{Float64}
use geo_proxy.Selector.Resolve.{
  check_sticky, stale, sticky_found, sticky_bound_proxy, first_look, resolve_session, resolve,
}
use geo_proxy.Selector.Resolve.Freshness.{Fresh, FreshOf, resolve-FreshOf}
use geo_proxy.Selector.Resolve.Serves.{Serves, Lawful}
use geo_proxy.Selector.Resolve.Results.{Resolved}
use geo_proxy.Selector.Resolve.Correct.{resolve-Resolved}

module _ (rt : Runtime) (f : Float64) (store : NodeStore) (cfg : Option Limits)
    (route : ParsedUsername) (excludes : List ℤ) where
  -- A live binding to a node that may serve the request is used, and refreshed.
  pub resolve-bound :
      (rand : ℕ → ℕ) (s : Store) (b : Binding) (p : Proxy)
      → is_empty route.node ≡ true
      → is_empty route.session ≡ false
      → current s route.session ≡ some b
      → stale rt f store cfg route excludes b ≡ false
      → check_sticky rt f store cfg route (store.get_proxy_by_id b.proxy_id) ≡ some p
      → resolve rt f store cfg rand route excludes (some s) ≡ (ok p, some (get route.session s).1)
  unfolding resolve resolve_session sticky_bound_proxy sticky_found first_look stale
      binding_region_mismatch
  resolve-bound rand s b p unpinned named live fits checked =
      rw (unpinned, named, (get_lem route.session s).0, live, fits, checked) refl

  check_sticky-Serves :
      (p : Proxy)
      → Serves rt f store cfg route excludes p
      → check_sticky rt f store cfg route (some p) ≡ some p
  unfolding check_sticky
  check_sticky-Serves p fit =
      ground (arith, fit.available, fit.right_region, fit.unlocked, fit.parent)

  -- A fresh binding is still used after a wait in which it does not expire.
  resolve-Fresh :
      (rand : ℕ → ℕ) (t : Store) (p q : Proxy) (d : ℕ)
      → Fresh rt route p t
      → is_empty route.node ≡ true
      → is_empty route.session ≡ false
      → store.get_proxy_by_id p.id ≡ some q
      → q.id ≡ p.id
      → ltb_ℤ (pos 0) p.id ≡ true
      → Serves rt f store cfg route excludes q
      → (ltb_ℤ (pos 0) t.ttl && leb_ℤ t.ttl (pos d)) ≡ false
      → let waited = record t { now = t.now + d } in
        resolve rt f store cfg rand route excludes (some waited)
        ≡ (ok q, some (get route.session waited).1)
  resolve-Fresh rand t p q d fresh unpinned named found own positive fit lives =
      let b = fresh.binding in
      let waited = record t { now = t.now + d } in
      let late : expired waited b ≡ false = unfold expired in ground (arith, fresh.active, lives) in
      resolve-bound rand waited b q unpinned named (ground (arith, fresh.stored, late))
        (unfold stale in ground (arith, fresh.owner, fresh.fits, own, positive, fit.not_excluded))
        (ap (λ n. check_sticky rt f store cfg route (store.get_proxy_by_id n)) fresh.owner
          ∙ ap (check_sticky rt f store cfg route) found
          ∙ check_sticky-Serves q fit)

module _ (rt : Runtime) (f : Float64) (store later : NodeStore) (cfg limits : Option Limits)
    (route : ParsedUsername) (excludes excluding : List ℤ) where
  -- Two requests of a session without a pin, in a region that is already normalized, over a
  -- consistent session store and a node store whose queries keep their promises (Lawful), the second
  -- after a wait that is below the ttl (any, if the ttl is not positive) and with no other request in
  -- between: if the first returned a node of a positive ID, and the node store finds a node under
  -- that ID then that may still serve the request, the second returns it and only refreshes the
  -- binding, whatever has become of the other nodes, the limits, the cooldowns and the excluded
  -- nodes.
  pub resolve-again :
      (rand again : ℕ → ℕ) (s t : Store) (p q : Proxy) (d : ℕ)
      → Lawful rt f store cfg
      → normalize_region rt route.region ≡ route.region
      → is_empty route.node ≡ true
      → is_empty route.session ≡ false
      → IsConsistent s
      → resolve rt f store cfg rand route excludes (some s) ≡ (ok p, some t)
      → later.get_proxy_by_id p.id ≡ some q
      → q.id ≡ p.id
      → ltb_ℤ (pos 0) p.id ≡ true
      → Serves rt f later limits route excluding q
      → (ltb_ℤ (pos 0) t.ttl && leb_ℤ t.ttl (pos d)) ≡ false
      → let waited = record t { now = t.now + d } in
        resolve rt f later limits again route excluding (some waited)
        ≡ (ok q, some (get route.session waited).1)
  resolve-again rand again s t p q d laws plain unpinned named c first found own positive fit
        lives =
      let resolved =
        subst (Resolved rt f store cfg route excludes s) first
          (resolve-Resolved rt f store cfg route excludes rand s laws plain named c) in
      let fresh =
        subst (FreshOf rt route) first
          (resolve-FreshOf rt f store cfg route excludes rand s laws unpinned named) in
      resolve-Fresh rt f later limits route excluding again t p q d (fresh resolved.1.right_region)
        unpinned named found own positive fit lives
