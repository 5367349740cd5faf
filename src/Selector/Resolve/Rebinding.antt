-- ===== src/Selector/Resolve/Rebinding.antt =====
-- The sessions without a pin in `Resolve` of selector/selector.go: sticky, released and bound again.
use geo_proxy.Common.{◌≡◌, refl, List, [], ◌∷◌, Option, none, some, arith, subst}
use geo_proxy.Common.Int.{ℤ}
use geo_proxy.Common.Key.{Text}
use geo_proxy.Storage.{Proxy}
use geo_proxy.Auth.{ParsedUsername}
use geo_proxy.Affinity.{Store, Binding, get}
use geo_proxy.Affinity.Consistency.{IsConsistent}
use geo_proxy.Affinity.View.{seen, occupancy-Quiet}
use geo_proxy.Affinity.View.Cooling.{Calm, Calm-trans, get-Calm}
use geo_proxy.Selector.{
  Result, ok, err, NodeStore, Limits, Runtime, normalize_region, max_sessions_per_proxy,
  proxy_cooldown_minutes, requested_or_bound_region,
}
use geo_proxy.Selector.Score.{Float64}
use geo_proxy.Selector.Pick.{pick_for_session}
use geo_proxy.Selector.Pick.Outcome.{Outcome, PickedFor, pick_for_session-Outcome}
use geo_proxy.Selector.Resolve.{
  bind_picked, rebind, second_look, first_look, release_found, release_stale_binding,
  sticky_bound_proxy, sticky_found,
}
use geo_proxy.Selector.Resolve.Effect.{Effect-trans, remove-Effect, bind-Effect}
use geo_proxy.Selector.Resolve.Serves.{Lawful, sticky-Serves, chosen-Serves}
use geo_proxy.Selector.Resolve.Results.{
  After, Resolved, earlier, Calm-After, bound-after_get, bind-BoundTo,
}

module _ (rt : Runtime) (f : Float64) (store : NodeStore) (cfg : Option Limits)
    (route : ParsedUsername) (excludes : List ℤ) where
  -- The bound node, or the store to go on with.
  abbrev pub Looked : Store → Option Proxy × Store → Type 0
  Looked s (some p, t) = Resolved rt f store cfg route excludes s (ok p, some t)
  Looked s (none, t) = Calm s t

  pub look :
      (s t : Store) (b : Option Binding)
      → Lawful rt f store cfg
      → Calm s t
      → After rt f store cfg route excludes s t
      → ((c : Binding) → b ≡ some c → seen t route.session ≡ some (record c { last_active = 0 }))
      → Looked s (sticky_found rt f store cfg route excludes b, t)
  look s t b laws calm after bound = go (sticky_found rt f store cfg route excludes b) refl
    where
      go : (o : Option Proxy) → sticky_found rt f store cfg route excludes b ≡ o → Looked s (o, t)
      go none e = calm
      go (some p) e =
          let (serves, found) = sticky-Serves rt f store cfg route excludes b p laws e in
          let (c, is, own) = found in
          (after, serves, (record c { last_active = 0 }, bound c is, own))

  pub sticky_bound_proxy-Looked :
      (s : Store)
      → Lawful rt f store cfg
      → IsConsistent s
      → Looked s (sticky_bound_proxy rt f store cfg route excludes s)
  unfolding sticky_bound_proxy
  sticky_bound_proxy-Looked s laws c =
      let calm = get-Calm route.session s c in
      look s (get route.session s).1 (get route.session s).0 laws calm
        (Calm-After rt f store cfg route excludes s _ c calm)
        (λ b e. bound-after_get rt f store cfg route excludes s b c e)

  -- The region to choose for, and a store in which no other session changed.
  abbrev pub Released : Store → Text × Store → Type 0
  Released s (region, t) =
      After rt f store cfg route excludes s t
      × ((bound : Text) × (region ≡ requested_or_bound_region route.region bound))

  pub release_found-Released :
      (s t : Store) (b : Option Binding)
      → IsConsistent t
      → After rt f store cfg route excludes s t
      → Released s (release_found rt f store cfg route b t)
  unfolding release_found requested_or_bound_region
  release_found-Released s t none c a = (a, ([], unbound route.region))
    where
      unbound : (r : Text) → r ≡ requested_or_bound_region r []
      unbound [] = refl
      unbound (b ∷ r) = refl
  release_found-Released s t (some b) c a =
      (Effect-trans route.session _ s t _ a (remove-Effect route.session _ t c), (b.region, refl))

  pub bind_picked-Resolved :
      (bound : Text) (s : Store) (r : Result Proxy × Option Store)
      → Lawful rt f store cfg
      → normalize_region rt route.region ≡ route.region
      → IsConsistent s
      → Outcome
          (PickedFor rt f store
            (requested_or_bound_region route.region bound)
            excludes
            route.unlock
            (max_sessions_per_proxy cfg)
            (proxy_cooldown_minutes cfg)
            s)
          s
          r
      → Resolved rt f store cfg route excludes s (bind_picked rt f store cfg route r)
  unfolding bind_picked
  bind_picked-Resolved bound s (ok p, some t) laws plain c (picked, k) =
      let there = k.quiet.follows.consistent in
      (
        Effect-trans route.session _ s t _ (Calm-After rt f store cfg route excludes s t c k) (
            bind-Effect rt f store cfg route _ _ p t there
              (λ on. ground (arith, picked.2.roomy on, occupancy-Quiet s t p.id c k.quiet))),
        chosen-Serves rt f store cfg route excludes bound _ _ s p laws plain picked,
        bind-BoundTo rt f store cfg route excludes _ p t there,
      )
  bind_picked-Resolved bound s (ok p, none) laws plain c h = h
  bind_picked-Resolved bound s (err e, some t) laws plain c k =
      Calm-After rt f store cfg route excludes s t c k
  bind_picked-Resolved bound s (err e, none) laws plain c h = h

  pub rebind-Resolved :
      (s : Store) (r : Text × Store)
      → Lawful rt f store cfg
      → normalize_region rt route.region ≡ route.region
      → Released s r
      → Resolved rt f store cfg route excludes s (rebind rt f store cfg route excludes r)
  unfolding rebind
  rebind-Resolved s (region, t) laws plain (a, (bound, e)) =
      earlier rt f store cfg route excludes s t _ a (
        bind_picked-Resolved bound t _ laws plain a.follows.consistent (
          subst
            (λ x.
              Outcome
                (PickedFor rt f store x excludes route.unlock (max_sessions_per_proxy cfg)
                  (proxy_cooldown_minutes cfg) t)
                t
                (pick_for_session rt f store region route.session excludes
                  (max_sessions_per_proxy cfg) (proxy_cooldown_minutes cfg) route.unlock (some t)))
            e
            (pick_for_session-Outcome rt f store region route.session excludes _ _ route.unlock t
              a.follows.consistent)))

  pub second_look-Resolved :
      (s : Store) (r : Option Proxy × Store)
      → Lawful rt f store cfg
      → normalize_region rt route.region ≡ route.region
      → IsConsistent s
      → Looked s r
      → Resolved rt f store cfg route excludes s (second_look rt f store cfg route excludes r)
  unfolding second_look release_stale_binding
  second_look-Resolved s (some p, t) laws plain c h = h
  second_look-Resolved s (none, t) laws plain c k =
      let here = k.quiet.follows.consistent in
      let asked = get-Calm route.session t here in
      let all = Calm-trans s t (get route.session t).1 k asked in
      rebind-Resolved s _ laws plain (
        release_found-Released s (get route.session t).1 (get route.session t).0
          asked.quiet.follows.consistent (Calm-After rt f store cfg route excludes s _ c all))

  pub first_look-Resolved :
      (s : Store) (r : Option Proxy × Store)
      → Lawful rt f store cfg
      → normalize_region rt route.region ≡ route.region
      → IsConsistent s
      → Looked s r
      → Resolved rt f store cfg route excludes s (first_look rt f store cfg route excludes r)
  unfolding first_look
  first_look-Resolved s (some p, t) laws plain c h = h
  first_look-Resolved s (none, t) laws plain c k =
      let here = k.quiet.follows.consistent in
      earlier rt f store cfg route excludes s t _ (Calm-After rt f store cfg route excludes s t c k)
        (second_look-Resolved t _ laws plain here (sticky_bound_proxy-Looked t laws here))
