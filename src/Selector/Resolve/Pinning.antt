-- ===== src/Selector/Resolve/Pinning.antt =====
-- The pinned nodes in `Resolve` of selector/selector.go: their capacity, cooldown and binding.
use geo_proxy.Common.{
  ◌≡◌, refl, Bool, true, false, List, Option, none, some, inl, inr, arith, Bool-cases,
}
use geo_proxy.Common.Int.{ℤ, pos, ltb_ℤ, eq_ℤ_iff}
use geo_proxy.Storage.{Proxy}
use geo_proxy.Auth.{ParsedUsername}
use geo_proxy.Affinity.{Store, Binding, get}
use geo_proxy.Affinity.Consistency.{IsConsistent}
use geo_proxy.Affinity.Occupancy.{occupancy, count_by_proxy-Counts}
use geo_proxy.Affinity.View.{occupancy-Quiet}
use geo_proxy.Affinity.View.Cooling.{
  Calm, Calm-refl, Calm-trans, get-Calm, count_by_proxy-Calm, in_cooldown-Calm,
}
use geo_proxy.Selector.{
  Result, ok, err, NodeStore, Limits, Runtime, is_empty, max_sessions_per_proxy,
  proxy_cooldown_minutes,
}
use geo_proxy.Selector.Score.{Float64}
use geo_proxy.Selector.Resolve.{
  pin_cooldown, ask_cooldown, ask_full, pin_capacity, bound_here, pin_session, resolve_pin,
}
use geo_proxy.Selector.Resolve.Effect.{Effect-trans, bind-Effect}
use geo_proxy.Selector.Resolve.Serves.{Serves}
use geo_proxy.Selector.Resolve.Results.{
  Resolved, earlier, Calm-After, bound-after_get, bind-BoundTo,
}

module _ (rt : Runtime) (f : Float64) (store : NodeStore) (cfg : Option Limits)
    (route : ParsedUsername) (excludes : List ℤ) where
  -- A question whose answer `false` says that there is room.
  abbrev pub Asked : Store → Proxy → Bool × Store → Type 0
  Asked s p (full, t) =
      Calm s t
      × (full ≡ false
          → ltb_ℤ (pos 0) (max_sessions_per_proxy cfg) ≡ true
          → ltb_ℤ (pos (occupancy s p.id)) (max_sessions_per_proxy cfg) ≡ true)

  pub ask_full-Asked :
      (p : Proxy) (s : Store)
      → IsConsistent s
      → Asked s p (ask_full rt f store cfg (max_sessions_per_proxy cfg) p s)
  unfolding ask_full
  ask_full-Asked p s c = elim (Bool-cases (ltb_ℤ (pos 0) (max_sessions_per_proxy cfg))) [
    | inl on ↦
        rw on (
          count_by_proxy-Calm p.id s c,
          λ free _. ground (arith, (count_by_proxy-Counts p.id s c).0),
        )
    | inr off ↦ rw off (Calm-refl s c, λ free on. cc)
  ]

  pub ask_cooldown-Calm :
      (minutes : ℤ) (p : Proxy) (s : Store)
      → IsConsistent s
      → Calm s (ask_cooldown rt f store cfg minutes p s).1
  unfolding ask_cooldown
  ask_cooldown-Calm minutes p s c = elim (Bool-cases (ltb_ℤ (pos 0) minutes)) [
    | inl on ↦ rw on (in_cooldown-Calm p.id s c)
    | inr off ↦ rw off (Calm-refl s c)
  ]

  -- The result with the store wrapped, as `Resolve` returns it.
  abbrev pub wrap : Result Proxy × Store → Result Proxy × Option Store
  wrap (r, t) = (r, some t)

  pub pin_cooldown-Resolved :
      (p : Proxy) (s : Store) (r : Bool × Store)
      → Serves rt f store cfg route excludes p
      → IsConsistent s
      → Calm s r.1
      → (ltb_ℤ (pos 0) (max_sessions_per_proxy cfg) ≡ true
          → ltb_ℤ (pos (occupancy s p.id)) (max_sessions_per_proxy cfg) ≡ true)
      → Resolved rt f store cfg route excludes s
          (wrap (pin_cooldown rt f store cfg route (proxy_cooldown_minutes cfg) p r))
  unfolding pin_cooldown
  pin_cooldown-Resolved p s (true, t) g c k room = Calm-After rt f store cfg route excludes s t c k
  pin_cooldown-Resolved p s (false, t) g c k room =
      let there = k.quiet.follows.consistent in
      (
        Effect-trans route.session _ s t _ (Calm-After rt f store cfg route excludes s t c k) (
            bind-Effect rt f store cfg route _ _ p t there
              (λ on. ground (arith, room on, occupancy-Quiet s t p.id c k.quiet))),
        g,
        bind-BoundTo rt f store cfg route excludes _ p t there,
      )

  pub pin_capacity-Resolved :
      (p : Proxy) (s : Store) (r : Bool × Store)
      → Serves rt f store cfg route excludes p
      → IsConsistent s
      → Asked s p r
      → Resolved rt f store cfg route excludes s
          (wrap (pin_capacity rt f store cfg route (proxy_cooldown_minutes cfg) p r))
  unfolding pin_capacity
  pin_capacity-Resolved p s (true, t) g c (k, room) =
      Calm-After rt f store cfg route excludes s t c k
  pin_capacity-Resolved p s (false, t) g c (k, room) =
      pin_cooldown-Resolved p s (ask_cooldown rt f store cfg _ p t) g c
        (Calm-trans s t _ k (ask_cooldown-Calm _ p t k.quiet.follows.consistent)) (room refl)

  pub bound_here-own :
      (p : Proxy) (o : Option Binding)
      → bound_here rt f store cfg p o ≡ true
      → (b : Binding) × (o ≡ some b) × (b.proxy_id ≡ p.id)
  unfolding bound_here
  bound_here-own p none e = cc
  bound_here-own p (some b) e = (b, refl, (eq_ℤ_iff b.proxy_id p.id).0 e)

  pub pin_session-Resolved :
      (p : Proxy) (s : Store)
      → Serves rt f store cfg route excludes p
      → IsConsistent s
      → Resolved rt f store cfg route excludes s (wrap (pin_session rt f store cfg route p s))
  unfolding pin_session
  pin_session-Resolved p s g c =
      let i = route.session in
      let calm = get-Calm i s c in
      let t = (get i s).1 in
      let there = calm.quiet.follows.consistent in
      elim (Bool-cases (bound_here rt f store cfg p (get i s).0)) [
        | inl here ↦
            let (b, is, own) = bound_here-own p (get i s).0 here in
            rw here (
              Calm-After rt f store cfg route excludes s t c calm,
              g,
              (
                record b { last_active = 0 },
                bound-after_get rt f store cfg route excludes s b c is,
                own,
              ),
            )
        | inr new ↦ rw new (
            earlier rt f store cfg route excludes s t
              (wrap (
                pin_capacity rt f store cfg route (proxy_cooldown_minutes cfg) p
                  (ask_full rt f store cfg (max_sessions_per_proxy cfg) p t)))
              (Calm-After rt f store cfg route excludes s t c calm)
              (pin_capacity-Resolved p t _ g there (ask_full-Asked p t there)))
      ]

  pub resolve_pin-Resolved :
      (s : Store) (r : Result Proxy)
      → ((p : Proxy) → r ≡ ok p → Serves rt f store cfg route excludes p)
      → is_empty route.session ≡ false
      → IsConsistent s
      → Resolved rt f store cfg route excludes s (resolve_pin rt f store cfg route r (some s))
  unfolding resolve_pin
  resolve_pin-Resolved s (err e) g named c =
      Calm-After rt f store cfg route excludes s s c (Calm-refl s c)
  resolve_pin-Resolved s (ok p) g named c = rw named (pin_session-Resolved p s (g p refl) c)
