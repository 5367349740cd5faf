-- ===== src/Selector/Resolve/Results.antt =====
-- What is to be shown of a result of `Resolve` in selector/selector.go, and its first steps.
use geo_proxy.Common.{◌+◌, ◌*◌, ◌≡◌, refl, List, Option, none, some, arith}
use geo_proxy.Common.Int.{ℤ, pos_part}
use geo_proxy.Common.Key.{Text, text_eq_iff}
use geo_proxy.Storage.{Proxy}
use geo_proxy.Auth.{ParsedUsername}
use geo_proxy.Affinity.{Store, Binding, get, set_proxy}
use geo_proxy.Affinity.Consistency.{IsConsistent}
use geo_proxy.Affinity.Sticky.{get_lem}
use geo_proxy.Affinity.View.{seen}
use geo_proxy.Affinity.View.Effects.{seen-set_proxy, set_cooldown-Quiet, set_proxy-Follows}
use geo_proxy.Affinity.View.Cooling.{Calm, get-Calm}
use geo_proxy.Selector.{Result, ok, err, NodeStore, Limits, Runtime, max_sessions_per_proxy}
use geo_proxy.Selector.Score.{Float64}
use geo_proxy.Selector.Resolve.{minute, bind}
use geo_proxy.Selector.Resolve.Effect.{Effect, Effect-trans, Quiet-Effect}
use geo_proxy.Selector.Resolve.Serves.{Serves}

-- The session is bound to the node.
abbrev pub BoundTo : Store → Text → Proxy → Type 0
BoundTo t i p = (b : Binding) × (seen t i ≡ some b) × (b.proxy_id ≡ p.id)

module _ (rt : Runtime) (f : Float64) (store : NodeStore) (cfg : Option Limits)
    (route : ParsedUsername) (excludes : List ℤ) where
  abbrev pub After : Store → Store → Type 0
  After s t = Effect route.session (max_sessions_per_proxy cfg) s t

  abbrev pub Good : Store → Proxy → Type 0
  Good t p = Serves rt f store cfg route excludes p × BoundTo t route.session p

  -- A node that may serve, to which the session is bound in the store that is left; or an error.
  abbrev pub Resolved : Store → Result Proxy × Option Store → Type 0
  Resolved s (ok p, some t) =
      Effect route.session (max_sessions_per_proxy cfg) s t
      × Serves rt f store cfg route excludes p
      × BoundTo t route.session p
  Resolved s (err e, some t) = Effect route.session (max_sessions_per_proxy cfg) s t
  Resolved s (_, none) = ⊥

  pub earlier :
      (s t : Store) (r : Result Proxy × Option Store) → After s t → Resolved t r → Resolved s r
  earlier s t (ok p, some u) a (b, g, bound) = (Effect-trans route.session _ s t u a b, g, bound)
  earlier s t (ok p, none) a b = b
  earlier s t (err e, some u) a b = Effect-trans route.session _ s t u a b
  earlier s t (err e, none) a b = b

  pub Calm-After : (s t : Store) → IsConsistent s → Calm s t → After s t
  Calm-After s t c k = Quiet-Effect route.session _ s t c k.quiet

  pub bound-after_get :
      (s : Store) (b : Binding)
      → IsConsistent s
      → (get route.session s).0 ≡ some b
      → seen (get route.session s).1 route.session ≡ some (record b { last_active = 0 })
  bound-after_get s b c e =
      ground
        (arith, (get-Calm route.session s c).quiet.same route.session, (get_lem route.session s).0)

  pub bind-BoundTo :
      (minutes : ℤ) (p : Proxy) (s : Store)
      → IsConsistent s
      → BoundTo (bind rt f store cfg route minutes p s) route.session p
  unfolding bind
  bind-BoundTo minutes p s c =
      let i = route.session in
      let bound = set_proxy i p.id p.address p.region s in
      let there = set_proxy-Follows i p.id p.address p.region s c in
      (
        record { proxy_id = p.id; node_address = p.address; region = p.region; last_active = 0 },
        ground (
          arith,
          text_eq_iff i i,
          seen-set_proxy i i p.id p.address p.region s c,
          (set_cooldown-Quiet p.id (bound.now + pos_part (minutes) * minute) bound
                there.consistent).same
              i,
        ),
        refl,
      )
