-- ===== src/Selector/Resolve/Freshness.antt =====
-- The binding that `Resolve` of selector/selector.go leaves for the node it returns.
use geo_proxy.Common.{
  ℕ, ◌+◌, ◌*◌, ◌≡◌, refl, sym, ◌∙◌, true, false, List, Option, none, some, arith,
}
use geo_proxy.Common.Int.{ℤ, pos_part}
use geo_proxy.Common.Key.{Text, text_eq_iff, text_key}
use geo_proxy.Common.Assoc.{lookup}
use geo_proxy.Storage.{Proxy}
use geo_proxy.Auth.{ParsedUsername}
use geo_proxy.Affinity.{Store, Binding, get, set_proxy}
use geo_proxy.Affinity.Sticky.{current, refreshed, lookup-get, get_lem}
use geo_proxy.Affinity.View.Effects.{
  lookup-set_proxy, now-get, now-set_proxy, set_cooldown-bindings, now-set_cooldown,
}
use geo_proxy.Selector.{
  Result, ok, err, NodeStore, Limits, Runtime, is_empty, region_mismatch, binding_region_mismatch,
  proxy_cooldown_minutes,
}
use geo_proxy.Selector.Score.{Float64}
use geo_proxy.Selector.Resolve.{
  minute, stale, sticky_found, sticky_bound_proxy, bind, bind_picked, rebind, first_look,
  second_look, resolve_session, resolve,
}
use geo_proxy.Selector.Resolve.Serves.{Lawful, sticky-Serves}

-- The session has a binding to the node, of this instant, that fits the region of the request.
pub record Fresh (rt : Runtime) (route : ParsedUsername) (p : Proxy) (t : Store) : Type 0 where
  pub binding : Binding
  pub stored : lookup route.session t.bindings ≡ some binding
  pub active : binding.last_active ≡ t.now
  pub owner : binding.proxy_id ≡ p.id
  pub fits : binding_region_mismatch rt binding route.region ≡ false

-- A result that returns a node leaves a fresh binding to it.
abbrev pub FreshOf : Runtime → ParsedUsername → Result Proxy × Option Store → Type 0
FreshOf rt route (ok p, some t) =
    region_mismatch rt p.region route.region ≡ false → Fresh rt route p t
FreshOf rt route (ok p, none) = Unit
FreshOf rt route (err e, t) = Unit

module _ (rt : Runtime) (f : Float64) (store : NodeStore) (cfg : Option Limits)
    (route : ParsedUsername) (excludes : List ℤ) where
  abbrev bound_of : Proxy → Store → Store
  bound_of p s = set_proxy route.session p.id p.address p.region s

  abbrev until_of : ℤ → Proxy → Store → ℕ
  until_of minutes p s = (bound_of p s).now + pos_part minutes * minute

  lookup-bind :
      (minutes : ℤ) (p : Proxy) (s : Store)
      → lookup route.session (bind rt f store cfg route minutes p s).bindings
        ≡ some (record {
          proxy_id = p.id;
          node_address = p.address;
          region = p.region;
          last_active = s.now;
        })
  unfolding bind
  lookup-bind minutes p s = ground (
    arith,
    set_cooldown-bindings p.id (until_of minutes p s) (bound_of p s),
    lookup-set_proxy route.session route.session p.id p.address p.region s,
    text_eq_iff route.session route.session,
  )

  now-bind :
      (minutes : ℤ) (p : Proxy) (s : Store) → (bind rt f store cfg route minutes p s).now ≡ s.now
  unfolding bind
  now-bind minutes p s = ground (
    arith,
    now-set_cooldown p.id (until_of minutes p s) (bound_of p s),
    now-set_proxy route.session p.id p.address p.region s,
  )

  bind_picked-FreshOf :
      (r : Result Proxy × Option Store) → FreshOf rt route (bind_picked rt f store cfg route r)
  unfolding bind_picked
  bind_picked-FreshOf (err e, s) = tt
  bind_picked-FreshOf (ok p, none) = tt
  bind_picked-FreshOf (ok p, some s) = λ right. record {
    binding = record {
      proxy_id = p.id;
      node_address = p.address;
      region = p.region;
      last_active = s.now;
    };
    stored = lookup-bind (proxy_cooldown_minutes cfg) p s;
    active = sym (now-bind (proxy_cooldown_minutes cfg) p s);
    owner = refl;
    fits = unfold binding_region_mismatch in right;
  }

  -- A sticky result leaves its binding refreshed.
  abbrev LeftFresh : Option Proxy × Store → Type 0
  LeftFresh (none, t) = Unit
  LeftFresh (some p, t) = Fresh rt route p t

  refreshed-active :
      (s : Store) (o : Option Binding) (b : Binding)
      → refreshed s o ≡ some b
      → b.last_active ≡ s.now
  refreshed-active s none b e = cc
  refreshed-active s (some c) b e = ground arith

  sticky_bound_proxy-LeftFresh :
      (s : Store)
      → Lawful rt f store cfg
      → LeftFresh (sticky_bound_proxy rt f store cfg route excludes s)
  unfolding sticky_bound_proxy
  sticky_bound_proxy-LeftFresh s laws = go (get route.session s).0 refl _ refl
    where
      go :
          (b : Option Binding)
          → (get route.session s).0 ≡ b
          → (o : Option Proxy) → sticky_found rt f store cfg route excludes b ≡ o
          → LeftFresh (o, (get route.session s).1)
      go b own none e = tt
      go none own (some p) e = unfold sticky_found in cc
      go (some b) own (some p) e =
          let (serves, found) = sticky-Serves rt f store cfg route excludes (some b) p laws e in
          let answer = (get_lem route.session s).0 in
          record {
            binding = b;
            stored = ground (
              arith,
              lookup-get route.session route.session s,
              text_eq_iff route.session route.session,
              answer,
              own,
            );
            active =
                refreshed-active s (current s route.session) b (sym answer ∙ own)
                ∙ sym (now-get route.session s).0;
            owner = ground (arith, found.1);
            fits = unfold sticky_found stale in ground (arith, e);
          }

  rebind-FreshOf : (r : Text × Store) → FreshOf rt route (rebind rt f store cfg route excludes r)
  unfolding rebind
  rebind-FreshOf (region, t) = bind_picked-FreshOf _

  second_look-FreshOf :
      (r : Option Proxy × Store)
      → LeftFresh r
      → FreshOf rt route (second_look rt f store cfg route excludes r)
  unfolding second_look
  second_look-FreshOf (some p, t) h = λ right. h
  second_look-FreshOf (none, t) h = rebind-FreshOf _

  first_look-FreshOf :
      (r : Option Proxy × Store)
      → Lawful rt f store cfg
      → LeftFresh r
      → FreshOf rt route (first_look rt f store cfg route excludes r)
  unfolding first_look
  first_look-FreshOf (some p, t) laws h = λ right. h
  first_look-FreshOf (none, t) laws h = second_look-FreshOf _ (sticky_bound_proxy-LeftFresh t laws)

  pub resolve-FreshOf :
      (rand : ℕ → ℕ) (s : Store)
      → Lawful rt f store cfg
      → is_empty route.node ≡ true
      → is_empty route.session ≡ false
      → FreshOf rt route (resolve rt f store cfg rand route excludes (some s))
  unfolding resolve resolve_session
  resolve-FreshOf rand s laws unpinned named =
      rw (unpinned, named) (first_look-FreshOf _ laws (sticky_bound_proxy-LeftFresh s laws))
