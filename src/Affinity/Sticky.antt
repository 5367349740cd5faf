-- ===== src/Affinity/Sticky.antt =====
-- What `Get`, `SetProxy`, `Remove` and `RemoveIfProxyID` of affinity/store.go return and change.
use geo_proxy.Common.{
  ℕ, ◌+◌, ◌≡◌, Bool, false, ◌&&◌, Option, none, some, if◌then◌else◌, arith, Option-cases, inl, inr,
}
use geo_proxy.Common.Int.{ℤ, pos, eq_ℤ, ltb_ℤ, leb_ℤ}
use geo_proxy.Common.Key.{Text, text_eq, text_eq_iff, text_key}
use geo_proxy.Common.Assoc.{lookup, lookup-assign, lookup-delete}
use geo_proxy.Affinity.{
  Binding, Store, expired, detach_reverse, remove_binding, attach_reverse, get, set_proxy,
  remove_if_proxy_id,
}
use geo_proxy.Affinity.Loops.{live}

-- The binding of a session as the store would return it now.
abbrev pub current : Store → Text → Option Binding
current s i = live s (lookup i s.bindings)

abbrev pub refreshed : Store → Option Binding → Option Binding
refreshed s none = none
refreshed s (some b) = some (record b { last_active = s.now })

pub lookup-get :
    (i j : Text) (s : Store)
    → lookup j (get i s).1.bindings
      ≡ (if text_eq i j then refreshed s (current s i) else lookup j s.bindings)
unfolding get remove_binding detach_reverse
lookup-get i j s = elim (Option-cases (lookup i s.bindings)) [
  | inl e ↦ ground (arith, text_eq_iff i j)
  | inr (b, e) ↦ ground (
    arith,
    lookup-delete i j s.bindings,
    lookup-assign i j (record b { last_active = s.now }) s.bindings,
  )
]

-- `get` returns the binding, refreshed, exactly if it is live, and stores what it returns (nothing,
-- if the binding is missing or has expired); no other session's binding changes.
pub get_lem :
    (i : Text) (s : Store)
    → ((get i s).0 ≡ refreshed s (current s i))
      × ((j : Text)
          → lookup j (get i s).1.bindings
            ≡ (if text_eq i j then refreshed s (current s i) else lookup j s.bindings))
unfolding get
get_lem i s = (ground arith, λ j. lookup-get i j s)

-- What `set_proxy` stores, `get` returns after a wait of `d`, with the instant of the call, exactly
-- while `d` is below a positive ttl (always, if the ttl is not positive).
pub get-set_proxy :
    (i : Text) (p : ℤ) (a r : Text) (s : Store) (d : ℕ)
    → let bound = set_proxy i p a r s in
      (get i (record bound { now = bound.now + d })).0 ≡ (
        if ltb_ℤ (pos 0) s.ttl && leb_ℤ s.ttl (pos d)
        then none
        else some (record { proxy_id = p; node_address = a; region = r; last_active = s.now + d }))
unfolding get set_proxy attach_reverse detach_reverse expired
get-set_proxy i p a r s d = ground (
  arith,
  text_eq_iff i i,
  lookup-assign i i (record { proxy_id = p; node_address = a; region = r; last_active = s.now })
      s.bindings,
)

lookup-remove_if :
    (i j : Text) (p : ℤ) (s : Store)
    → lookup j (remove_if_proxy_id i p s).1.bindings ≡ (
        if text_eq i j
        then (elim (current s i) [
          | none ↦ none
          | some b ↦ if eq_ℤ b.proxy_id p then none else some b
        ])
        else lookup j s.bindings)
unfolding remove_if_proxy_id remove_binding detach_reverse
lookup-remove_if i j p s = elim (Option-cases (lookup i s.bindings)) [
  | inl e ↦ ground (arith, text_eq_iff i j)
  | inr (b, e) ↦ ground (arith, text_eq_iff i j, lookup-delete i j s.bindings)
]

abbrev pub bound_to : ℤ → Option Binding → Bool
bound_to p none = false
bound_to p (some b) = eq_ℤ b.proxy_id p

-- `remove_if_proxy_id` answers true exactly if the session has a live binding to that proxy, and
-- then the binding is gone; a live binding to another proxy stays, and so does every binding of
-- another session.
pub remove_if_proxy_id_lem :
    (i : Text) (p : ℤ) (s : Store)
    → ((remove_if_proxy_id i p s).0 ≡ bound_to p (current s i))
      × ((j : Text)
          → lookup j (remove_if_proxy_id i p s).1.bindings ≡ (
              if text_eq i j
              then (if bound_to p (current s i) then none else current s i)
              else lookup j s.bindings))
unfolding remove_if_proxy_id
remove_if_proxy_id_lem i p s = (ground arith, λ j. ground (arith, lookup-remove_if i j p s))
