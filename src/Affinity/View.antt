-- ===== src/Affinity/View.antt =====
-- What the sessions of a store are bound to, with the instants left out, and how each operation of
-- affinity/store.go changes it.
pub mod Effects
pub mod Cooling
use geo_proxy.Common.{
  ℕ, suc, ◌+◌, ◌≤◌, ◌≡◌, refl, sym, ◌∙◌, Bool, true, false, ◌&&◌, not, Option, none, some,
  if◌then◌else◌, arith, Bool-cases, Option-cases, inl, inr,
}
use geo_proxy.Common.Int.{ℤ, eq_ℤ, eq_ℤ_iff}
use geo_proxy.Common.Key.{Text, text_eq, text_eq_iff, text_key}
use geo_proxy.Common.Assoc.{
  lookup, assign, delete, lookup-assign, lookup-delete, delete-Distinct, Distinct,
}
use geo_proxy.Common.Assoc.Counting.{count_where, passes, count_where-delete, count_where_agree}
use geo_proxy.Affinity.{
  Binding, Store, expired, get, set_proxy, remove, set_cooldown, in_cooldown, count_by_proxy,
  attach_reverse, detach_reverse, remove_binding,
}
use geo_proxy.Affinity.Consistency.{
  IsConsistent, get-IsConsistent, set_proxy-IsConsistent, remove-IsConsistent, same-IsConsistent,
}
use geo_proxy.Affinity.Loops.{live, live-same, expired-same, Pruned}
use geo_proxy.Affinity.Occupancy.{occupancy, occupies, count_by_proxy-Counts}
use geo_proxy.Affinity.Sticky.{current, refreshed, get_lem}
use geo_proxy.Affinity.History.{in_cooldown-IsConsistent}

abbrev pub erase : Option Binding → Option Binding
erase none = none
erase (some b) = some (record b { last_active = 0 })

-- What a session is bound to now.
abbrev pub seen : Store → Text → Option Binding
seen s i = erase (current s i)

-- `t` comes from the consistent `s` at the same instant, and is consistent.
pub record Follows (s t : Store) : Type 0 where
  pub consistent : IsConsistent t
  pub now_kept : t.now ≡ s.now
  pub ttl_kept : t.ttl ≡ s.ttl

-- No session is bound to anything else than before.
pub record Quiet (s t : Store) : Type 0 where
  pub follows : Follows s t
  pub same : (i : Text) → seen t i ≡ seen s i

pub Quiet-refl : (s : Store) → IsConsistent s → Quiet s s
Quiet-refl s c = record {
  follows = record { consistent = c; now_kept = refl; ttl_kept = refl };
  same = λ i. refl;
}

pub Follows-trans : (s t u : Store) → Follows s t → Follows t u → Follows s u
Follows-trans s t u a b = record {
  consistent = b.consistent;
  now_kept = b.now_kept ∙ a.now_kept;
  ttl_kept = b.ttl_kept ∙ a.ttl_kept;
}

pub Quiet-trans : (s t u : Store) → Quiet s t → Quiet t u → Quiet s u
Quiet-trans s t u a b = record {
  follows = Follows-trans s t u a.follows b.follows;
  same = λ i. b.same i ∙ a.same i;
}

passes-seen :
    (s t : Store) (p : ℤ) (i : Text)
    → seen t i ≡ seen s i
    → passes (occupies t p) (lookup i t.bindings) ≡ passes (occupies s p) (lookup i s.bindings)
passes-seen s t p i e = ground arith

-- The occupancy depends on what the sessions are bound to, and on nothing else.
pub occupancy-Quiet :
    (s t : Store) (p : ℤ) → IsConsistent s → Quiet s t → occupancy t p ≡ occupancy s p
occupancy-Quiet s t p c q =
    count_where_agree (occupies t p) (occupies s p) t.bindings s.bindings
      q.follows.consistent.bindings_distinct c.bindings_distinct
      (λ i. passes-seen s t p i (q.same i))
