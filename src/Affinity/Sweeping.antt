-- ===== src/Affinity/Sweeping.antt =====
-- `InCooldown`, `CooldownRemaining` and `collectExpired` of affinity/store.go.
use geo_proxy.Common.{
  ℕ, ◌+◌, ◌≡◌, refl, [], ◌∷◌, Option, none, some, if◌then◌else◌, ltb, is_some, arith,
}
use geo_proxy.Common.Int.{ℤ, pos, eq_ℤ, eq_ℤ_iff, ltb_ℤ}
use geo_proxy.Common.Key.{Text, text_key, int_key}
use geo_proxy.Common.Assoc.{Map, lookup, Distinct, lookup-assign}
use geo_proxy.Affinity.{
  Binding, Store, set_cooldown, in_cooldown, cooldown_remaining, running, sweep, collect_expired,
}
use geo_proxy.Affinity.Consistency.{IsConsistent}
use geo_proxy.Affinity.Loops.{live, live-same, Swept, sweep_lem}
use geo_proxy.Affinity.Sticky.{current}

-- The end of a cooldown that has not come yet.
abbrev pub still : ℕ → Option ℕ → Option ℕ
still now none = none
still now (some until) = if ltb now until then some until else none

-- `in_cooldown` holds exactly before the recorded end, exactly if `cooldown_remaining` is positive;
-- after `set_cooldown` and a wait of `d` it holds of that proxy exactly while the end is later than
-- the clock, and of any other proxy exactly if it held there without the call.
pub in_cooldown-set_cooldown :
    (p q : ℤ) (until d : ℕ) (s : Store)
    → let later = record s { now = s.now + d } in
      let cooled = record (set_cooldown p until s) { now = s.now + d } in
      ((in_cooldown q cooled).0
        ≡ (if eq_ℤ p q then ltb (s.now + d) until else (in_cooldown q later).0))
      × ((in_cooldown q cooled).0 ≡ ltb_ℤ (pos 0) (cooldown_remaining q cooled).0)
unfolding in_cooldown set_cooldown cooldown_remaining
in_cooldown-set_cooldown p q until d s = (
  ground (arith, lookup-assign p q until s.cooldown),
  ground (arith, lookup-assign p q until s.cooldown),
)

pub lookup-running :
    (p : ℤ) (now : ℕ) (m : Map ℤ ℕ) → Distinct m → lookup p (running now m) ≡ still now (lookup p m)
unfolding running lookup
lookup-running p now [] d = refl
lookup-running p now ((q, until) ∷ m) d = ground (arith, lookup-running p now m d.1, eq_ℤ_iff q p)

pub in_cooldown-still :
    (p : ℤ) (s : Store) → (in_cooldown p s).0 ≡ is_some (still s.now (lookup p s.cooldown))
unfolding in_cooldown
in_cooldown-still p s = ground arith

pub still_again : (now : ℕ) (o : Option ℕ) → still now (still now o) ≡ still now o
still_again now none = refl
still_again now (some until) = ground arith

live_again : (s : Store) (o : Option Binding) → live s (live s o) ≡ live s o
live_again s none = refl
live_again s (some b) = ground arith

module _ (s : Store) (c : IsConsistent s) (d : Distinct s.cooldown) where
  swept : Swept s.bindings s (sweep s.bindings s)
  swept = sweep_lem s.bindings s c.bindings_distinct (λ i b e. e) c

  pub lookup-collect_expired :
      (i : Text) → lookup i (collect_expired s).bindings ≡ live s (lookup i s.bindings)
  unfolding collect_expired
  lookup-collect_expired i = ground (arith, swept.at_key i)

  pub cooldown-collect_expired :
      (p : ℤ) → lookup p (collect_expired s).cooldown ≡ still s.now (lookup p s.cooldown)
  unfolding collect_expired
  cooldown-collect_expired p = rw swept.cooldown_kept (lookup-running p s.now s.cooldown d)

  pub now-collect_expired : (collect_expired s).now ≡ s.now
  unfolding collect_expired
  now-collect_expired = swept.now_kept

  pub ttl-collect_expired : (collect_expired s).ttl ≡ s.ttl
  unfolding collect_expired
  ttl-collect_expired = swept.ttl_kept

  pub current-collect_expired : (i : Text) → current (collect_expired s) i ≡ current s i
  current-collect_expired i = ground (
    arith,
    lookup-collect_expired i,
    live_again s (lookup i s.bindings),
    live-same s (collect_expired s) (live s (lookup i s.bindings)) now-collect_expired
        ttl-collect_expired,
  )
