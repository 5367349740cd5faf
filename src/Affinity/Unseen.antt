-- ===== src/Affinity/Unseen.antt =====
-- What no later call on a store of affinity/store.go can tell: whether expired entries were collected.
use geo_proxy.Common.{
  ℕ, ◌+◌, ◌≡◌, refl, sym, ◌∙◌, ap, Bool, true, false, Option, none, some, if◌then◌else◌, arith,
  Option-cases, inl, inr,
}
use geo_proxy.Common.Int.{ℤ, eq_ℤ_iff}
use geo_proxy.Common.Key.{Text, text_eq, text_key, int_key}
use geo_proxy.Common.Assoc.{lookup, lookup-delete}
use geo_proxy.Affinity.{
  Binding, Store, expired, get, set_proxy, remove, remove_if_proxy_id, in_cooldown,
  cooldown_remaining, attach_reverse, detach_reverse, remove_binding,
}
use geo_proxy.Affinity.Loops.{live, live-same}
use geo_proxy.Affinity.Sticky.{current, refreshed, bound_to, lookup-get, remove_if_proxy_id_lem}
use geo_proxy.Affinity.Sweeping.{still}
use geo_proxy.Affinity.View.Effects.{lookup-set_proxy, lookup-remove, now-get}
use geo_proxy.Affinity.History.{Call, sets_ttl}

-- Every call but `SetTTL`.
abbrev pub keeps_ttl : Call → Bool
keeps_ttl (sets_ttl ttl) = false
keeps_ttl _ = true

-- The same instant and ttl, the same live bindings, the same cooldowns that are not over.
pub record Alike (s t : Store) : Type 0 where
  pub now_same : t.now ≡ s.now
  pub ttl_same : t.ttl ≡ s.ttl
  pub bound_same : (i : Text) → current t i ≡ current s i
  pub cool_same : (p : ℤ) → still t.now (lookup p t.cooldown) ≡ still s.now (lookup p s.cooldown)

pub Alike-trans : (s t u : Store) → Alike s t → Alike t u → Alike s u
Alike-trans s t u a b = record {
  now_same = b.now_same ∙ a.now_same;
  ttl_same = b.ttl_same ∙ a.ttl_same;
  bound_same = λ i. b.bound_same i ∙ a.bound_same i;
  cool_same = λ p. b.cool_same p ∙ a.cool_same p;
}

pub Alike-sym : (s t : Store) → Alike s t → Alike t s
Alike-sym s t a = record {
  now_same = sym a.now_same;
  ttl_same = sym a.ttl_same;
  bound_same = λ i. sym (a.bound_same i);
  cool_same = λ p. sym (a.cool_same p);
}

pub get-cooldown : (i : Text) (s : Store) → (get i s).1.cooldown ≡ s.cooldown
unfolding get remove_binding detach_reverse
get-cooldown i s = ground arith

pub remove-cooldown : (i : Text) (s : Store) → (remove i s).cooldown ≡ s.cooldown
unfolding remove remove_binding detach_reverse
remove-cooldown i s = ground arith

pub remove_if-cooldown :
    (i : Text) (p : ℤ) (s : Store) → (remove_if_proxy_id i p s).1.cooldown ≡ s.cooldown
unfolding remove_if_proxy_id remove_binding detach_reverse
remove_if-cooldown i p s = ground arith

pub set_proxy-cooldown :
    (i : Text) (p : ℤ) (a r : Text) (s : Store) → (set_proxy i p a r s).cooldown ≡ s.cooldown
unfolding set_proxy attach_reverse detach_reverse
set_proxy-cooldown i p a r s = ground arith

live-refreshed : (s : Store) (o : Option Binding) → live s (refreshed s o) ≡ refreshed s o
unfolding expired
live-refreshed s none = refl
live-refreshed s (some b) = ground arith

pub live_twice : (s : Store) (o : Option Binding) → live s (live s o) ≡ live s o
live_twice s none = refl
live_twice s (some b) = ground arith

module _ (i j : Text) (s : Store) where
  pub current-get :
      current (get i s).1 j ≡ (if text_eq i j then refreshed s (current s i) else current s j)
  current-get = ground (
    arith,
    lookup-get i j s,
    live-refreshed s (current s i),
    live-same s (get i s).1 (lookup j (get i s).1.bindings) (now-get i s).0 (now-get i s).1,
  )

  pub clock-set_proxy :
      (p : ℤ) (a r : Text)
      → ((set_proxy i p a r s).now ≡ s.now) × ((set_proxy i p a r s).ttl ≡ s.ttl)
  unfolding set_proxy attach_reverse detach_reverse
  clock-set_proxy p a r = (ground arith, ground arith)

  pub clock-remove : ((remove i s).now ≡ s.now) × ((remove i s).ttl ≡ s.ttl)
  unfolding remove remove_binding detach_reverse
  clock-remove = (ground arith, ground arith)

  pub clock-remove_if :
      (p : ℤ)
      → ((remove_if_proxy_id i p s).1.now ≡ s.now) × ((remove_if_proxy_id i p s).1.ttl ≡ s.ttl)
  unfolding remove_if_proxy_id remove_binding detach_reverse
  clock-remove_if p = (ground arith, ground arith)

  pub current-set_proxy :
      (p : ℤ) (a r : Text)
      → current (set_proxy i p a r s) j ≡ (
          if text_eq i j
          then live s
              (some (record { proxy_id = p; node_address = a; region = r; last_active = s.now }))
          else current s j)
  current-set_proxy p a r =
      let (n, l) = clock-set_proxy p a r in
      ground (
        arith,
        lookup-set_proxy i j p a r s,
        live-same s (set_proxy i p a r s) (lookup j (set_proxy i p a r s).bindings) n l,
      )

  pub current-remove : current (remove i s) j ≡ (if text_eq i j then none else current s j)
  current-remove =
      let (n, l) = clock-remove in
      ground
        (arith, lookup-remove i j s, live-same s (remove i s) (lookup j (remove i s).bindings) n l)

  pub current-remove_if :
      (p : ℤ)
      → current (remove_if_proxy_id i p s).1 j ≡ (
          if text_eq i j
          then (if bound_to p (current s i) then none else current s i)
          else current s j)
  current-remove_if p =
      let (n, l) = clock-remove_if p in
      let after = (remove_if_proxy_id i p s).1 in
      ground (
        arith,
        (remove_if_proxy_id_lem i p s).1 j,
        live_twice s (lookup i s.bindings),
        live-same s after (lookup j after.bindings) n l,
      )

-- A store with the same bindings and clock.
pub current_kept :
    (s t : Store) (j : Text)
    → t.now ≡ s.now
    → t.ttl ≡ s.ttl
    → t.bindings ≡ s.bindings
    → current t j ≡ current s j
current_kept s t j n l b = live-same s t (lookup j t.bindings) n l ∙ ap (λ m. live s (lookup j m)) b

-- What has expired or is over stays so.
pub live_later :
    (s : Store) (d : ℕ) (o : Option Binding)
    → live (record s { now = s.now + d }) (live s o) ≡ live (record s { now = s.now + d }) o
unfolding expired
live_later s d none = refl
live_later s d (some b) = ground arith

pub still_later : (n d : ℕ) (o : Option ℕ) → still (n + d) (still n o) ≡ still (n + d) o
still_later n d none = refl
still_later n d (some until) = ground arith

-- A question about a cooldown drops only one that is over.
module _ (p q : ℤ) (s : Store) where
  pub still-in_cooldown :
      still s.now (lookup q (in_cooldown p s).1.cooldown) ≡ still s.now (lookup q s.cooldown)
  unfolding in_cooldown
  still-in_cooldown = elim (Option-cases (lookup p s.cooldown)) [
    | inl e ↦ rw e refl
    | inr (until, e) ↦ ground (arith, lookup-delete p q s.cooldown, eq_ℤ_iff p q)
  ]

  pub still-remaining :
      still s.now (lookup q (cooldown_remaining p s).1.cooldown) ≡ still s.now (lookup q s.cooldown)
  unfolding cooldown_remaining
  still-remaining = elim (Option-cases (lookup p s.cooldown)) [
    | inl e ↦ rw e refl
    | inr (until, e) ↦ ground (arith, lookup-delete p q s.cooldown, eq_ℤ_iff p q)
  ]
