-- ===== src/Affinity/Alike.antt =====
-- Stores of affinity/store.go that no call but `SetTTL` tells apart.
use geo_proxy.Common.{ℕ, ◌+◌, ◌≡◌, refl, sym, ◌∙◌, ap, true, Option, none, some, arith, is_some}
use geo_proxy.Common.Int.{ℤ}
use geo_proxy.Common.Key.{Text, text_key, int_key}
use geo_proxy.Common.Assoc.{lookup, Distinct, lookup-assign}
use geo_proxy.Affinity.{
  Binding, Store, expired, get, set_proxy, remove, remove_if_proxy_id, set_cooldown, in_cooldown,
  cooldown_remaining, count_by_proxy, collect_expired,
}
use geo_proxy.Affinity.Consistency.{IsConsistent}
use geo_proxy.Affinity.Loops.{live, live-same}
use geo_proxy.Affinity.Occupancy.{count_by_proxy-Counts}
use geo_proxy.Affinity.Sticky.{current, refreshed, get_lem}
use geo_proxy.Affinity.Sweeping.{still, in_cooldown-still}
use geo_proxy.Affinity.View.{erase, occupancy-Quiet}
use geo_proxy.Affinity.View.Effects.{now-get}
use geo_proxy.Affinity.Questions.{
  in_cooldown-Alike, cooldown_remaining-Alike, count_by_proxy-Alike, collect_expired-Alike, left_of,
  remaining-still,
}
use geo_proxy.Affinity.Unseen.{
  keeps_ttl, get-cooldown, remove-cooldown, remove_if-cooldown, set_proxy-cooldown, Alike,
  Alike-trans, Alike-sym, clock-set_proxy, clock-remove, clock-remove_if, current-get,
  current-set_proxy, current-remove, current-remove_if, live_later, still_later,
}
use geo_proxy.Affinity.History.{
  Call, gets, removes, sets, removes_if, cools, asks_cooldown, asks_remaining, counts, collects,
  sets_ttl, waits, step,
}

refreshed-same : (s t : Store) (o : Option Binding) → t.now ≡ s.now → refreshed t o ≡ refreshed s o
refreshed-same s t none n = refl
refreshed-same s t (some b) n = rw n refl

-- The same call on stores that are alike leaves stores that are alike.
module _ (s t : Store) (a : Alike s t) where
  cool_kept :
      (u v : Store) (p : ℤ)
      → u.now ≡ s.now
      → v.now ≡ t.now
      → u.cooldown ≡ s.cooldown
      → v.cooldown ≡ t.cooldown
      → still v.now (lookup p v.cooldown) ≡ still u.now (lookup p u.cooldown)
  cool_kept u v p n m e f = rw (n, m, e, f, a.cool_same p) refl

  get-Alike : (i : Text) → Alike (get i s).1 (get i t).1
  get-Alike i = record {
    now_same = (now-get i t).0 ∙ a.now_same ∙ sym (now-get i s).0;
    ttl_same = (now-get i t).1 ∙ a.ttl_same ∙ sym (now-get i s).1;
    bound_same = λ j. ground (
      arith,
      current-get i j s,
      current-get i j t,
      a.bound_same i,
      a.bound_same j,
      refreshed-same s t (current s i) a.now_same,
    );
    cool_same = λ p.
        cool_kept (get i s).1 (get i t).1 p (now-get i s).0 (now-get i t).0 (get-cooldown i s)
          (get-cooldown i t);
  }

  remove-Alike : (i : Text) → Alike (remove i s) (remove i t)
  remove-Alike i = record {
    now_same = (clock-remove i i t).0 ∙ a.now_same ∙ sym (clock-remove i i s).0;
    ttl_same = (clock-remove i i t).1 ∙ a.ttl_same ∙ sym (clock-remove i i s).1;
    bound_same = λ j. ground (arith, current-remove i j s, current-remove i j t, a.bound_same j);
    cool_same = λ p.
        cool_kept (remove i s) (remove i t) p (clock-remove i i s).0 (clock-remove i i t).0
          (remove-cooldown i s) (remove-cooldown i t);
  }

  remove_if-Alike :
      (i : Text) (p : ℤ) → Alike (remove_if_proxy_id i p s).1 (remove_if_proxy_id i p t).1
  remove_if-Alike i p =
      let (n, l) = clock-remove_if i i s p in
      let (m, k) = clock-remove_if i i t p in
      record {
        now_same = m ∙ a.now_same ∙ sym n;
        ttl_same = k ∙ a.ttl_same ∙ sym l;
        bound_same = λ j. ground (
          arith,
          current-remove_if i j s p,
          current-remove_if i j t p,
          a.bound_same i,
          a.bound_same j,
        );
        cool_same = λ q.
            cool_kept (remove_if_proxy_id i p s).1 (remove_if_proxy_id i p t).1 q n m
              (remove_if-cooldown i p s) (remove_if-cooldown i p t);
      }

  set_proxy-Alike :
      (i : Text) (p : ℤ) (w r : Text) → Alike (set_proxy i p w r s) (set_proxy i p w r t)
  set_proxy-Alike i p w r =
      let (n, l) = clock-set_proxy i i s p w r in
      let (m, k) = clock-set_proxy i i t p w r in
      let new : Option Binding =
        some (record { proxy_id = p; node_address = w; region = r; last_active = s.now }) in
      record {
        now_same = m ∙ a.now_same ∙ sym n;
        ttl_same = k ∙ a.ttl_same ∙ sym l;
        bound_same = λ j. ground (
          arith,
          current-set_proxy i j s p w r,
          current-set_proxy i j t p w r,
          a.bound_same j,
          a.now_same,
          live-same s t new a.now_same a.ttl_same,
        );
        cool_same = λ q.
            cool_kept (set_proxy i p w r s) (set_proxy i p w r t) q n m
              (set_proxy-cooldown i p w r s) (set_proxy-cooldown i p w r t);
      }

  set_cooldown-Alike : (p : ℤ) (until : ℕ) → Alike (set_cooldown p until s) (set_cooldown p until t)
  unfolding set_cooldown
  set_cooldown-Alike p until = record {
    now_same = a.now_same;
    ttl_same = a.ttl_same;
    bound_same = λ i. unfold expired in a.bound_same i;
    cool_same = λ q. ground (
      arith,
      lookup-assign p q until s.cooldown,
      lookup-assign p q until t.cooldown,
      a.cool_same q,
      a.now_same,
    );
  }

  waits-Alike : (d : ℕ) → Alike (record s { now = s.now + d }) (record t { now = t.now + d })
  waits-Alike d = record {
    now_same = ap (λ n. n + d) a.now_same;
    ttl_same = a.ttl_same;
    bound_same = λ i.
        sym (live_later t d (lookup i t.bindings))
        ∙ ap (live (record t { now = t.now + d })) (a.bound_same i)
        ∙ live-same (record s { now = s.now + d }) (record t { now = t.now + d }) (current s i)
            (ap (λ n. n + d) a.now_same) a.ttl_same
        ∙ live_later s d (lookup i s.bindings);
    cool_same = λ p.
        sym (still_later t.now d (lookup p t.cooldown))
        ∙ ap (still (t.now + d)) (a.cool_same p)
        ∙ ap (λ n. still (n + d) (still s.now (lookup p s.cooldown))) a.now_same
        ∙ still_later s.now d (lookup p s.cooldown);
  }

  around : (u v : Store) → Alike s u → Alike t v → Alike u v
  around u v b e = Alike-trans u s v (Alike-sym s u b) (Alike-trans s t v a e)

  pub step-Alike :
      (c : Call)
      → keeps_ttl c ≡ true
      → IsConsistent s
      → IsConsistent t
      → Distinct s.cooldown
      → Distinct t.cooldown
      → Alike (step s c) (step t c)
  unfolding step
  step-Alike (gets i) k v w d e = get-Alike i
  step-Alike (removes i) k v w d e = remove-Alike i
  step-Alike (sets i p x r) k v w d e = set_proxy-Alike i p x r
  step-Alike (removes_if i p) k v w d e = remove_if-Alike i p
  step-Alike (cools p until) k v w d e = set_cooldown-Alike p until
  step-Alike (asks_cooldown p) k v w d e =
      around (in_cooldown p s).1 (in_cooldown p t).1 (in_cooldown-Alike p s) (in_cooldown-Alike p t)
  step-Alike (asks_remaining p) k v w d e =
      around (cooldown_remaining p s).1 (cooldown_remaining p t).1 (cooldown_remaining-Alike p s)
        (cooldown_remaining-Alike p t)
  step-Alike (counts p) k v w d e =
      around (count_by_proxy p s).1 (count_by_proxy p t).1 (count_by_proxy-Alike p s v)
        (count_by_proxy-Alike p t w)
  step-Alike collects k v w d e =
      around (collect_expired s) (collect_expired t) (collect_expired-Alike s v d)
        (collect_expired-Alike t w e)
  step-Alike (sets_ttl ttl) k v w d e = absurd (ground (arith, k))
  step-Alike (waits n) k v w d e = waits-Alike n

  -- Stores that are alike answer alike.
  pub get_same : (i : Text) → (get i t).0 ≡ (get i s).0
  get_same i = ground (
    arith,
    (get_lem i s).0,
    (get_lem i t).0,
    a.bound_same i,
    refreshed-same s t (current s i) a.now_same,
  )

  pub in_cooldown_same : (p : ℤ) → (in_cooldown p t).0 ≡ (in_cooldown p s).0
  in_cooldown_same p =
      in_cooldown-still p t ∙ ap is_some (a.cool_same p) ∙ sym (in_cooldown-still p s)

  pub remaining_same : (p : ℤ) → (cooldown_remaining p t).0 ≡ (cooldown_remaining p s).0
  remaining_same p =
      remaining-still p t
      ∙ ap (λ n. left_of n (still t.now (lookup p t.cooldown))) a.now_same
      ∙ ap (left_of s.now) (a.cool_same p)
      ∙ sym (remaining-still p s)

  pub count_same :
      (p : ℤ) → IsConsistent s → IsConsistent t → (count_by_proxy p t).0 ≡ (count_by_proxy p s).0
  count_same p c e =
      (count_by_proxy-Counts p t e).0
      ∙ occupancy-Quiet s t p c (record {
        follows = record { consistent = e; now_kept = a.now_same; ttl_kept = a.ttl_same };
        same = λ i. ap erase (a.bound_same i);
      })
      ∙ sym ((count_by_proxy-Counts p s c).0)
