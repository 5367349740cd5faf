-- ===== src/Affinity/View/Effects.antt =====
-- The effect of each operation of affinity/store.go on what the sessions are bound to.
use geo_proxy.Common.{ℕ, ◌+◌, ◌≤◌, ◌≡◌, refl, false, Option, none, some, if◌then◌else◌, arith}
use geo_proxy.Common.Int.{ℤ, eq_ℤ}
use geo_proxy.Common.Key.{Text, text_eq, text_eq_iff, text_key}
use geo_proxy.Common.Assoc.{lookup, delete, lookup-assign, lookup-delete, delete-Distinct}
use geo_proxy.Common.Assoc.Counting.{passes, count_where-delete, count_where_agree}
use geo_proxy.Affinity.{
  Binding, Store, expired, get, set_proxy, remove, set_cooldown, in_cooldown, count_by_proxy,
  attach_reverse, detach_reverse, remove_binding,
}
use geo_proxy.Affinity.Consistency.{
  IsConsistent, get-IsConsistent, set_proxy-IsConsistent, remove-IsConsistent, same-IsConsistent,
}
use geo_proxy.Affinity.Loops.{live, live-same, expired-same, Pruned}
use geo_proxy.Affinity.Occupancy.{occupancy, occupies, count_by_proxy-Counts}
use geo_proxy.Affinity.Sticky.{refreshed, lookup-get}
use geo_proxy.Affinity.History.{in_cooldown-IsConsistent}
use geo_proxy.Affinity.View.{erase, seen, Follows, Quiet}

pub count_by_proxy-Quiet : (p : ℤ) (s : Store) → IsConsistent s → Quiet s (count_by_proxy p s).1
count_by_proxy-Quiet p s c =
    let r = (count_by_proxy-Counts p s c).1 in
    record {
      follows = record { consistent = r.consistent; now_kept = r.now_kept; ttl_kept = r.ttl_kept };
      same = λ i. kept i r;
    }
  where
    kept : (i : Text) → Pruned p s (count_by_proxy p s).1 → seen (count_by_proxy p s).1 i ≡ seen s i
    kept i r = ground (
      arith,
      r.at_key i,
      r.now_kept,
      r.ttl_kept,
      live-same s (count_by_proxy p s).1 (lookup i (count_by_proxy p s).1.bindings) r.now_kept
          r.ttl_kept,
    )

pub in_cooldown-Quiet : (p : ℤ) (s : Store) → IsConsistent s → Quiet s (in_cooldown p s).1
in_cooldown-Quiet p s c = record {
  follows = record {
    consistent = in_cooldown-IsConsistent p s c;
    now_kept = unfold in_cooldown in ground arith;
    ttl_kept = unfold in_cooldown in ground arith;
  };
  same = λ i. unfold in_cooldown expired in ground arith;
}

pub set_cooldown-Quiet :
    (p : ℤ) (until : ℕ) (s : Store) → IsConsistent s → Quiet s (set_cooldown p until s)
unfolding set_cooldown expired
set_cooldown-Quiet p until s c = record {
  follows = record {
    consistent = same-IsConsistent s _ refl refl c;
    now_kept = refl;
    ttl_kept = refl;
  };
  same = λ i. ground arith;
}

pub now-get : (i : Text) (s : Store) → ((get i s).1.now ≡ s.now) × ((get i s).1.ttl ≡ s.ttl)
unfolding get remove_binding detach_reverse
now-get i s = (ground arith, ground arith)

-- A binding that is refreshed at the instant of the call has not expired.
fresh_unexpired :
    (s : Store) (b : Binding)
    → expired s b ≡ false
    → expired s (record b { last_active = s.now }) ≡ false
unfolding expired
fresh_unexpired s b e = ground arith

refresh_seen :
    (s : Store) (o : Option Binding) → erase (live s (refreshed s (live s o))) ≡ erase (live s o)
refresh_seen s none = refl
refresh_seen s (some b) = ground (arith, fresh_unexpired s b)

pub get-Quiet : (i : Text) (s : Store) → IsConsistent s → Quiet s (get i s).1
get-Quiet i s c = record {
  follows = record {
    consistent = get-IsConsistent i s c;
    now_kept = (now-get i s).0;
    ttl_kept = (now-get i s).1;
  };
  same = λ j. ground (
    arith,
    lookup-get i j s,
    text_eq_iff i j,
    refresh_seen s (lookup i s.bindings),
    live-same s (get i s).1 (lookup j (get i s).1.bindings) (now-get i s).0 (now-get i s).1,
  );
}

-- A binding made now is live.
new_unexpired :
    (s : Store) (p : ℤ) (a r : Text)
    → expired s (record { proxy_id = p; node_address = a; region = r; last_active = s.now }) ≡ false
unfolding expired
new_unexpired s p a r = ground arith

pub set_proxy-Follows :
    (i : Text) (p : ℤ) (a r : Text) (s : Store) → IsConsistent s → Follows s (set_proxy i p a r s)
set_proxy-Follows i p a r s c = record {
  consistent = set_proxy-IsConsistent i p a r s c;
  now_kept = unfold set_proxy attach_reverse detach_reverse in ground arith;
  ttl_kept = unfold set_proxy attach_reverse detach_reverse in ground arith;
}

pub now-set_proxy : (i : Text) (p : ℤ) (a r : Text) (s : Store) → (set_proxy i p a r s).now ≡ s.now
unfolding set_proxy attach_reverse detach_reverse
now-set_proxy i p a r s = ground arith

pub set_cooldown-bindings :
    (p : ℤ) (until : ℕ) (s : Store) → (set_cooldown p until s).bindings ≡ s.bindings
unfolding set_cooldown
set_cooldown-bindings p until s = refl

pub now-set_cooldown : (p : ℤ) (until : ℕ) (s : Store) → (set_cooldown p until s).now ≡ s.now
unfolding set_cooldown
now-set_cooldown p until s = refl

pub lookup-set_proxy :
    (i j : Text) (p : ℤ) (a r : Text) (s : Store)
    → lookup j (set_proxy i p a r s).bindings ≡ (
        if text_eq i j
        then some (record { proxy_id = p; node_address = a; region = r; last_active = s.now })
        else lookup j s.bindings)
unfolding set_proxy attach_reverse detach_reverse
lookup-set_proxy i j p a r s = ground (
  arith,
  lookup-assign i j (record { proxy_id = p; node_address = a; region = r; last_active = s.now })
      s.bindings,
)

-- `set_proxy` binds its session and changes what no other session is bound to.
pub seen-set_proxy :
    (i j : Text) (p : ℤ) (a r : Text) (s : Store)
    → IsConsistent s
    → seen (set_proxy i p a r s) j ≡ (
        if text_eq i j
        then some (record { proxy_id = p; node_address = a; region = r; last_active = 0 })
        else seen s j)
seen-set_proxy i j p a r s c =
    let t = set_proxy-Follows i p a r s c in
    ground (
      arith,
      lookup-set_proxy i j p a r s,
      new_unexpired s p a r,
      live-same s (set_proxy i p a r s) (lookup j (set_proxy i p a r s).bindings) t.now_kept
          t.ttl_kept,
    )

pub remove-Follows : (i : Text) (s : Store) → IsConsistent s → Follows s (remove i s)
remove-Follows i s c = record {
  consistent = remove-IsConsistent i s c;
  now_kept = unfold remove remove_binding detach_reverse in ground arith;
  ttl_kept = unfold remove remove_binding detach_reverse in ground arith;
}

pub lookup-remove :
    (i j : Text) (s : Store)
    → lookup j (remove i s).bindings ≡ (if text_eq i j then none else lookup j s.bindings)
unfolding remove remove_binding detach_reverse
lookup-remove i j s = ground (arith, lookup-delete i j s.bindings, text_eq_iff i j)

pub seen-remove :
    (i j : Text) (s : Store)
    → IsConsistent s
    → seen (remove i s) j ≡ (if text_eq i j then none else seen s j)
seen-remove i j s c =
    let t = remove-Follows i s c in
    ground (
      arith,
      lookup-remove i j s,
      live-same s (remove i s) (lookup j (remove i s).bindings) t.now_kept t.ttl_kept,
    )

-- A change to one session's binding adds at most that one.
occupancy_change :
    (i : Text) (q : ℤ) (s t : Store)
    → IsConsistent s
    → Follows s t
    → ((j : Text) → text_eq i j ≡ false → lookup j t.bindings ≡ lookup j s.bindings)
    → occupancy t q ≤ occupancy s q + (if passes (occupies t q) (lookup i t.bindings) then 1 else 0)
occupancy_change i q s t c f others = omega (
  arith,
  count_where-delete (occupies t q) i t.bindings f.consistent.bindings_distinct,
  count_where-delete (occupies s q) i s.bindings c.bindings_distinct,
  count_where_agree (occupies t q) (occupies s q) (delete i t.bindings) (delete i s.bindings)
      (delete-Distinct i t.bindings f.consistent.bindings_distinct)
      (delete-Distinct i s.bindings c.bindings_distinct) rest,
)
  where
    same_test : (o : Option Binding) → passes (occupies t q) o ≡ passes (occupies s q) o
    same_test none = refl
    same_test (some b) = ground (arith, expired-same s t b f.now_kept f.ttl_kept)

    rest :
        (k : Text)
        → passes (occupies t q) (lookup k (delete i t.bindings))
          ≡ passes (occupies s q) (lookup k (delete i s.bindings))
    rest k = ground (
      arith,
      lookup-delete i k t.bindings,
      lookup-delete i k s.bindings,
      others k,
      same_test (lookup k s.bindings),
    )

-- Unbinding a session takes no place.
pub occupancy-remove :
    (i : Text) (q : ℤ) (s : Store) → IsConsistent s → occupancy (remove i s) q ≤ occupancy s q
occupancy-remove i q s c = ground (
  arith,
  lookup-remove i i s,
  text_eq_iff i i,
  occupancy_change i q s (remove i s) c (remove-Follows i s c)
      (λ j ne. ground (arith, lookup-remove i j s)),
)

-- Binding a session takes at most one place, and only at the proxy that it is bound to.
pub occupancy-set_proxy :
    (i : Text) (p q : ℤ) (a r : Text) (s : Store)
    → IsConsistent s
    → occupancy (set_proxy i p a r s) q ≤ occupancy s q + (if eq_ℤ p q then 1 else 0)
occupancy-set_proxy i p q a r s c = ground (
  arith,
  lookup-set_proxy i i p a r s,
  text_eq_iff i i,
  occupancy_change i q s (set_proxy i p a r s) c (set_proxy-Follows i p a r s c)
      (λ j ne. ground (arith, lookup-set_proxy i j p a r s)),
)
