-- ===== src/Affinity/Questions.antt =====
-- The questions to a store of affinity/store.go, and a collection: the store stays alike.
use geo_proxy.Common.{ℕ, ◌≡◌, refl, Option, none, some, arith}
use geo_proxy.Common.Int.{ℤ, pos, sub_ℕ}
use geo_proxy.Common.Key.{text_key, int_key}
use geo_proxy.Common.Assoc.{lookup, Distinct}
use geo_proxy.Affinity.{
  Binding, Store, in_cooldown, cooldown_remaining, count_by_proxy, collect_expired,
}
use geo_proxy.Affinity.Consistency.{IsConsistent}
use geo_proxy.Affinity.Loops.{live, live-same, pruned}
use geo_proxy.Affinity.Occupancy.{count_by_proxy-Counts}
use geo_proxy.Affinity.Sweeping.{
  still, still_again, cooldown-collect_expired, now-collect_expired, ttl-collect_expired,
  current-collect_expired,
}
use geo_proxy.Affinity.Unseen.{Alike, current_kept, still-in_cooldown, still-remaining}

pub in_cooldown-Alike : (p : ℤ) (s : Store) → Alike s (in_cooldown p s).1
in_cooldown-Alike p s = record {
  now_same = now;
  ttl_same = ttl;
  bound_same =
      λ i. current_kept s (in_cooldown p s).1 i now ttl (unfold in_cooldown in ground arith);
  cool_same = λ q. ground (arith, still-in_cooldown p q s, now);
}
  where
    now : (in_cooldown p s).1.now ≡ s.now
    now = unfold in_cooldown in ground arith

    ttl : (in_cooldown p s).1.ttl ≡ s.ttl
    ttl = unfold in_cooldown in ground arith

pub cooldown_remaining-Alike : (p : ℤ) (s : Store) → Alike s (cooldown_remaining p s).1
cooldown_remaining-Alike p s = record {
  now_same = now;
  ttl_same = ttl;
  bound_same = λ i.
      current_kept s (cooldown_remaining p s).1 i now ttl
        (unfold cooldown_remaining in ground arith);
  cool_same = λ q. ground (arith, still-remaining p q s, now);
}
  where
    now : (cooldown_remaining p s).1.now ≡ s.now
    now = unfold cooldown_remaining in ground arith

    ttl : (cooldown_remaining p s).1.ttl ≡ s.ttl
    ttl = unfold cooldown_remaining in ground arith

live-pruned : (p : ℤ) (s : Store) (o : Option Binding) → live s (pruned p s o) ≡ live s o
live-pruned p s none = refl
live-pruned p s (some b) = ground arith

pub count_by_proxy-Alike : (p : ℤ) (s : Store) → IsConsistent s → Alike s (count_by_proxy p s).1
count_by_proxy-Alike p s c =
    let t = (count_by_proxy p s).1 in
    let r = (count_by_proxy-Counts p s c).1 in
    record {
      now_same = r.now_kept;
      ttl_same = r.ttl_kept;
      bound_same = λ i. ground (
        arith,
        r.at_key i,
        live-pruned p s (lookup i s.bindings),
        live-same s t (lookup i t.bindings) r.now_kept r.ttl_kept,
      );
      cool_same = λ q. rw (r.now_kept, r.cooldown_kept) refl;
    }

pub collect_expired-Alike :
    (s : Store) → IsConsistent s → Distinct s.cooldown → Alike s (collect_expired s)
collect_expired-Alike s c d = record {
  now_same = now-collect_expired s c d;
  ttl_same = ttl-collect_expired s c d;
  bound_same = current-collect_expired s c d;
  cool_same = λ p. ground (
    arith,
    cooldown-collect_expired s c d p,
    now-collect_expired s c d,
    still_again s.now (lookup p s.cooldown),
  );
}

-- What is left of a cooldown that is not over.
abbrev pub left_of : ℕ → Option ℕ → ℤ
left_of now none = pos 0
left_of now (some until) = sub_ℕ until now

pub remaining-still :
    (p : ℤ) (s : Store)
    → (cooldown_remaining p s).0 ≡ left_of s.now (still s.now (lookup p s.cooldown))
unfolding cooldown_remaining
remaining-still p s = ground arith
