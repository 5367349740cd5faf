-- ===== src/Affinity/View/Cooling.antt =====
-- The questions to a store of affinity/store.go: they change no binding and no running cooldown.
use geo_proxy.Common.{◌≡◌, refl, ◌∙◌, Bool, is_some, arith, Option-cases, inl, inr}
use geo_proxy.Common.Int.{ℤ, eq_ℤ_iff}
use geo_proxy.Common.Key.{Text, int_key}
use geo_proxy.Common.Assoc.{lookup, lookup-delete}
use geo_proxy.Affinity.{
  Store, get, remove, in_cooldown, count_by_proxy, detach_reverse, remove_binding,
}
use geo_proxy.Affinity.Consistency.{IsConsistent}
use geo_proxy.Affinity.Occupancy.{count_by_proxy-Counts}
use geo_proxy.Affinity.Sweeping.{still, in_cooldown-still}
use geo_proxy.Affinity.View.{Quiet, Quiet-refl, Quiet-trans}
use geo_proxy.Affinity.View.Effects.{get-Quiet, count_by_proxy-Quiet, in_cooldown-Quiet}

-- The proxy has a cooldown whose end is still to come.
abbrev pub cooling : Store → ℤ → Bool
cooling s p = is_some (still s.now (lookup p s.cooldown))

pub record Calm (s t : Store) : Type 0 where
  pub quiet : Quiet s t
  pub cool : (p : ℤ) → cooling t p ≡ cooling s p

pub Calm-refl : (s : Store) → IsConsistent s → Calm s s
Calm-refl s c = record { quiet = Quiet-refl s c; cool = λ p. refl }

pub Calm-trans : (s t u : Store) → Calm s t → Calm t u → Calm s u
Calm-trans s t u a b = record {
  quiet = Quiet-trans s t u a.quiet b.quiet;
  cool = λ p. b.cool p ∙ a.cool p;
}

pub in_cooldown-cooling : (p : ℤ) (s : Store) → (in_cooldown p s).0 ≡ cooling s p
in_cooldown-cooling = in_cooldown-still

same_cooldown :
    (s t : Store) (p : ℤ) → t.now ≡ s.now → t.cooldown ≡ s.cooldown → cooling t p ≡ cooling s p
same_cooldown s t p n c = rw (n, c)

pub in_cooldown-Calm : (p : ℤ) (s : Store) → IsConsistent s → Calm s (in_cooldown p s).1
in_cooldown-Calm p s c = record { quiet = in_cooldown-Quiet p s c; cool = kept }
  where
    kept : (q : ℤ) → cooling (in_cooldown p s).1 q ≡ cooling s q
    kept q =
        unfold in_cooldown in
        elim (Option-cases (lookup p s.cooldown)) [
          | inl e ↦ rw e refl
          | inr (until, e) ↦ ground (arith, lookup-delete p q s.cooldown, eq_ℤ_iff p q)
        ]

pub count_by_proxy-Calm : (p : ℤ) (s : Store) → IsConsistent s → Calm s (count_by_proxy p s).1
count_by_proxy-Calm p s c =
    let r = (count_by_proxy-Counts p s c).1 in
    record {
      quiet = count_by_proxy-Quiet p s c;
      cool = λ q. same_cooldown s (count_by_proxy p s).1 q r.now_kept r.cooldown_kept;
    }

pub get-Calm : (i : Text) (s : Store) → IsConsistent s → Calm s (get i s).1
get-Calm i s c = record {
  quiet = get-Quiet i s c;
  cool = λ q. unfold get remove_binding detach_reverse in ground arith;
}

pub cooling-remove : (i : Text) (q : ℤ) (s : Store) → cooling (remove i s) q ≡ cooling s q
unfolding remove remove_binding detach_reverse
cooling-remove i q s = ground arith
