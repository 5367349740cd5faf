-- ===== src/Affinity/Cooldowns.antt =====
-- The cooldown map of affinity/store.go over any history of calls.
use geo_proxy.Common.{ℕ, ◌≡◌, true, List, [], ◌∷◌, all_of, arith}
use geo_proxy.Common.Int.{ℤ}
use geo_proxy.Common.Key.{Text, text_key, int_key}
use geo_proxy.Common.Assoc.{Map, lookup, Distinct, assign-Distinct, delete-Distinct}
use geo_proxy.Affinity.{
  Store, new_with_clock, get, set_cooldown, in_cooldown, cooldown_remaining, count_by_proxy,
  collect_expired, running, set_ttl,
}
use geo_proxy.Affinity.Consistency.{IsConsistent, new_with_clock-IsConsistent}
use geo_proxy.Affinity.Loops.{live, sweep_lem}
use geo_proxy.Affinity.Occupancy.{count_by_proxy-Counts}
use geo_proxy.Affinity.Sweeping.{
  still, lookup-running, lookup-collect_expired, cooldown-collect_expired,
}
use geo_proxy.Affinity.Unseen.{
  keeps_ttl, Alike, get-cooldown, remove-cooldown, remove_if-cooldown, set_proxy-cooldown,
}
use geo_proxy.Affinity.Questions.{collect_expired-Alike}
use geo_proxy.Affinity.Alike.{step-Alike, get_same, in_cooldown_same, remaining_same, count_same}
use geo_proxy.Affinity.History.{
  Call, gets, removes, sets, removes_if, cools, asks_cooldown, asks_remaining, counts, collects,
  sets_ttl, waits, step, run, step-IsConsistent, run-IsConsistent, run_new-IsConsistent,
  collect_expired-IsConsistent,
}

running-Distinct : (now : ℕ) (m : Map ℤ ℕ) → Distinct m → Distinct (running now m)
unfolding running
running-Distinct now [] d = tt
running-Distinct now ((p, until) ∷ m) d =
    ground (arith, running-Distinct now m d.1, lookup-running p now m d.1)

in_cooldown-Distinct :
    (p : ℤ) (s : Store) → Distinct s.cooldown → Distinct (in_cooldown p s).1.cooldown
unfolding in_cooldown
in_cooldown-Distinct p s d = ground (arith, delete-Distinct p s.cooldown d)

remaining-Distinct :
    (p : ℤ) (s : Store) → Distinct s.cooldown → Distinct (cooldown_remaining p s).1.cooldown
unfolding cooldown_remaining
remaining-Distinct p s d = ground (arith, delete-Distinct p s.cooldown d)

collect-Distinct :
    (s : Store) → IsConsistent s → Distinct s.cooldown → Distinct (collect_expired s).cooldown
unfolding collect_expired
collect-Distinct s c d =
    rw (sweep_lem s.bindings s c.bindings_distinct (λ i b e. e) c).cooldown_kept
      (running-Distinct s.now s.cooldown d)

step-Distinct :
    (s : Store) (c : Call) → IsConsistent s → Distinct s.cooldown → Distinct (step s c).cooldown
unfolding step set_cooldown set_ttl
step-Distinct s (gets i) v d = rw (get-cooldown i s) d
step-Distinct s (removes i) v d = rw (remove-cooldown i s) d
step-Distinct s (sets i p a r) v d = rw (set_proxy-cooldown i p a r s) d
step-Distinct s (removes_if i p) v d = rw (remove_if-cooldown i p s) d
step-Distinct s (cools p until) v d = assign-Distinct p until s.cooldown d
step-Distinct s (asks_cooldown p) v d = in_cooldown-Distinct p s d
step-Distinct s (asks_remaining p) v d = remaining-Distinct p s d
step-Distinct s (counts p) v d = rw (count_by_proxy-Counts p s v).1.cooldown_kept d
step-Distinct s collects v d = collect-Distinct s v d
step-Distinct s (sets_ttl ttl) v d = d
step-Distinct s (waits n) v d = d

run-Distinct :
    (s : Store) (cs : List Call)
    → IsConsistent s
    → Distinct s.cooldown
    → Distinct (run s cs).cooldown
unfolding run
run-Distinct s [] v d = d
run-Distinct s (c ∷ cs) v d =
    run-Distinct (step s c) cs (step-IsConsistent s c v) (step-Distinct s c v d)

-- Two stores that are alike stay alike through any calls but `SetTTL`.
run-Alike :
    (s t : Store) (cs : List Call)
    → all_of keeps_ttl cs ≡ true
    → IsConsistent s
    → IsConsistent t
    → Distinct s.cooldown
    → Distinct t.cooldown
    → Alike s t
    → Alike (run s cs) (run t cs)
unfolding run
run-Alike s t [] k v w d e a = a
run-Alike s t (c ∷ cs) k v w d e a =
    run-Alike (step s c) (step t c) cs (ground (arith, k)) (step-IsConsistent s c v)
      (step-IsConsistent t c w) (step-Distinct s c v d) (step-Distinct t c w e)
      (step-Alike s t a c (ground (arith, k)) v w d e)

-- The answers to every question.
pub record SameAnswers (s t : Store) : Type 0 where
  pub binding : (i : Text) → (get i t).0 ≡ (get i s).0
  pub cooling : (p : ℤ) → (in_cooldown p t).0 ≡ (in_cooldown p s).0
  pub remaining : (p : ℤ) → (cooldown_remaining p t).0 ≡ (cooldown_remaining p s).0
  pub count : (p : ℤ) → (count_by_proxy p t).0 ≡ (count_by_proxy p s).0

-- Whatever calls a new store has seen, a collection drops exactly the expired bindings and the
-- cooldowns that are over; and after any further calls other than `set_ttl`, the next answer of
-- `get`, `in_cooldown`, `cooldown_remaining` or `count_by_proxy` is the one that it would be without
-- the collection.
pub collect_expired-run :
    (ttl : ℤ) (now : ℕ) (cs later : List Call)
    → all_of keeps_ttl later ≡ true
    → let s = run (new_with_clock ttl now) cs in
      ((i : Text) → lookup i (collect_expired s).bindings ≡ live s (lookup i s.bindings))
      × ((p : ℤ) → lookup p (collect_expired s).cooldown ≡ still s.now (lookup p s.cooldown))
      × SameAnswers (run s later) (run (collect_expired s) later)
unfolding new_with_clock
collect_expired-run ttl now cs later kept =
    let s = run (new_with_clock ttl now) cs in
    let t = collect_expired s in
    let c = run_new-IsConsistent ttl now cs in
    let d = run-Distinct _ cs (new_with_clock-IsConsistent ttl now) tt in
    let e = collect_expired-IsConsistent s c in
    let a = run-Alike s t later kept c e d (collect-Distinct s c d) (collect_expired-Alike s c d) in
    (
      lookup-collect_expired s c d,
      cooldown-collect_expired s c d,
      record {
        binding = get_same (run s later) (run t later) a;
        cooling = in_cooldown_same (run s later) (run t later) a;
        remaining = remaining_same (run s later) (run t later) a;
        count = λ p.
            count_same (run s later) (run t later) a p (run-IsConsistent s later c)
              (run-IsConsistent t later e);
      },
    )
