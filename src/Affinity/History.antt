-- ===== src/Affinity/History.antt =====
-- Any history of calls on a store of affinity/store.go, the clock's advance and `SetTTL` included.
use geo_proxy.Common.{ℕ, ◌+◌, ◌≡◌, refl, List, [], ◌∷◌, arith}
use geo_proxy.Common.Int.{ℤ}
use geo_proxy.Common.Key.{Text, int_key, text_key}
use geo_proxy.Affinity.{
  Store, new_with_clock, get, set_proxy, remove, remove_if_proxy_id, set_cooldown, in_cooldown,
  cooldown_remaining, count_by_proxy, collect_expired, set_ttl, sweep,
}
use geo_proxy.Affinity.Consistency.{
  IsConsistent, new_with_clock-IsConsistent, get-IsConsistent, set_proxy-IsConsistent,
  remove-IsConsistent, remove_if_proxy_id-IsConsistent, same-IsConsistent,
}
use geo_proxy.Affinity.Loops.{sweep_lem}
use geo_proxy.Affinity.Occupancy.{count_by_proxy-Counts, occupancy}

pub data Call : Type 0 where
  gets removes : Text → Call
  sets : Text → ℤ → Text → Text → Call
  removes_if : Text → ℤ → Call
  cools : ℤ → ℕ → Call
  asks_cooldown asks_remaining counts : ℤ → Call
  collects : Call
  sets_ttl : ℤ → Call
  waits : ℕ → Call

unfoldable pub step : Store → Call → Store
step s (gets i) = (get i s).1
step s (removes i) = remove i s
step s (sets i p a r) = set_proxy i p a r s
step s (removes_if i p) = (remove_if_proxy_id i p s).1
step s (cools p until) = set_cooldown p until s
step s (asks_cooldown p) = (in_cooldown p s).1
step s (asks_remaining p) = (cooldown_remaining p s).1
step s (counts p) = (count_by_proxy p s).1
step s collects = collect_expired s
step s (sets_ttl ttl) = set_ttl ttl s
step s (waits d) = record s { now = s.now + d }

unfoldable pub run : Store → List Call → Store
unfolding step
run s [] = s
run s (c ∷ cs) = run (step s c) cs

pub collect_expired-IsConsistent : (s : Store) → IsConsistent s → IsConsistent (collect_expired s)
unfolding collect_expired
collect_expired-IsConsistent s c =
    same-IsConsistent (sweep s.bindings s) _ refl refl
      (sweep_lem s.bindings s c.bindings_distinct (λ i b e. e) c).consistent

pub in_cooldown-IsConsistent :
    (p : ℤ) (s : Store) → IsConsistent s → IsConsistent (in_cooldown p s).1
unfolding in_cooldown
in_cooldown-IsConsistent p s c =
    same-IsConsistent s (in_cooldown p s).1 (ground arith) (ground arith) c

cooldown_remaining-IsConsistent :
    (p : ℤ) (s : Store) → IsConsistent s → IsConsistent (cooldown_remaining p s).1
unfolding cooldown_remaining
cooldown_remaining-IsConsistent p s c =
    same-IsConsistent s (cooldown_remaining p s).1 (ground arith) (ground arith) c

pub step-IsConsistent : (s : Store) (c : Call) → IsConsistent s → IsConsistent (step s c)
unfolding step set_cooldown set_ttl
step-IsConsistent s (gets i) v = get-IsConsistent i s v
step-IsConsistent s (removes i) v = remove-IsConsistent i s v
step-IsConsistent s (sets i p a r) v = set_proxy-IsConsistent i p a r s v
step-IsConsistent s (removes_if i p) v = remove_if_proxy_id-IsConsistent i p s v
step-IsConsistent s (cools p until) v = same-IsConsistent s _ refl refl v
step-IsConsistent s (asks_cooldown p) v = in_cooldown-IsConsistent p s v
step-IsConsistent s (asks_remaining p) v = cooldown_remaining-IsConsistent p s v
step-IsConsistent s (counts p) v = (count_by_proxy-Counts p s v).1.consistent
step-IsConsistent s collects v = collect_expired-IsConsistent s v
step-IsConsistent s (sets_ttl ttl) v = same-IsConsistent s _ refl refl v
step-IsConsistent s (waits d) v = same-IsConsistent s _ refl refl v

pub run-IsConsistent : (s : Store) (cs : List Call) → IsConsistent s → IsConsistent (run s cs)
unfolding run
run-IsConsistent s [] v = v
run-IsConsistent s (c ∷ cs) v = run-IsConsistent (step s c) cs (step-IsConsistent s c v)

-- After any calls on a new store the bindings and the reverse index agree: a session is in the
-- set of a proxy exactly if its binding is to that proxy, and no key stands twice.
pub run_new-IsConsistent :
    (ttl : ℤ) (now : ℕ) (cs : List Call) → IsConsistent (run (new_with_clock ttl now) cs)
run_new-IsConsistent ttl now cs = run-IsConsistent _ cs (new_with_clock-IsConsistent ttl now)

-- After any calls on a new store `count_by_proxy` returns, for every proxy, the number of the
-- bindings to it that have not expired.
pub count_by_proxy-run :
    (ttl : ℤ) (now : ℕ) (cs : List Call) (p : ℤ)
    → (count_by_proxy p (run (new_with_clock ttl now) cs)).0
      ≡ occupancy (run (new_with_clock ttl now) cs) p
count_by_proxy-run ttl now cs p = (count_by_proxy-Counts p _ (run_new-IsConsistent ttl now cs)).0
