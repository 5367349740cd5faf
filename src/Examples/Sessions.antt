-- ===== src/Examples/Sessions.antt =====
-- Calls on a store of affinity/store.go, with the theorems applied to them.
use geo_proxy.Common.{◌+◌, ◌*◌, ◌^◌, refl, ◌≡◌, ◌&&◌, List, [], ◌∷◌, none, some, if◌then◌else◌, ltb}
use geo_proxy.Common.Int.{ℤ, pos, eq_ℤ, ltb_ℤ, leb_ℤ}
use geo_proxy.Common.Key.{Text, text_eq, text_key, int_key}
use geo_proxy.Common.Assoc.{lookup}
use geo_proxy.GoText.{codes}
use geo_proxy.Affinity.{
  new_with_clock, get, set_proxy, count_by_proxy, set_cooldown, in_cooldown, cooldown_remaining,
  collect_expired, remove_if_proxy_id,
}
use geo_proxy.Affinity.Consistency.{IsConsistent}
use geo_proxy.Affinity.Occupancy.{occupancy}
use geo_proxy.Affinity.History.{
  Call, waits, gets, sets, asks_cooldown, counts, run, count_by_proxy-run, run_new-IsConsistent,
}
use geo_proxy.Affinity.Cooldowns.{SameAnswers, collect_expired-run}
use geo_proxy.Affinity.Sticky.{
  current, refreshed, bound_to, get_lem, get-set_proxy, remove_if_proxy_id_lem,
}
use geo_proxy.Affinity.Sweeping.{still, in_cooldown-set_cooldown}
use geo_proxy.Affinity.Loops.{live}
use geo_proxy.Affinity.Collector.{new_collector, starts, stops, closes, ends, returns, events}
use geo_proxy.Affinity.Collector.Lifecycle.{Sound, events-Sound}
use geo_proxy.Examples.{calls, hour, later_store}

run_new-IsConsistent_example : IsConsistent (run (new_with_clock hour 1) calls)
run_new-IsConsistent_example = run_new-IsConsistent hour 1 calls

count_by_proxy-run_example :
    (count_by_proxy (pos 1) (run (new_with_clock hour 1) calls)).0
    ≡ occupancy (run (new_with_clock hour 1) calls) (pos 1)
count_by_proxy-run_example = count_by_proxy-run hour 1 calls (pos 1)

-- An hour and more after the collection, with a session that comes back.
abbrev comebacks : List Call
comebacks =
    waits (3700 * 10 ^ 9)
    ∷ gets (codes "a")
    ∷ sets (codes "a") (pos 2) (codes "10.0.0.2:1080") (codes "us")
    ∷ asks_cooldown (pos 1)
    ∷ counts (pos 1)
    ∷ []

collect_expired-run_example :
    let s = run (new_with_clock hour 1) calls in
    ((i : Text) → lookup i (collect_expired s).bindings ≡ live s (lookup i s.bindings))
    × ((p : ℤ) → lookup p (collect_expired s).cooldown ≡ still s.now (lookup p s.cooldown))
    × SameAnswers (run s comebacks) (run (collect_expired s) comebacks)
collect_expired-run_example = collect_expired-run hour 1 calls comebacks refl

get_lem_example :
    ((get (codes "a") later_store).0 ≡ refreshed later_store (current later_store (codes "a")))
    × ((j : Text)
        → lookup j (get (codes "a") later_store).1.bindings ≡ (
            if text_eq (codes "a") j
            then refreshed later_store (current later_store (codes "a"))
            else lookup j later_store.bindings))
get_lem_example = get_lem (codes "a") later_store

get-set_proxy_example :
    let bound = set_proxy (codes "d") (pos 2) [] (codes "us") later_store in
    (get (codes "d") (record bound { now = bound.now + 5 })).0 ≡ (
      if ltb_ℤ (pos 0) later_store.ttl && leb_ℤ later_store.ttl (pos 5)
      then none
      else some (record {
        proxy_id = pos 2;
        node_address = [];
        region = codes "us";
        last_active = later_store.now + 5;
      }))
get-set_proxy_example = get-set_proxy (codes "d") (pos 2) [] (codes "us") later_store 5

remove_if_proxy_id_lem_example :
    ((remove_if_proxy_id (codes "b") (pos 1) later_store).0
      ≡ bound_to (pos 1) (current later_store (codes "b")))
    × ((j : Text)
        → lookup j (remove_if_proxy_id (codes "b") (pos 1) later_store).1.bindings ≡ (
            if text_eq (codes "b") j
            then (if bound_to (pos 1) (current later_store (codes "b"))
                then none
                else current later_store (codes "b"))
            else lookup j later_store.bindings))
remove_if_proxy_id_lem_example = remove_if_proxy_id_lem (codes "b") (pos 1) later_store

in_cooldown-set_cooldown_example :
    let later = record later_store { now = later_store.now + 9 } in
    let cooled = record (set_cooldown (pos 1) 10 later_store) { now = later_store.now + 9 } in
    ((in_cooldown (pos 1) cooled).0 ≡ (
      if eq_ℤ (pos 1) (pos 1) then ltb (later_store.now + 9) 10 else (in_cooldown (pos 1) later).0))
    × ((in_cooldown (pos 1) cooled).0 ≡ ltb_ℤ (pos 0) (cooldown_remaining (pos 1) cooled).0)
in_cooldown-set_cooldown_example = in_cooldown-set_cooldown (pos 1) (pos 1) 10 9 later_store

-- A restart while the first goroutine still runs.
events-Sound_example : Sound (
    events
      (starts hour ∷ stops ∷ starts hour ∷ closes 0 ∷ ends 0 ∷ returns 0 ∷ [])
      (some new_collector))
events-Sound_example =
    events-Sound (starts hour ∷ stops ∷ starts hour ∷ closes 0 ∷ ends 0 ∷ returns 0 ∷ [])
