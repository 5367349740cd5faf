-- ===== src/Examples/Requests.antt =====
-- Requests resolved by selector/selector.go over a store with one node.
use geo_proxy.Common.{◌+◌, ◌≡◌, refl, List, [], ◌∷◌, none, some}
use geo_proxy.Common.Int.{pos}
use geo_proxy.GoText.{codes, trim_space, to_lower}
use geo_proxy.Affinity.{
  Store, Binding, new_with_clock, get, expired, set_proxy, attach_reverse, detach_reverse,
}
use geo_proxy.Affinity.History.{Call, sets, waits, step, run, run_new-IsConsistent}
use geo_proxy.Common.Key.{text_eq}
use geo_proxy.Common.Assoc.{lookup, assign}
use geo_proxy.Selector.{
  ok, normalize_region, is_empty, excluded, proxy_available, region_mismatch,
  binding_region_mismatch, proxy_matches_unlock,
}
use geo_proxy.Selector.Pick.{pick_for_session}
use geo_proxy.Selector.Pick.Outcome.{Outcome, PickedFor, pick_for_session-Outcome}
use geo_proxy.Selector.Resolve.{parent_runs, check_sticky, stale, resolve}
use geo_proxy.Selector.Resolve.Serves.{Serves}
use geo_proxy.Selector.Resolve.Sticky.{resolve-bound, resolve-again}
use geo_proxy.Selector.Resolve.Correct.{resolve-Resolved}
use geo_proxy.Selector.Resolve.Results.{Resolved}
use geo_proxy.Examples.{
  calls, hour, later_store, plain_runtime, counting_floats, node_at, one_node, one_node-Lawful,
  one_session_each, route,
}

resolve-Resolved_example :
    Resolved plain_runtime counting_floats one_node one_session_each
      (route (codes "s") [])
      []
      (run (new_with_clock hour 1) calls)
      (resolve plain_runtime counting_floats one_node one_session_each
        (λ n. 0)
        (route (codes "s") [])
        []
        (some (run (new_with_clock hour 1) calls)))
resolve-Resolved_example =
    resolve-Resolved plain_runtime counting_floats one_node one_session_each (route (codes "s") [])
      [] (λ n. 0) (run (new_with_clock hour 1) calls) one_node-Lawful
      (unfold normalize_region trim_space to_lower in refl) (unfold is_empty in refl)
      (run_new-IsConsistent hour 1 calls)

pick_for_session-Outcome_example :
    Outcome
      (PickedFor plain_runtime counting_floats one_node
        (codes "us")
        []
        []
        (pos 1)
        (pos 5)
        later_store)
      later_store
      (pick_for_session plain_runtime counting_floats one_node
        (codes "us")
        (codes "s")
        []
        (pos 1)
        (pos 5)
        []
        (some later_store))
pick_for_session-Outcome_example =
    pick_for_session-Outcome plain_runtime counting_floats one_node (codes "us") (codes "s") []
      (pos 1) (pos 5) [] later_store (run_new-IsConsistent hour 1 calls)

-- A store in which session "s" is bound to node 1.
abbrev bound_calls : List Call
bound_calls = sets (codes "s") (pos 1) (codes "10.0.0.1:1080") (codes "us") ∷ waits 1 ∷ []

abbrev bound_store : Store
bound_store = run (new_with_clock hour 3) bound_calls

abbrev bound_to_one : Binding
bound_to_one = record {
  proxy_id = pos 1;
  node_address = codes "10.0.0.1:1080";
  region = codes "us";
  last_active = 3;
}

first_answer :
    resolve plain_runtime counting_floats one_node one_session_each
      (λ n. 0)
      (route (codes "s") [])
      []
      (some bound_store)
    ≡ (ok (node_at 1), some (get (codes "s") bound_store).1)
first_answer =
    resolve-bound plain_runtime counting_floats one_node one_session_each (route (codes "s") []) []
      (λ n. 0) bound_store bound_to_one (node_at 1) (unfold is_empty in refl)
      (unfold is_empty in refl)
      (unfold run step set_proxy attach_reverse detach_reverse new_with_clock lookup assign expired
          text_eq in
        refl)
      (unfold stale excluded binding_region_mismatch region_mismatch is_empty normalize_region
          trim_space to_lower text_eq in
        refl)
      (unfold check_sticky proxy_available region_mismatch normalize_region trim_space to_lower
          is_empty proxy_matches_unlock parent_runs text_eq in
        refl)

node_at_one-Serves :
    Serves plain_runtime counting_floats one_node none
      (route (codes "s") [])
      (pos 9 ∷ [])
      (node_at 1)
node_at_one-Serves = record {
  available = unfold proxy_available text_eq in refl;
  unlocked = unfold proxy_matches_unlock is_empty in refl;
  right_region =
      unfold region_mismatch normalize_region trim_space to_lower is_empty text_eq in refl;
  not_excluded = unfold excluded in refl;
  parent = unfold parent_runs in refl;
}

-- A microsecond later, without limits and with another node excluded.
resolve-again_example :
    let t = (get (codes "s") bound_store).1 in
    let waited = record t { now = t.now + 1000 } in
    resolve plain_runtime counting_floats one_node none
      (λ n. 0)
      (route (codes "s") [])
      (pos 9 ∷ [])
      (some waited)
    ≡ (ok (node_at 1), some (get (codes "s") waited).1)
resolve-again_example =
    resolve-again plain_runtime counting_floats one_node one_node one_session_each none
      (route (codes "s") []) [] (pos 9 ∷ []) (λ n. 0) (λ n. 0) bound_store
      (get (codes "s") bound_store).1 (node_at 1) (node_at 1) 1000 one_node-Lawful
      (unfold normalize_region trim_space to_lower in refl) (unfold is_empty in refl)
      (unfold is_empty in refl) (run_new-IsConsistent hour 3 bound_calls) first_answer refl refl
      refl node_at_one-Serves
      (unfold get run step set_proxy attach_reverse detach_reverse new_with_clock lookup assign
          expired text_eq in
        refl)
