-- ===== src/Storage/History.antt =====
-- Any history of the writes of storage/, the clock's advance included, on the tables of a new file.
pub mod Writes
pub mod Invariant
pub mod Paused
use geo_proxy.Common.{ℕ, ◌+◌, Bool, List, [], ◌∷◌}
use geo_proxy.Common.Int.{ℤ}
use geo_proxy.Common.Key.{Text}
use geo_proxy.GoText.{Unicode}
use geo_proxy.Storage.{Proxy}
use geo_proxy.Storage.Table.{Row, Database}
use geo_proxy.Storage.Identity.{RouteIdentity, ExitObservation}
use geo_proxy.Storage.Probes.{
  record_forward_failure, record_forward_success, apply_probe_observation, record_probe_failure,
  recover_proxy_from_probe, record_disabled_probe_failure, disable_route_for_policy,
}
use geo_proxy.Storage.Updates.{
  delete_proxy, delete_proxy_by_id, delete_by_subscription_id, delete_by_source, update_exit_info,
  update_proxy_exit_info, update_subscription_proxy_exit_info,
  update_disabled_subscription_proxy_exit_info, recover_subscription_proxy_with_exit_info,
  set_proxy_dual_protocol, set_proxy_starred, record_proxy_use_by_id, record_proxy_use,
  record_proxy_failure_by_id_with_status, disable_blocked_countries, disable_not_allowed_countries,
  disable_proxy, disable_proxy_by_id, disable_subscription_proxy, enable_proxy, enable_proxy_by_id,
  enable_subscription_proxy, pause_proxy, pause_proxy_by_id, unpause_proxy, unpause_proxy_by_id,
}
use geo_proxy.Storage.Manual.{
  add_proxies, add_proxy_with_source, add_manual_proxy_exec, add_manual_proxies,
  add_manual_proxy_with_node_key, update_proxy_region, update_proxy_region_by_id, update_proxy_note,
  update_proxy_note_by_id, delete_manual_proxy,
}
use geo_proxy.Storage.Subscriptions.{
  add_subscription, add_contributed_subscription, update_subscription, delete_subscription,
  update_subscription_fetch, update_subscription_attempt, update_subscription_success,
  toggle_subscription, pause_subscription,
}

-- The tables that `initSchema` makes.
abbrev pub new_database : ℕ → Database
new_database now = record {
  proxies = [];
  subscriptions = [];
  next_id = 1;
  next_subscription = 1;
  now = now;
}

pub data Write : Type 0 where
  -- storage/proxy_methods.go and storage/manual.go
  adds : List Proxy → Write
  adds_with_source : Text → Text → Text → ℤ → Write
  adds_manual : Text → Text → Text → Text → Text → Text → Text → Write
  adds_manuals : List Row → Text → Text → Write
  adds_keyed : Text → Text → Text → Text → Text → Write
  sets_region : Text → Text → Bool → Write
  sets_region_by_id : ℤ → Text → Bool → Write
  notes : Text → Text → Write
  notes_by_id : ℤ → Text → Write
  deletes_manual : Text → Write
  -- storage/proxy_updates.go
  forward_fails : RouteIdentity → ℤ → Write
  forward_succeeds : RouteIdentity → Write
  observes : RouteIdentity → ExitObservation → Write
  probe_fails : RouteIdentity → ExitObservation → ℤ → Write
  recovers : RouteIdentity → ExitObservation → Write
  disabled_probe_fails : RouteIdentity → ExitObservation → Write
  disables_route : RouteIdentity → Write
  deletes : Text → Write
  deletes_by_id : ℤ → Write
  deletes_by_subscription : ℤ → Write
  deletes_by_source : Text → Write
  sees_exit : Text → ExitObservation → Write
  sees_exit_by_id : ℤ → ExitObservation → Write
  sees_exit_in : Text → ℤ → ExitObservation → Write
  sees_disabled_exit_in : Text → ℤ → ExitObservation → Write
  recovers_in : Text → ℤ → ExitObservation → Write
  sets_dual : ℤ → Bool → Write
  sets_starred : ℤ → Bool → Write
  uses : Text → Bool → Write
  uses_by_id : ℤ → Bool → Write
  use_fails : ℤ → ℤ → Write
  blocks_countries : List Text → Write
  allows_countries : List Text → Write
  disables : Text → Write
  disables_by_id : ℤ → Write
  disables_in : Text → ℤ → Write
  enables : Text → Write
  enables_by_id : ℤ → Write
  enables_in : Text → ℤ → Write
  pauses : Text → Write
  pauses_by_id : ℤ → Write
  unpauses : Text → Write
  unpauses_by_id : ℤ → Write

-- storage/subscriptions.go
pub data Edit : Type 0 where
  subscribes : Text → Text → Text → Text → ℤ → Text → Edit
  contributes : Text → Text → ℤ → Edit
  edits_subscription : ℤ → Text → Text → Text → Text → ℤ → Text → Edit
  unsubscribes : ℤ → Edit
  fetches : ℤ → ℤ → Edit
  attempts : ℤ → Edit
  succeeds : ℤ → Edit
  toggles : ℤ → Edit
  pauses_subscription : ℤ → Edit

pub data Call : Type 0 where
  waits : ℕ → Call
  writes : Write → Call
  edits : Edit → Call

unfoldable pub write : Unicode → Database → Write → Database
write u db (adds ps) = add_proxies ps db
write u db (adds_with_source a p s id) = (add_proxy_with_source a p s id db).1
write u db (adds_manual a p r n name w k) = add_manual_proxy_exec u a p r n name w k db
write u db (adds_manuals rows r n) = add_manual_proxies u rows r n db
write u db (adds_keyed a p r n k) = (add_manual_proxy_with_node_key u a p r n k db).1
write u db (sets_region a r m) = (update_proxy_region u a r m db).1
write u db (sets_region_by_id id r m) = (update_proxy_region_by_id u id r m db).1
write u db (notes a n) = (update_proxy_note a n db).1
write u db (notes_by_id id n) = (update_proxy_note_by_id id n db).1
write u db (deletes_manual a) = (delete_manual_proxy a db).1
write u db (forward_fails i t) = (record_forward_failure i t db).1
write u db (forward_succeeds i) = (record_forward_success i db).1
write u db (observes i o) = (apply_probe_observation u i o db).1
write u db (probe_fails i o t) = (record_probe_failure u i o t db).1
write u db (recovers i o) = (recover_proxy_from_probe u i o db).1
write u db (disabled_probe_fails i o) = (record_disabled_probe_failure u i o db).1
write u db (disables_route i) = (disable_route_for_policy i db).1
write u db (deletes a) = (delete_proxy a db).1
write u db (deletes_by_id id) = (delete_proxy_by_id id db).1
write u db (deletes_by_subscription id) = (delete_by_subscription_id id db).1
write u db (deletes_by_source s) = (delete_by_source s db).1
write u db (sees_exit a o) = (update_exit_info u a o db).1
write u db (sees_exit_by_id id o) = (update_proxy_exit_info u id o db).1
write u db (sees_exit_in a id o) = (update_subscription_proxy_exit_info u a id o db).1
write u db (sees_disabled_exit_in a id o) =
    (update_disabled_subscription_proxy_exit_info u a id o db).1
write u db (recovers_in a id o) = (recover_subscription_proxy_with_exit_info u a id o db).1
write u db (sets_dual id b) = (set_proxy_dual_protocol id b db).1
write u db (sets_starred id b) = (set_proxy_starred id b db).1
write u db (uses a b) = (record_proxy_use a b db).1
write u db (uses_by_id id b) = (record_proxy_use_by_id id b db).1
write u db (use_fails id t) = (record_proxy_failure_by_id_with_status id t db).1
write u db (blocks_countries codes) = (disable_blocked_countries u codes db).1
write u db (allows_countries codes) = (disable_not_allowed_countries u codes db).1
write u db (disables a) = (disable_proxy a db).1
write u db (disables_by_id id) = (disable_proxy_by_id id db).1
write u db (disables_in a id) = (disable_subscription_proxy a id db).1
write u db (enables a) = (enable_proxy a db).1
write u db (enables_by_id id) = (enable_proxy_by_id id db).1
write u db (enables_in a id) = (enable_subscription_proxy a id db).1
write u db (pauses a) = (pause_proxy a db).1
write u db (pauses_by_id id) = (pause_proxy_by_id id db).1
write u db (unpauses a) = (unpause_proxy a db).1
write u db (unpauses_by_id id) = (unpause_proxy_by_id id db).1

unfoldable pub edit : Database → Edit → Database
edit db (subscribes n l f t m h) = (add_subscription n l f t m h db).1
edit db (contributes n l m) = (add_contributed_subscription n l m db).1
edit db (edits_subscription id n l f t m h) = (update_subscription id n l f t m h db).1
edit db (unsubscribes id) = (delete_subscription id db).1
edit db (fetches id n) = (update_subscription_fetch id n db).1
edit db (attempts id) = (update_subscription_attempt id db).1
edit db (succeeds id) = (update_subscription_success id db).1
edit db (toggles id) = (toggle_subscription id db).1
edit db (pauses_subscription id) = (pause_subscription id db).1

unfoldable pub step : Unicode → Database → Call → Database
unfolding write edit
step u db (waits d) = record db { now = db.now + d }
step u db (writes w) = write u db w
step u db (edits e) = edit db e

unfoldable pub run : Unicode → Database → List Call → Database
unfolding step
run u db [] = db
run u db (c ∷ cs) = run u (step u db c) cs
