-- ===== src/Storage/History/Writes.antt =====
-- The writes of storage/ on nodes: they keep the invariant of the tables, and leave the subscriptions.
use geo_proxy.Common.{
  ℕ, ◌≡◌, refl, ◌∙◌, Bool, true, false, ◌&&◌, List, [], ◌∷◌, if◌then◌else◌, arith, Bool-cases, inl,
  inr,
}
use geo_proxy.Common.Int.{ℤ, pos, leb_ℤ}
use geo_proxy.Common.Key.{Text, text_eq}
use geo_proxy.GoText.{Unicode}
use geo_proxy.Storage.{Proxy}
use geo_proxy.Storage.Table.{
  Row, Database, Reply, done, failed, source_subscription, update_proxies, delete_proxies, required,
}
use geo_proxy.Storage.Regions.Codes.{LeavesNoUpper}
use geo_proxy.Storage.Probes.{
  returning_status, record_forward_failure, record_forward_success, apply_probe_observation,
  record_probe_failure, recover_proxy_from_probe, record_disabled_probe_failure,
  disable_route_for_policy,
}
use geo_proxy.Storage.Updates.{
  use_found, disable_countries, finish_address_only_mutation, delete_proxy, delete_proxy_by_id,
  delete_by_subscription_id, delete_by_source, update_exit_info, update_proxy_exit_info,
  update_subscription_proxy_exit_info, update_disabled_subscription_proxy_exit_info,
  recover_subscription_proxy_with_exit_info, set_proxy_dual_protocol, set_proxy_starred,
  record_proxy_use_by_id, record_proxy_use, record_proxy_failure_by_id_with_status,
  disable_blocked_countries, disable_not_allowed_countries, disable_proxy, disable_proxy_by_id,
  disable_subscription_proxy, enable_proxy, enable_proxy_by_id, enable_subscription_proxy,
  pause_proxy, pause_proxy_by_id, unpause_proxy, unpause_proxy_by_id,
}
use geo_proxy.Storage.Manual.{
  upsert, add_proxy, add_proxies, add_owned, add_proxy_with_source, add_manual_proxy_exec,
  add_manual_proxies, edit_keyed, add_manual_proxy_with_node_key, update_proxy_region,
  update_proxy_region_by_id, update_proxy_note, update_proxy_note_by_id, delete_manual_proxy,
}
use geo_proxy.Storage.Sound.{IsSound, Kept, update_proxies-IsSound, delete_proxies-IsSound}
use geo_proxy.Storage.Sound.Rows.{
  forward_failed-Kept, observed-Kept, probe_failed-Kept, recovered-Kept, disabled_probe_failed-Kept,
  exit_info-Kept, recovered_exit-Kept, forward_succeeded-Kept, policy-Kept, disabled-Kept,
  count_use-Kept, failed_use-Kept, disabled_now-Kept, enabled-Kept, paused-Kept, unpaused-Kept,
  set_note-Kept, set_region-Kept,
}
use geo_proxy.Storage.Sound.Manual.{
  add_proxies-IsSound, add_proxy_with_source-IsSound, add_manual_proxy_exec-IsSound,
  add_manual_proxies-IsSound,
}
use geo_proxy.Storage.Sound.Keyed.{add_manual_proxy_with_node_key-IsSound}
use geo_proxy.Storage.History.{
  write, Write, adds, adds_with_source, adds_manual, adds_manuals, adds_keyed, forward_fails,
  probe_fails, recovers, uses, use_fails, blocks_countries, allows_countries,
}

-- A write on `proxies` only.
pub record NodeWrite (db t : Database) : Type 0 where
  pub sound : IsSound db → IsSound t
  pub parents : t.subscriptions ≡ db.subscriptions
  pub counter : t.next_subscription ≡ db.next_subscription

same-NodeWrite : (db : Database) → NodeWrite db db
same-NodeWrite db = record { sound = λ s. s; parents = refl; counter = refl }

update_proxies-NodeWrite :
    (test : Row → Bool) (set : Row → Row) (db : Database)
    → ((r : Row) → Kept r (set r))
    → NodeWrite db (update_proxies test set db).1
unfolding update_proxies
update_proxies-NodeWrite test set db keep = record {
  sound = update_proxies-IsSound test set db keep;
  parents = refl;
  counter = refl;
}

delete_proxies-NodeWrite :
    (test : Row → Bool) (db : Database) → NodeWrite db (delete_proxies test db).1
unfolding delete_proxies
delete_proxies-NodeWrite test db = record {
  sound = delete_proxies-IsSound test db;
  parents = refl;
  counter = refl;
}

required-NodeWrite :
    (db : Database) (x : ℕ × Database) → NodeWrite db x.1 → NodeWrite db (required x).1
required-NodeWrite db (n, t) w = w

returning-NodeWrite :
    (db : Database) (test : Row → Bool) (x : ℕ × Database)
    → NodeWrite db x.1
    → NodeWrite db (returning_status test x).1
unfolding returning_status
returning-NodeWrite db test (n, t) w = w

finish-NodeWrite :
    (db : Database) (address : Text) (x : ℕ × Database)
    → NodeWrite db x.1
    → NodeWrite db (finish_address_only_mutation address x).1
unfolding finish_address_only_mutation
finish-NodeWrite db address (n, t) w = ground (arith, w)

ruleset writing = (
  same-NodeWrite, update_proxies-NodeWrite, delete_proxies-NodeWrite, required-NodeWrite,
  returning-NodeWrite, finish-NodeWrite,
)

ruleset row_rules = (
  forward_failed-Kept, forward_succeeded-Kept, observed-Kept, probe_failed-Kept, recovered-Kept,
  disabled_probe_failed-Kept, exit_info-Kept, recovered_exit-Kept, policy-Kept, disabled-Kept,
  count_use-Kept, failed_use-Kept, disabled_now-Kept, enabled-Kept, paused-Kept, unpaused-Kept,
  set_note-Kept, set_region-Kept,
)

if-NodeWrite :
    {A : Type 0} (db : Database) (b : Bool) (x y : A × Database)
    → NodeWrite db x.1
    → NodeWrite db y.1
    → NodeWrite db (if b then x else y).1
if-NodeWrite db true x y v w = v
if-NodeWrite db false x y v w = w

trans-NodeWrite : (db t w : Database) → NodeWrite db t → NodeWrite t w → NodeWrite db w
trans-NodeWrite db t w a b = record {
  sound = λ s. b.sound (a.sound s);
  parents = b.parents ∙ a.parents;
  counter = b.counter ∙ a.counter;
}

use_found-NodeWrite :
    (found : Reply Proxy) (success : Bool) (db : Database)
    → NodeWrite db (use_found found success db).1
unfolding use_found record_proxy_use_by_id
use_found-NodeWrite (done p) success db = search (writing, row_rules)
use_found-NodeWrite (failed e) success db = search writing

disable_countries-NodeWrite :
    (u : Unicode) (country_codes : List Text) (x : ℕ × Database)
    → NodeWrite x.1 (disable_countries u country_codes x).1
unfolding disable_countries
disable_countries-NodeWrite u [] (n, db) = same-NodeWrite db
disable_countries-NodeWrite u (code ∷ country_codes) (n, db) =
    trans-NodeWrite db _ _ (search (writing, row_rules))
      (disable_countries-NodeWrite u country_codes _)

disable_not_allowed_countries-NodeWrite :
    (u : Unicode) (country_codes : List Text) (db : Database)
    → NodeWrite db (disable_not_allowed_countries u country_codes db).1
unfolding disable_not_allowed_countries
disable_not_allowed_countries-NodeWrite u [] db = same-NodeWrite db
disable_not_allowed_countries-NodeWrite u (code ∷ country_codes) db = search (writing, row_rules)

upsert-parents :
    (set : Row → Row) (new : Row) (db : Database)
    → ((upsert set new db).subscriptions ≡ db.subscriptions)
      × ((upsert set new db).next_subscription ≡ db.next_subscription)
unfolding upsert
upsert-parents set new db = (ground arith, ground arith)

add_proxies-NodeWrite : (ps : List Proxy) (db : Database) → NodeWrite db (add_proxies ps db)
unfolding add_proxies add_proxy
add_proxies-NodeWrite [] db = same-NodeWrite db
add_proxies-NodeWrite (p ∷ ps) db =
    trans-NodeWrite db _ _
      (record {
        sound = add_proxies-IsSound (p ∷ []) db;
        parents = (upsert-parents _ _ db).0;
        counter = (upsert-parents _ _ db).1;
      })
      (add_proxies-NodeWrite ps _)

add_manual_proxies-NodeWrite :
    (u : Unicode) (h : LeavesNoUpper u) (rows : List Row) (region note : Text) (db : Database)
    → NodeWrite db (add_manual_proxies u rows region note db)
unfolding add_manual_proxies add_manual_proxy_exec
add_manual_proxies-NodeWrite u h [] region note db = same-NodeWrite db
add_manual_proxies-NodeWrite u h (r ∷ rows) region note db =
    trans-NodeWrite db _ _
      (record {
        sound = add_manual_proxies-IsSound u h (r ∷ []) region note db;
        parents = (upsert-parents _ _ db).0;
        counter = (upsert-parents _ _ db).1;
      })
      (add_manual_proxies-NodeWrite u h rows region note _)

add_owned-parents :
    (address protocol source : Text) (id : ℤ) (db : Database)
    → ((add_owned address protocol source id db).1.subscriptions ≡ db.subscriptions)
      × ((add_owned address protocol source id db).1.next_subscription ≡ db.next_subscription)
unfolding add_owned
add_owned-parents address protocol source id db =
    elim (Bool-cases (text_eq source source_subscription && leb_ℤ id (pos 0))) [
      | inl e ↦ rw e (refl, refl)
      | inr e ↦ rw e (upsert-parents _ _ db)
    ]

add_proxy_with_source-NodeWrite :
    (address protocol source : Text) (id : ℤ) (db : Database)
    → NodeWrite db (add_proxy_with_source address protocol source id db).1
unfolding add_proxy_with_source
add_proxy_with_source-NodeWrite address protocol source id db = record {
  sound = add_proxy_with_source-IsSound address protocol source id db;
  parents = (add_owned-parents address protocol source _ db).0;
  counter = (add_owned-parents address protocol source _ db).1;
}

module _ (u : Unicode) (h : LeavesNoUpper u) (address protocol region note : Text) where
  add_manual_proxy_exec-NodeWrite :
      (username password node_key : Text) (db : Database)
      → NodeWrite db
          (add_manual_proxy_exec u address protocol region note username password node_key db)
  unfolding add_manual_proxy_exec
  add_manual_proxy_exec-NodeWrite username password node_key db = record {
    sound =
        add_manual_proxy_exec-IsSound u h address protocol region note username password node_key
          db;
    parents = (upsert-parents _ _ db).0;
    counter = (upsert-parents _ _ db).1;
  }

  edit_keyed-parents :
      (node_key : Text) (rows : List Row) (db : Database)
      → ((edit_keyed u address protocol region note node_key rows db).1.subscriptions
          ≡ db.subscriptions)
        × ((edit_keyed u address protocol region note node_key rows db).1.next_subscription
            ≡ db.next_subscription)
  unfolding edit_keyed update_proxies add_manual_proxy_exec
  edit_keyed-parents node_key [] db = upsert-parents _ _ db
  edit_keyed-parents node_key (old ∷ []) db = (ground arith, ground arith)
  edit_keyed-parents node_key (old ∷ other ∷ rest) db = (refl, refl)

  add_manual_proxy_with_node_key-NodeWrite :
      (node_key : Text) (db : Database)
      → NodeWrite db (add_manual_proxy_with_node_key u address protocol region note node_key db).1
  unfolding add_manual_proxy_with_node_key
  add_manual_proxy_with_node_key-NodeWrite [] db = add_manual_proxy_exec-NodeWrite [] [] [] db
  add_manual_proxy_with_node_key-NodeWrite (b ∷ node_key) db = record {
    sound =
        add_manual_proxy_with_node_key-IsSound u h address protocol region note (b ∷ node_key) db;
    parents = (edit_keyed-parents (b ∷ node_key) _ db).0;
    counter = (edit_keyed-parents (b ∷ node_key) _ db).1;
  }

-- Every write on nodes keeps the invariant, and leaves the subscriptions as they were.
module _ (u : Unicode) (h : LeavesNoUpper u) (db : Database) where
  pub write-NodeWrite : (w : Write) → NodeWrite db (write u db w)
  unfolding write record_forward_failure record_forward_success apply_probe_observation
      record_probe_failure recover_proxy_from_probe record_disabled_probe_failure
      disable_route_for_policy delete_proxy delete_proxy_by_id delete_by_subscription_id
      delete_by_source update_exit_info update_proxy_exit_info update_subscription_proxy_exit_info
      update_disabled_subscription_proxy_exit_info recover_subscription_proxy_with_exit_info
      set_proxy_dual_protocol set_proxy_starred record_proxy_use_by_id record_proxy_use
      record_proxy_failure_by_id_with_status disable_blocked_countries disable_proxy
      disable_proxy_by_id disable_subscription_proxy enable_proxy enable_proxy_by_id
      enable_subscription_proxy pause_proxy pause_proxy_by_id unpause_proxy unpause_proxy_by_id
      update_proxy_region update_proxy_region_by_id update_proxy_note update_proxy_note_by_id
      delete_manual_proxy
  write-NodeWrite (adds ps) = add_proxies-NodeWrite ps db
  write-NodeWrite (adds_with_source a p s id) = add_proxy_with_source-NodeWrite a p s id db
  write-NodeWrite (adds_manual a p r n name w k) =
      add_manual_proxy_exec-NodeWrite u h a p r n name w k db
  write-NodeWrite (adds_manuals rows r n) = add_manual_proxies-NodeWrite u h rows r n db
  write-NodeWrite (adds_keyed a p r n k) = add_manual_proxy_with_node_key-NodeWrite u h a p r n k db
  write-NodeWrite (uses a b) = use_found-NodeWrite _ b db
  write-NodeWrite (blocks_countries country_codes) =
      disable_countries-NodeWrite u country_codes (0, db)
  write-NodeWrite (allows_countries country_codes) =
      disable_not_allowed_countries-NodeWrite u country_codes db
  write-NodeWrite (forward_fails i t) = search (writing, row_rules, if-NodeWrite)
  write-NodeWrite (probe_fails i o t) = search (writing, row_rules, if-NodeWrite)
  write-NodeWrite (recovers i o) = search (writing, row_rules, if-NodeWrite)
  write-NodeWrite (use_fails id t) = search (writing, row_rules, if-NodeWrite)
  write-NodeWrite _ = search (writing, row_rules)
