-- ===== src/Storage/History/Invariant.antt =====
-- Every history of writes on a new file keeps the invariant of the tables.
use geo_proxy.Common.{ℕ, refl, Bool, true, false, List, [], ◌∷◌, if◌then◌else◌}
use geo_proxy.Common.Int.{ℤ}
use geo_proxy.Common.Key.{Text}
use geo_proxy.GoText.{Unicode}
use geo_proxy.Storage.Table.{Database}
use geo_proxy.Storage.Regions.Codes.{LeavesNoUpper}
use geo_proxy.Storage.Sound.{IsSound}
use geo_proxy.Storage.Sound.Manual.{required-IsSound}
use geo_proxy.Storage.Subscriptions.{
  new_subscription, insert_subscription, add_subscription, add_contributed_subscription,
  update_subscription, update_subscription_fetch, update_subscription_attempt,
  update_subscription_success, toggle_subscription, pause_subscription,
}
use geo_proxy.Storage.Sound.Parents.{
  insert_subscription-IsSound, update_subscriptions-IsSound, or_rolled_back-IsSound,
  delete_subscription-IsSound, set_subscription-IsSound, disable_nodes-IsSound,
  toggle_found-IsSound,
}
use geo_proxy.Storage.History.{
  new_database, edit, step, run, Edit, Call, contributes, waits, writes, edits,
}
use geo_proxy.Storage.History.Writes.{write-NodeWrite}

new_subscription-IsSound :
    (name url file_path format : Text) (refresh_min : ℤ) (contributed : Bool) (headers : Text)
    (db : Database)
    → IsSound db
    → IsSound
        (insert_subscription
          (new_subscription name url file_path format refresh_min contributed headers db)
          db).1
new_subscription-IsSound name url file_path format refresh_min contributed headers db s =
    insert_subscription-IsSound _ db (unfold new_subscription in refl) s

if-IsSound :
    {A : Type 0} (b : Bool) (x y : A × Database)
    → IsSound x.1
    → IsSound y.1
    → IsSound (if b then x else y).1
if-IsSound true x y s t = s
if-IsSound false x y s t = t

ruleset editing = (
  if-IsSound, required-IsSound, new_subscription-IsSound, update_subscriptions-IsSound,
  delete_subscription-IsSound, or_rolled_back-IsSound, set_subscription-IsSound,
  disable_nodes-IsSound, toggle_found-IsSound,
)

edit-IsSound : (db : Database) (e : Edit) → IsSound db → IsSound (edit db e)
unfolding edit add_subscription add_contributed_subscription update_subscription
    update_subscription_fetch update_subscription_attempt update_subscription_success
    toggle_subscription pause_subscription
edit-IsSound db (contributes n [] m) s = s
edit-IsSound db (contributes n (b ∷ url) m) s = search editing
edit-IsSound db _ s = search editing

new_database-IsSound : (now : ℕ) → IsSound (new_database now)
new_database-IsSound now = record {
  counting = refl;
  counting_subscriptions = refl;
  ids_distinct = refl;
  ids_given = refl;
  identities_distinct = refl;
  owners_fit = refl;
  regions_are_codes = refl;
  subscriptions_distinct = refl;
  subscriptions_given = refl;
}

module _ (u : Unicode) (h : LeavesNoUpper u) where
  step-IsSound : (db : Database) (c : Call) → IsSound db → IsSound (step u db c)
  unfolding step
  step-IsSound db (waits d) s = record {
    counting = s.counting;
    counting_subscriptions = s.counting_subscriptions;
    ids_distinct = s.ids_distinct;
    ids_given = s.ids_given;
    identities_distinct = s.identities_distinct;
    owners_fit = s.owners_fit;
    regions_are_codes = s.regions_are_codes;
    subscriptions_distinct = s.subscriptions_distinct;
    subscriptions_given = s.subscriptions_given;
  }
  step-IsSound db (writes w) s = (write-NodeWrite u h db w).sound s
  step-IsSound db (edits e) s = edit-IsSound db e s

  pub run-IsSound : (db : Database) (calls : List Call) → IsSound db → IsSound (run u db calls)
  unfolding run
  run-IsSound db [] s = s
  run-IsSound db (c ∷ calls) s = run-IsSound (step u db c) calls (step-IsSound db c s)

  -- Whatever writes a new file has seen, of whatever functions of storage/ and in whatever order: no
  -- two nodes share an ID, nor an address, source and subscription; each ID was given by the counter;
  -- a manual node has no subscription, and one of a subscription names one; every region is empty or
  -- two lower-case letters; and no two subscriptions share an ID. The lower-casing of texts that are
  -- not ASCII is assumed to leave no upper-case ASCII letter.
  pub run_new-IsSound : (now : ℕ) (calls : List Call) → IsSound (run u (new_database now) calls)
  run_new-IsSound now calls = run-IsSound (new_database now) calls (new_database-IsSound now)
