-- ===== src/Storage/Sound/Parents.antt =====
-- The writes of storage/subscriptions.go keep the invariant of the tables.
use geo_proxy.Common.{
  ℕ, suc, ◌≡◌, refl, Bool, Option, none, some, ◌==◌, map, arith, Bool-cases, inl, inr,
}
use geo_proxy.Common.Int.{ℤ, pos, eq_ℤ}
use geo_proxy.Common.Key.{Text}
use geo_proxy.GoText.{codes}
use geo_proxy.Storage.Table.{Subscription, Database, is_active}
use geo_proxy.Storage.Table.Keeping.{
  all_of-append, distinct-append, map-update_where, all_of-map-delete_where,
  distinct-map-delete_where, map-append,
}
use geo_proxy.Storage.Updates.{delete_by_subscription_id}
use geo_proxy.Storage.Subscriptions.{
  insert_subscription, clashes, update_subscriptions, or_rolled_back, without_subscription,
  delete_subscription, set_subscription, disable_nodes, toggle_found, is_subscription,
}
use geo_proxy.Storage.Sound.{
  IsSound, subscription_key, given_before, later_number, grown_number, update_proxies-IsSound,
  delete_proxies-IsSound,
}
use geo_proxy.Storage.Sound.Rows.{disabled-Kept}

pub insert_subscription-IsSound :
    (new : Subscription) (db : Database)
    → new.id ≡ pos db.next_subscription
    → IsSound db
    → IsSound (insert_subscription new db).1
unfolding insert_subscription
insert_subscription-IsSound new db e s =
    elim (Bool-cases (clashes new.id new.url new.file_path db)) [
      | inl there ↦ rw there s
      | inr fresh ↦ rw fresh (record {
        counting = s.counting;
        counting_subscriptions = ground (arith, s.counting_subscriptions);
        ids_distinct = s.ids_distinct;
        ids_given = s.ids_given;
        identities_distinct = s.identities_distinct;
        owners_fit = s.owners_fit;
        regions_are_codes = s.regions_are_codes;
        subscriptions_distinct =
            rw (map-append subscription_key db.subscriptions new, e)
              (distinct-append eq_ℤ (map subscription_key db.subscriptions)
                (pos db.next_subscription) s.subscriptions_distinct
                (later_number db.next_subscription (map subscription_key db.subscriptions)
                  s.subscriptions_given));
        subscriptions_given =
            rw (map-append subscription_key db.subscriptions new, e)
              (all_of-append (given_before (suc db.next_subscription))
                (map subscription_key db.subscriptions) (pos db.next_subscription)
                (grown_number db.next_subscription (map subscription_key db.subscriptions)
                  s.subscriptions_given)
                (ground (arith, s.counting_subscriptions)));
      })
    ]

pub update_subscriptions-IsSound :
    (test : Subscription → Bool) (set : Subscription → Subscription) (db : Database)
    → ((x : Subscription) → (set x).id ≡ x.id)
    → IsSound db
    → IsSound (update_subscriptions test set db).1
unfolding update_subscriptions
update_subscriptions-IsSound test set db keep s =
    let ids = map-update_where subscription_key test set db.subscriptions keep in
    record {
      counting = s.counting;
      counting_subscriptions = s.counting_subscriptions;
      ids_distinct = s.ids_distinct;
      ids_given = s.ids_given;
      identities_distinct = s.identities_distinct;
      owners_fit = s.owners_fit;
      regions_are_codes = s.regions_are_codes;
      subscriptions_distinct = rw ids s.subscriptions_distinct;
      subscriptions_given = rw ids s.subscriptions_given;
    }

pub or_rolled_back-IsSound :
    (db : Database) (x : ℕ × Database) → IsSound db → IsSound x.1 → IsSound (or_rolled_back db x).1
unfolding or_rolled_back
or_rolled_back-IsSound db (n, changed) s t = elim (Bool-cases (n == 0)) [
  | inl e ↦ rw e s
  | inr e ↦ rw e t
]

pub without_subscription-IsSound :
    (id : ℤ) (x : ℕ × Database) → IsSound x.1 → IsSound (without_subscription id x).1
unfolding without_subscription
without_subscription-IsSound id (n, db) s = record {
  counting = s.counting;
  counting_subscriptions = s.counting_subscriptions;
  ids_distinct = s.ids_distinct;
  ids_given = s.ids_given;
  identities_distinct = s.identities_distinct;
  owners_fit = s.owners_fit;
  regions_are_codes = s.regions_are_codes;
  subscriptions_distinct =
      distinct-map-delete_where subscription_key eq_ℤ _ db.subscriptions s.subscriptions_distinct;
  subscriptions_given =
      all_of-map-delete_where subscription_key _ _ db.subscriptions s.subscriptions_given;
}

pub delete_subscription-IsSound :
    (id : ℤ) (db : Database) → IsSound db → IsSound (delete_subscription id db).1
unfolding delete_subscription delete_by_subscription_id
delete_subscription-IsSound id db s =
    or_rolled_back-IsSound db _ s
      (without_subscription-IsSound id _ (delete_proxies-IsSound _ db s))

pub set_subscription-IsSound :
    (id : ℤ) (status : Text) (db : Database)
    → IsSound db
    → IsSound (set_subscription id status db).1
unfolding set_subscription
set_subscription-IsSound id status db s =
    update_subscriptions-IsSound (is_subscription id) _ db (λ x. refl) s

pub disable_nodes-IsSound :
    (id : ℤ) (x : ℕ × Database) → IsSound x.1 → IsSound (disable_nodes id x).1
unfolding disable_nodes
disable_nodes-IsSound id (n, db) s = update_proxies-IsSound _ _ db disabled-Kept s

pub toggle_found-IsSound :
    (id : ℤ) (found : Option Subscription) (db : Database)
    → IsSound db
    → IsSound (toggle_found id found db).1
unfolding toggle_found
toggle_found-IsSound id none db s = s
toggle_found-IsSound id (some x) db s = elim (Bool-cases (is_active x.status)) [
  | inl e ↦ rw e (disable_nodes-IsSound id _ (set_subscription-IsSound id (codes "paused") db s))
  | inr e ↦ rw e (set_subscription-IsSound id (codes "active") db s)
]
