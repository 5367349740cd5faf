-- ===== src/Storage/Subscriptions.antt =====
-- storage/subscriptions.go: the table of subscriptions, and what a pause or a deletion does to nodes.
-- The functions that several calls share stand for the SQL that they share.
use geo_proxy.Common.{
  ℕ, suc, ◌==◌, Bool, true, false, ◌&&◌, ◌||◌, not, [], ◌∷◌, ◌++◌, Option, none, some,
  if◌then◌else◌, ltb,
}
use geo_proxy.Common.Int.{ℤ, pos, eq_ℤ}
use geo_proxy.Common.Key.{Text, text_eq}
use geo_proxy.GoText.{codes}
use geo_proxy.Storage.Table.{
  Row, Subscription, Database, no_rows, not_unique, not_found, invalid, Reply, done, failed,
  source_subscription, is_disabled, is_active, update_where, count_rows, delete_where, first_where,
  update_proxies, required, usable, selectable_scope,
}
use geo_proxy.Storage.Updates.{delete_by_subscription_id}
use geo_proxy.Storage.Identity.{set_status}

unfoldable pub is_subscription : ℤ → Subscription → Bool
is_subscription id s = eq_ℤ s.id id

-- A row other than `id` with the URL or the file, where they are not empty: the two unique indexes.
unfoldable pub taken : ℤ → Text → Text → Subscription → Bool
taken id url file_path s =
    not (eq_ℤ s.id id)
    && (not (text_eq url []) && text_eq s.url url
        || not (text_eq file_path []) && text_eq s.file_path file_path)

unfoldable pub clashes : ℤ → Text → Text → Database → Bool
unfolding count_rows
clashes id url file_path db = ltb 0 (count_rows (taken id url file_path) db.subscriptions)

unfoldable pub new_subscription :
    Text → Text → Text → Text → ℤ → Bool → Text → Database → Subscription
new_subscription name url file_path format refresh_min contributed headers db = record {
  id = pos db.next_subscription;
  name = name;
  url = url;
  file_path = file_path;
  format = format;
  refresh_min = refresh_min;
  last_fetch = none;
  last_success = none;
  status = codes "active";
  proxy_count = pos 0;
  created_at = db.now;
  contributed = contributed;
  headers = headers;
}

-- INSERT, and LastInsertId.
unfoldable pub insert_subscription : Subscription → Database → Reply ℤ × Database
insert_subscription new db =
    if clashes new.id new.url new.file_path db then (failed not_unique, db) else (
      done new.id,
      record db {
        subscriptions = db.subscriptions ++ (new ∷ []);
        next_subscription = suc db.next_subscription;
      },
    )

unfoldable pub add_subscription :
    Text → Text → Text → Text → ℤ → Text → Database → Reply ℤ × Database
add_subscription name url file_path format refresh_min headers db =
    insert_subscription (new_subscription name url file_path format refresh_min false headers db) db

unfoldable pub count_by_subscription_id : ℤ → Database → ℕ × ℕ
unfolding count_rows
count_by_subscription_id id db = (
  count_rows
      (λ (r : Row).
        eq_ℤ r.proxy.subscription_id id && usable r.proxy && selectable_scope db r.proxy)
      db.proxies,
  count_rows (λ (r : Row). eq_ℤ r.proxy.subscription_id id && is_disabled r.proxy) db.proxies,
)

unfoldable pub count_paused_by_subscription_id : ℤ → Database → ℕ
unfolding count_rows
count_paused_by_subscription_id id db =
    count_rows (λ (r : Row). eq_ℤ r.proxy.subscription_id id && r.proxy.user_paused) db.proxies

unfoldable pub add_contributed_subscription : Text → Text → ℤ → Database → Reply ℤ × Database
unfolding count_rows
add_contributed_subscription name [] refresh_min db = (failed invalid, db)
add_contributed_subscription name (b ∷ url) refresh_min db =
    if ltb 0 (count_rows (λ (s : Subscription). text_eq s.url (b ∷ url)) db.subscriptions)
    then (failed not_unique, db)
    else insert_subscription
        (new_subscription name (b ∷ url) [] (codes "auto") refresh_min true [] db) db

-- An UPDATE of `subscriptions`, with the number of rows that it affects.
unfoldable pub update_subscriptions :
    (Subscription → Bool) → (Subscription → Subscription) → Database → ℕ × Database
unfolding count_rows update_where
update_subscriptions test set db = (
  count_rows test db.subscriptions,
  record db { subscriptions = update_where test set db.subscriptions },
)

unfoldable pub update_subscription :
    ℤ → Text → Text → Text → Text → ℤ → Text → Database → Reply (Unit {0}) × Database
update_subscription id name url file_path format refresh_min headers db =
    if ltb 0 (count_rows (is_subscription id) db.subscriptions) && clashes id url file_path db
    then (failed not_unique, db)
    else required (
        update_subscriptions (is_subscription id)
          (λ s. record s {
            name = name;
            url = url;
            file_path = file_path;
            format = format;
            refresh_min = refresh_min;
            headers = headers;
          })
          db)

-- A transaction that is rolled back when its last statement affects no row.
unfoldable pub or_rolled_back : Database → ℕ × Database → Reply (Unit {0}) × Database
or_rolled_back db (n, changed) = if n == 0 then (failed no_rows, db) else (done tt, changed)

unfoldable pub without_subscription : ℤ → ℕ × Database → ℕ × Database
unfolding count_rows delete_where
without_subscription id (deleted, db) = (
  count_rows (is_subscription id) db.subscriptions,
  record db { subscriptions = delete_where (is_subscription id) db.subscriptions },
)

unfoldable pub delete_subscription : ℤ → Database → Reply (Unit {0}) × Database
unfolding delete_by_subscription_id
delete_subscription id db =
    or_rolled_back db (without_subscription id (delete_by_subscription_id id db))

subscription_of : Option Subscription → Reply Subscription
subscription_of none = failed not_found
subscription_of (some s) = done s

unfoldable pub get_subscription : ℤ → Database → Reply Subscription
unfolding subscription_of first_where
get_subscription id db = subscription_of (first_where (is_subscription id) db.subscriptions)

unfoldable pub update_subscription_fetch : ℤ → ℤ → Database → Reply (Unit {0}) × Database
update_subscription_fetch id proxy_count db = required (
    update_subscriptions (is_subscription id)
      (λ s. record s { last_fetch = some db.now; proxy_count = proxy_count }) db)

unfoldable pub update_subscription_attempt : ℤ → Database → Reply (Unit {0}) × Database
update_subscription_attempt id db =
    required
      (update_subscriptions (is_subscription id) (λ s. record s { last_fetch = some db.now }) db)

unfoldable pub update_subscription_success : ℤ → Database → Reply (Unit {0}) × Database
update_subscription_success id db =
    required
      (update_subscriptions (is_subscription id) (λ s. record s { last_success = some db.now }) db)

unfoldable pub set_subscription : ℤ → Text → Database → ℕ × Database
set_subscription id status db =
    update_subscriptions (is_subscription id) (λ s. record s { status = status }) db

-- UPDATE proxies SET status = 'disabled' WHERE source = ? AND subscription_id = ? AND status != 'disabled'
unfoldable pub disable_nodes : ℤ → ℕ × Database → ℕ × Database
disable_nodes id (n, db) =
    let (disabled, changed) =
      update_proxies
        (λ (r : Row).
          text_eq r.proxy.source source_subscription
          && eq_ℤ r.proxy.subscription_id id
          && not (is_disabled r.proxy))
        (set_status (codes "disabled")) db in
    (n, changed)

unfoldable pub toggle_found : ℤ → Option Subscription → Database → Reply Text × Database
toggle_found id none db = (failed no_rows, db)
toggle_found id (some s) db =
    if is_active s.status
    then (let (n, t) = disable_nodes id (set_subscription id (codes "paused") db) in
        (done (codes "paused"), t))
    else (let (n, t) = set_subscription id (codes "active") db in (done (codes "active"), t))

unfoldable pub toggle_subscription : ℤ → Database → Reply Text × Database
unfolding first_where
toggle_subscription id db = toggle_found id (first_where (is_subscription id) db.subscriptions) db

unfoldable pub pause_subscription : ℤ → Database → Reply (Unit {0}) × Database
pause_subscription id db =
    or_rolled_back db (disable_nodes id (set_subscription id (codes "paused") db))
