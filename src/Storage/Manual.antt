-- ===== src/Storage/Manual.antt =====
-- storage/proxy_methods.go and storage/manual.go: nodes that are added by hand or by a subscription,
-- and what the operator edits. A row is one of (address, source, subscription_id).
pub mod Added
use geo_proxy.Common.{
  ℕ, suc, ◌+◌, ◌==◌, Bool, true, false, ◌&&◌, ◌||◌, not, List, [], ◌∷◌, ◌++◌, Option, none, some,
  if◌then◌else◌, ltb, select,
}
use geo_proxy.Common.Int.{ℤ, pos, negsuc, eq_ℤ, leb_ℤ}
use geo_proxy.Common.Key.{Text, text_eq}
use geo_proxy.GoText.{Unicode, codes}
use geo_proxy.Storage.{Proxy}
use geo_proxy.Storage.Table.{
  Row, Database, Failure, ambiguous, not_unique, invalid, Reply, done, failed, source_manual,
  source_subscription, update_where, count_rows, update_proxies, delete_proxies, required,
}
use geo_proxy.Storage.Regions.{normalize_manual_region, normalize_protocol}
use geo_proxy.Storage.Updates.{with_id, sole_address, finish_address_only_mutation}

-- A row with the columns' defaults of `initSchema`.
unfoldable pub new_row : ℕ → ℕ → Text → Text → Text → ℤ → Row
new_row id now address protocol source subscription_id = record {
  proxy = record {
    id = pos id;
    address = address;
    protocol = protocol;
    region = [];
    latency = pos 0;
    use_count = pos 0;
    success_count = pos 0;
    fail_count = pos 0;
    status = codes "active";
    user_paused = false;
    source = source;
    subscription_id = subscription_id;
    cf_blocked = negsuc 0;
    dual_protocol = false;
    ai_reachability = [];
    node_key = [];
  };
  details = record {
    region_source = codes "auto";
    note = [];
    exit_ip = [];
    exit_location = [];
    quality_grade = codes "C";
    last_used = none;
    last_check = none;
    exit_checked_at = none;
    disabled_at = none;
    created_at = now;
    ipapiis_score = negsuc 0;
    ipapi_flags = [];
    ipapi_flags_seen = false;
    starred = false;
    username = [];
    password = [];
  };
}

-- `idx_proxy_identity`
unfoldable pub has_identity : Text → Text → ℤ → Row → Bool
has_identity address source subscription_id r =
    text_eq r.proxy.address address
    && text_eq r.proxy.source source
    && eq_ℤ r.proxy.subscription_id subscription_id

-- INSERT … ON CONFLICT(address, source, subscription_id) DO UPDATE SET …; DO NOTHING is the identity.
-- The engine may leave gaps between the numbers that it gives; the model does not.
unfoldable pub upsert : (Row → Row) → Row → Database → Database
unfolding count_rows update_where has_identity
upsert set new db =
    let same = has_identity new.proxy.address new.proxy.source new.proxy.subscription_id in
    if ltb 0 (count_rows same db.proxies)
    then record db { proxies = update_where same set db.proxies }
    else record db { proxies = db.proxies ++ (new ∷ []); next_id = suc db.next_id }

unfoldable pub add_proxy : Text → Text → Database → Database
add_proxy address protocol db =
    upsert (λ r. r) (new_row db.next_id db.now address protocol source_manual (pos 0)) db

unfoldable pub add_proxies : List Proxy → Database → Database
unfolding add_proxy
add_proxies [] db = db
add_proxies (p ∷ ps) db = add_proxies ps (add_proxy p.address p.protocol db)

unfoldable pub with_source : Text → Row → Row
with_source protocol r = record {
  proxy = record r.proxy { protocol = protocol };
  details = record r.details {
    region_source =
        if text_eq r.details.region_source [] then codes "auto" else r.details.region_source;
  };
}

unfoldable pub add_owned : Text → Text → Text → ℤ → Database → Reply (Unit {0}) × Database
add_owned address protocol source id db =
    if text_eq source source_subscription && leb_ℤ id (pos 0) then (failed invalid, db) else (
      done tt,
      upsert (with_source protocol) (new_row db.next_id db.now address protocol source id) db,
    )

unfoldable pub add_proxy_with_source :
    Text → Text → Text → ℤ → Database → Reply (Unit {0}) × Database
add_proxy_with_source address protocol source subscription_id db =
    add_owned address protocol source
      (if text_eq source source_manual then pos 0 else subscription_id) db

unfoldable pub region_source_of : Text → Text
region_source_of [] = codes "auto"
region_source_of (b ∷ region) = codes "manual"

unfoldable pub set_region : Text → Text → Row → Row
set_region region source r = record {
  proxy = record r.proxy { region = region };
  details = record r.details { region_source = source };
}

unfoldable pub set_note : Text → Row → Row
set_note note r = record r { details = record r.details { note = note } }

module _ (u : Unicode) where
  unfoldable pub manual_key : Text → Text → Text → Text
  manual_key protocol address [] =
      codes "manual:" ++ (normalize_protocol u protocol ++ (codes ":" ++ address))
  manual_key protocol address (b ∷ node_key) = b ∷ node_key

  -- The columns that both the INSERT and the UPDATE of `addManualProxyExec` write.
  unfoldable pub manual_columns : Text → Text → Text → Text → Text → Text → Row → Row
  manual_columns protocol region note username password node_key r =
      let code = normalize_manual_region u region in
      record {
        proxy = record r.proxy {
          protocol = normalize_protocol u protocol;
          region = code;
          status = codes "disabled";
          node_key = node_key;
        };
        details = record r.details {
          region_source = region_source_of code;
          note = note;
          username = username;
          password = password;
        };
      }

  unfoldable pub add_manual_proxy_exec :
      Text → Text → Text → Text → Text → Text → Text → Database → Database
  add_manual_proxy_exec address protocol region note username password node_key db =
      let columns =
        manual_columns protocol region note username password
          (manual_key protocol address node_key) in
      upsert columns (columns (new_row db.next_id db.now address protocol source_manual (pos 0))) db

  unfoldable pub add_manual_proxy : Text → Text → Text → Text → Database → Database
  unfolding add_manual_proxy_exec
  add_manual_proxy address protocol region note db =
      add_manual_proxy_exec address protocol region note [] [] [] db

  unfoldable pub add_manual_proxy_with_credentials :
      Text → Text → Text → Text → Text → Text → Database → Database
  unfolding add_manual_proxy_exec
  add_manual_proxy_with_credentials address protocol region note username password db =
      add_manual_proxy_exec address protocol region note username password [] db

  unfoldable pub add_manual_proxies : List Row → Text → Text → Database → Database
  unfolding add_manual_proxy_exec
  add_manual_proxies [] region note db = db
  add_manual_proxies (r ∷ rows) region note db = add_manual_proxies rows region note (
      add_manual_proxy_exec r.proxy.address r.proxy.protocol region note r.details.username
        r.details.password r.proxy.node_key db)

  -- A new address or protocol is a new route: nothing that was seen of the old one stays.
  unfoldable pub reset_route : Text → Text → Text → Text → Row → Row
  reset_route address protocol region note r =
      let code = normalize_manual_region u region in
      record {
        proxy = record r.proxy {
          address = address;
          protocol = normalize_protocol u protocol;
          region = code;
          latency = pos 0;
          fail_count = pos 0;
          cf_blocked = negsuc 0;
          ai_reachability = [];
          status = codes "disabled";
        };
        details = record r.details {
          region_source = region_source_of code;
          note = note;
          exit_ip = [];
          exit_location = [];
          quality_grade = codes "C";
          last_check = none;
          exit_checked_at = none;
          disabled_at = none;
          ipapiis_score = negsuc 0;
          ipapi_flags = [];
          ipapi_flags_seen = false;
          username = [];
          password = [];
        };
      }

  unfoldable pub relabel : Text → Text → Row → Row
  relabel region note r =
      let code = normalize_manual_region u region in
      set_note note (set_region code (region_source_of code) r)

  -- The rows with the key: one is added, edited, or the key is ambiguous.
  unfoldable pub edit_keyed :
      Text → Text → Text → Text → Text → List Row → Database → Reply (Unit {0}) × Database
  unfolding add_manual_proxy_exec
  edit_keyed address protocol region note node_key [] db =
      (done tt, add_manual_proxy_exec address protocol region note [] [] node_key db)
  edit_keyed address protocol region note node_key (old ∷ []) db =
      let this = λ (r : Row). eq_ℤ r.proxy.id old.proxy.id && text_eq r.proxy.node_key node_key in
      if text_eq old.proxy.address address
        && text_eq old.proxy.protocol (normalize_protocol u protocol)
      then required (update_proxies this (relabel region note) db)
      else if ltb 0 (
          count_rows
            (λ r.
              has_identity address source_manual (pos 0) r && not (eq_ℤ r.proxy.id old.proxy.id))
            db.proxies)
      then (failed not_unique, db)
      else required (update_proxies this (reset_route address protocol region note) db)
  edit_keyed address protocol region note node_key (old ∷ other ∷ rest) db = (failed ambiguous, db)

  unfoldable pub add_manual_proxy_with_node_key :
      Text → Text → Text → Text → Text → Database → Reply (Unit {0}) × Database
  unfolding add_manual_proxy_exec
  add_manual_proxy_with_node_key address protocol region note [] db =
      (done tt, add_manual_proxy_exec address protocol region note [] [] [] db)
  add_manual_proxy_with_node_key address protocol region note (b ∷ node_key) db =
      edit_keyed address protocol region note (b ∷ node_key)
        (select
          (λ (r : Row).
            text_eq r.proxy.source source_manual
            && eq_ℤ r.proxy.subscription_id (pos 0)
            && text_eq r.proxy.node_key (b ∷ node_key))
          db.proxies)
        db

  unfoldable pub update_proxy_region : Text → Text → Bool → Database → Reply (Unit {0}) × Database
  update_proxy_region address region manual db = finish_address_only_mutation address (
      update_proxies (sole_address db address)
        (set_region (normalize_manual_region u region)
          (if manual then codes "manual" else codes "auto"))
        db)

  unfoldable pub update_proxy_region_by_id :
      ℤ → Text → Bool → Database → Reply (Unit {0}) × Database
  update_proxy_region_by_id id region manual db = required (
      update_proxies (with_id id)
        (set_region (normalize_manual_region u region)
          (if manual then codes "manual" else codes "auto"))
        db)

unfoldable pub update_proxy_note : Text → Text → Database → Reply (Unit {0}) × Database
update_proxy_note address note db =
    finish_address_only_mutation address
      (update_proxies (sole_address db address) (set_note note) db)

unfoldable pub update_proxy_note_by_id : ℤ → Text → Database → Reply (Unit {0}) × Database
update_proxy_note_by_id id note db = required (update_proxies (with_id id) (set_note note) db)

unfoldable pub delete_manual_proxy : Text → Database → Reply (Unit {0}) × Database
delete_manual_proxy address db = required (
    delete_proxies (λ r. text_eq r.proxy.address address && text_eq r.proxy.source source_manual)
      db)
