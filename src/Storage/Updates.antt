-- ===== src/Storage/Updates.antt =====
-- The other writes of storage/proxy_updates.go: by address, by ID, by subscription and by country.
pub mod Addresses
use geo_proxy.Common.{
  ℕ, suc, ◌+◌, ◌≡◌, ◌==◌, Bool, true, false, ◌&&◌, ◌||◌, not, List, [], ◌∷◌, ◌++◌, Option, none,
  some, if◌then◌else◌, is_some, ltb,
}
use geo_proxy.Common.Int.{ℤ, pos, eq_ℤ, ltb_ℤ, leb_ℤ, succ_ℤ}
use geo_proxy.Common.Key.{Text, text_eq}
use geo_proxy.GoText.{Unicode, codes, to_upper, lower_byte}
use geo_proxy.Storage.{Proxy}
use geo_proxy.Storage.Table.{
  Row, Details, Database, Failure, no_rows, many_rows, invalid, Reply, done, failed,
  source_subscription, is_disabled, not_paused, first_where, count_rows, update_proxies,
  delete_proxies, required, parent_is, selectable_scope,
}
use geo_proxy.Storage.Regions.{normalize_region}
use geo_proxy.Storage.Lookup.{get_proxy_by_address}
use geo_proxy.Storage.Identity.{
  ExitObservation, trusted_exit, has_latency, write_risk, write_region, write_exit, write_latency,
  stamp_exit, set_status, set_fail_count, stamp_check, coalesce,
}
use geo_proxy.Storage.Probes.{count_failure, returning_status}

unfoldable pub with_id : ℤ → Row → Bool
with_id id r = eq_ℤ r.proxy.id id

-- `uniqueAddressProxyIDWhere`: the one row with the address, if it is the only one.
unfoldable pub sole_address : Database → Text → Row → Bool
sole_address db address r =
    text_eq r.proxy.address address
    && count_rows (λ s. text_eq s.proxy.address address) db.proxies == 1

-- A row of a subscription, by its address.
unfoldable pub of_subscription : Text → ℤ → Row → Bool
of_subscription address subscription_id r =
    text_eq r.proxy.address address
    && text_eq r.proxy.source source_subscription
    && eq_ℤ r.proxy.subscription_id subscription_id

unfoldable pub lookup_failure : Reply Proxy → Reply (Unit {0})
lookup_failure (done p) = failed no_rows
lookup_failure (failed e) = failed e

unfoldable pub finish_address_only_mutation : Text → ℕ × Database → Reply (Unit {0}) × Database
unfolding lookup_failure
finish_address_only_mutation address (n, db) =
    if n == 1
    then (done tt, db)
    else if ltb 1 n
    then (failed many_rows, db)
    else (lookup_failure (get_proxy_by_address db address), db)

unfoldable pub delete_proxy : Text → Database → Reply (Unit {0}) × Database
delete_proxy address db =
    finish_address_only_mutation address (delete_proxies (sole_address db address) db)

unfoldable pub delete_proxy_by_id : ℤ → Database → Reply (Unit {0}) × Database
delete_proxy_by_id id db = required (delete_proxies (with_id id) db)

unfoldable pub delete_by_subscription_id : ℤ → Database → ℕ × Database
delete_by_subscription_id id db =
    delete_proxies
      (λ r. eq_ℤ r.proxy.subscription_id id && text_eq r.proxy.source source_subscription) db

unfoldable pub delete_by_source : Text → Database → ℕ × Database
delete_by_source source db = delete_proxies (λ r. text_eq r.proxy.source source) db

module _ (u : Unicode) where
  -- `updateExitInfoWhereResult`
  unfoldable pub exit_info : ExitObservation → Bool → ℕ → Row → Row
  exit_info o renew now r =
      let kept = if renew then some now else coalesce r.details.last_check now in
      write_risk o (
        write_region u true o (
          stamp_exit (trusted_exit o) now (
            stamp_check kept (
              set_fail_count (pos 0)
                (write_latency (has_latency o) o (write_exit (trusted_exit o) o r))))))

  unfoldable pub update_exit_info : Text → ExitObservation → Database → Reply (Unit {0}) × Database
  update_exit_info address o db =
      finish_address_only_mutation address
        (update_proxies (sole_address db address) (exit_info o true db.now) db)

  unfoldable pub update_proxy_exit_info :
      ℤ → ExitObservation → Database → Reply (Unit {0}) × Database
  update_proxy_exit_info id o db =
      required (update_proxies (with_id id) (exit_info o true db.now) db)

  unfoldable pub update_subscription_proxy_exit_info :
      Text → ℤ → ExitObservation → Database → Reply (Unit {0}) × Database
  update_subscription_proxy_exit_info address subscription_id o db =
      required
        (update_proxies (of_subscription address subscription_id) (exit_info o true db.now) db)

  unfoldable pub update_disabled_subscription_proxy_exit_info :
      Text → ℤ → ExitObservation → Database → Reply (Unit {0}) × Database
  update_disabled_subscription_proxy_exit_info address subscription_id o db = required (
      update_proxies (λ r. of_subscription address subscription_id r && is_disabled r.proxy)
        (exit_info o false db.now) db)

  unfoldable pub recovered_exit : ExitObservation → ℕ → Row → Row
  recovered_exit o now r = write_risk o (
      write_region u true o (
        stamp_check (some now) (
          set_fail_count (pos 0)
            (set_status (codes "active") (write_latency true o (write_exit true o r))))))

  unfoldable pub recover_subscription_proxy_with_exit_info :
      Text → ℤ → ExitObservation → Database → Reply (Unit {0}) × Database
  recover_subscription_proxy_with_exit_info address subscription_id o db = required (
      update_proxies
        (λ r.
          of_subscription address subscription_id r
          && is_disabled r.proxy
          && parent_is not_paused db r.proxy)
        (recovered_exit o db.now) db)

unfoldable pub set_proxy_dual_protocol : ℤ → Bool → Database → Reply (Unit {0}) × Database
set_proxy_dual_protocol id dual db = required (
    update_proxies (with_id id) (λ r. record r { proxy = record r.proxy { dual_protocol = dual } })
      db)

unfoldable pub set_proxy_starred : ℤ → Bool → Database → Reply (Unit {0}) × Database
set_proxy_starred id starred db = required (
    update_proxies (with_id id) (λ r. record r { details = record r.details { starred = starred } })
      db)

unfoldable pub count_use : Bool → ℕ → Row → Row
count_use true now r = record {
  proxy = record r.proxy {
    use_count = succ_ℤ r.proxy.use_count;
    success_count = succ_ℤ r.proxy.success_count;
    fail_count = pos 0;
  };
  details = record r.details { last_used = some now };
}
count_use false now r = record {
  proxy = record r.proxy {
    use_count = succ_ℤ r.proxy.use_count;
    fail_count = succ_ℤ r.proxy.fail_count;
  };
  details = record r.details { last_used = some now };
}

unfoldable pub record_proxy_use_by_id : ℤ → Bool → Database → Reply (Unit {0}) × Database
record_proxy_use_by_id id success db =
    required (update_proxies (with_id id) (count_use success db.now) db)

unfoldable pub use_found : Reply Proxy → Bool → Database → Reply (Unit {0}) × Database
unfolding record_proxy_use_by_id
use_found (failed e) success db = (failed e, db)
use_found (done p) success db = record_proxy_use_by_id p.id success db

unfoldable pub record_proxy_use : Text → Bool → Database → Reply (Unit {0}) × Database
unfolding use_found
record_proxy_use address success db = use_found (get_proxy_by_address db address) success db

unfoldable pub failed_use : ℤ → ℕ → Row → Row
failed_use threshold now r =
    let counted = count_failure threshold r in
    record counted {
      details = record counted.details { last_used = some now; last_check = some now };
    }

unfoldable pub record_proxy_failure_by_id_with_status : ℤ → ℤ → Database → Reply Bool × Database
record_proxy_failure_by_id_with_status id threshold db =
    if leb_ℤ threshold (pos 0)
    then (failed invalid, db)
    else returning_status (with_id id)
        (update_proxies (with_id id) (failed_use threshold db.now) db)

-- LIKE, with `%` for any bytes and `_` for one; ASCII letters match in either case.
unfoldable pub like : Text → Text → Bool
like [] [] = true
like [] (b ∷ s) = false
like (p ∷ pattern) [] = p == b'%' && like pattern []
like (p ∷ pattern) (b ∷ s) =
    let skip = like pattern (b ∷ s) in
    let stay = like (p ∷ pattern) s in
    let next = like pattern s in
    if p == b'%' then skip || stay else (p == b'_' || lower_byte p == lower_byte b) && next

-- status IN ('active', 'degraded')
unfoldable pub in_service : Proxy → Bool
in_service p = text_eq p.status (codes "active") || text_eq p.status (codes "degraded")

unfoldable pub in_country : Unicode → Text → Row → Bool
unfolding like
in_country u code r =
    let upper = to_upper u code in
    text_eq r.proxy.region (normalize_region u code)
    || text_eq r.details.exit_location upper
    || like (upper ++ codes " %") r.details.exit_location

-- The loop of `DisableBlockedCountries`: one statement for each code.
unfoldable pub disable_countries : Unicode → List Text → ℕ × Database → ℕ × Database
disable_countries u [] (total, db) = (total, db)
disable_countries u (code ∷ country_codes) (total, db) =
    let (n, t) =
      update_proxies (λ r. in_service r.proxy && in_country u code r)
        (set_status (codes "disabled")) db in
    disable_countries u country_codes (total + n, t)

unfoldable pub disable_blocked_countries : Unicode → List Text → Database → ℕ × Database
unfolding disable_countries
disable_blocked_countries u country_codes db = disable_countries u country_codes (0, db)

in_some_country : Unicode → List Text → Row → Bool
in_some_country u [] r = false
in_some_country u (code ∷ country_codes) r =
    in_country u code r || in_some_country u country_codes r

unfoldable pub not_allowed : Unicode → List Text → Row → Bool
unfolding in_some_country
not_allowed u country_codes r =
    in_service r.proxy
    && (not (text_eq r.proxy.region []) || not (text_eq r.details.exit_location []))
    && not (in_some_country u country_codes r)

unfoldable pub disable_not_allowed_countries : Unicode → List Text → Database → ℕ × Database
disable_not_allowed_countries u [] db = (0, db)
disable_not_allowed_countries u (code ∷ country_codes) db =
    update_proxies (not_allowed u (code ∷ country_codes)) (set_status (codes "disabled")) db

unfoldable pub disabled_now : ℕ → Row → Row
disabled_now now r =
    stamp_check
      (if is_disabled r.proxy && is_some r.details.last_check
        then r.details.last_check
        else some now)
      (set_status (codes "disabled") r)

unfoldable pub disable_proxy : Text → Database → Reply (Unit {0}) × Database
disable_proxy address db =
    finish_address_only_mutation address
      (update_proxies (sole_address db address) (disabled_now db.now) db)

unfoldable pub disable_proxy_by_id : ℤ → Database → Reply (Unit {0}) × Database
disable_proxy_by_id id db = required (update_proxies (with_id id) (disabled_now db.now) db)

unfoldable pub disable_subscription_proxy : Text → ℤ → Database → Reply (Unit {0}) × Database
disable_subscription_proxy address subscription_id db =
    required (update_proxies (of_subscription address subscription_id) (disabled_now db.now) db)

unfoldable pub may_enable : Database → (Row → Bool) → Row → Bool
may_enable db test r = test r && is_disabled r.proxy && selectable_scope db r.proxy

unfoldable pub enabled : Row → Row
enabled r = set_fail_count (pos 0) (set_status (codes "active") r)

unfoldable pub enable_proxy : Text → Database → Reply (Unit {0}) × Database
enable_proxy address db =
    finish_address_only_mutation address
      (update_proxies (may_enable db (sole_address db address)) enabled db)

unfoldable pub enable_proxy_by_id : ℤ → Database → Reply (Unit {0}) × Database
enable_proxy_by_id id db = required (update_proxies (may_enable db (with_id id)) enabled db)

unfoldable pub enable_subscription_proxy : Text → ℤ → Database → Reply (Unit {0}) × Database
enable_subscription_proxy address subscription_id db =
    required (update_proxies (may_enable db (of_subscription address subscription_id)) enabled db)

unfoldable pub paused : Row → Row
paused r = record r { proxy = record r.proxy { user_paused = true } }

unfoldable pub unpaused : Row → Row
unpaused r = record r { proxy = record r.proxy { user_paused = false; fail_count = pos 0 } }

unfoldable pub pause_proxy : Text → Database → Reply (Unit {0}) × Database
pause_proxy address db =
    finish_address_only_mutation address (update_proxies (sole_address db address) paused db)

unfoldable pub pause_proxy_by_id : ℤ → Database → Reply (Unit {0}) × Database
pause_proxy_by_id id db = required (update_proxies (with_id id) paused db)

unfoldable pub unpause_proxy : Text → Database → Reply (Unit {0}) × Database
unpause_proxy address db =
    finish_address_only_mutation address (update_proxies (sole_address db address) unpaused db)

unfoldable pub unpause_proxy_by_id : ℤ → Database → Reply (Unit {0}) × Database
unpause_proxy_by_id id db = required (update_proxies (with_id id) unpaused db)
