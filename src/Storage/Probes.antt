-- ===== src/Storage/Probes.antt =====
-- The writes of probe and traffic results in storage/proxy_updates.go that go to one route.
pub mod Threshold
use geo_proxy.Common.{
  ℕ, suc, ◌+◌, ◌≡◌, ◌==◌, Bool, true, false, ◌&&◌, ◌||◌, not, List, [], ◌∷◌, Option, none, some,
  if◌then◌else◌, is_some,
}
use geo_proxy.Common.Int.{ℤ, pos, eq_ℤ, ltb_ℤ, leb_ℤ, succ_ℤ}
use geo_proxy.Common.Key.{Text, text_eq}
use geo_proxy.GoText.{Unicode, codes}
use geo_proxy.Storage.{Proxy}
use geo_proxy.Storage.Table.{
  Row, Details, Database, Failure, no_rows, invalid, Reply, done, failed, is_disabled, first_where,
  update_proxies, required, active_scope,
}
use geo_proxy.Storage.Identity.{
  RouteIdentity, is_route, ExitObservation, trusted_exit, has_latency, write_risk, write_region,
  write_exit, write_latency, stamp_exit, set_status, set_fail_count, stamp_check, stamp_disabled,
  coalesce,
}

-- use_count + 1, fail_count + 1, and the status at the threshold.
unfoldable pub count_failure : ℤ → Row → Row
count_failure threshold r =
    let failures = succ_ℤ r.proxy.fail_count in
    record r {
      proxy = record r.proxy {
        use_count = succ_ℤ r.proxy.use_count;
        fail_count = failures;
        status = if leb_ℤ threshold failures then codes "disabled" else r.proxy.status;
      };
    }

-- disabled_at = CASE WHEN fail_count + 1 >= ? AND disabled_at IS NULL THEN … ELSE disabled_at END,
-- where `before` is the row that is updated.
unfoldable pub stamp_threshold : ℤ → ℕ → Row → Row → Row
stamp_threshold threshold now before r =
    if leb_ℤ threshold (succ_ℤ before.proxy.fail_count) && not (is_some before.details.disabled_at)
    then stamp_disabled (some now) r
    else r

unfoldable pub stamp_used : ℕ → Row → Row
stamp_used now r = record r { details = record r.details { last_used = some now } }

-- RETURNING status: of the row that the statement updated.
returned : Option Row → Reply Bool
returned none = failed no_rows
returned (some r) = done (is_disabled r.proxy)

unfoldable pub returning_status : (Row → Bool) → ℕ × Database → Reply Bool × Database
unfolding returned
returning_status test (n, db) = (returned (first_where test db.proxies), db)

unfoldable pub forward_failed : ℤ → ℕ → Row → Row
unfolding stamp_used
forward_failed threshold now r =
    stamp_threshold threshold now r (stamp_used now (count_failure threshold r))

unfoldable pub record_forward_failure : RouteIdentity → ℤ → Database → Reply Bool × Database
record_forward_failure i threshold db =
    if leb_ℤ threshold (pos 0)
    then (failed invalid, db)
    else returning_status (is_route i)
        (update_proxies (is_route i) (forward_failed threshold db.now) db)

unfoldable pub forward_succeeded : ℕ → Row → Row
unfolding stamp_used
forward_succeeded now r = stamp_used now (record r {
  proxy = record r.proxy {
    use_count = succ_ℤ r.proxy.use_count;
    success_count = succ_ℤ r.proxy.success_count;
    fail_count = pos 0;
  };
})

unfoldable pub record_forward_success : RouteIdentity → Database → Reply (Unit {0}) × Database
record_forward_success i db = required (update_proxies (is_route i) (forward_succeeded db.now) db)

-- The condition of the probe writes: the route, with a parent that is active.
unfoldable pub is_live_route : Database → RouteIdentity → Row → Bool
is_live_route db i r = is_route i r && active_scope db r.proxy

module _ (u : Unicode) where
  unfoldable pub observed : ExitObservation → ℕ → Row → Row
  observed o now r = write_risk o (
      write_region u (trusted_exit o) o (
        stamp_exit (trusted_exit o) now (
          write_exit (trusted_exit o) o
            (stamp_check (some now) (set_fail_count (pos 0) (write_latency true o r))))))

  unfoldable pub apply_probe_observation :
      RouteIdentity → ExitObservation → Database → Reply (Unit {0}) × Database
  apply_probe_observation i o db =
      required (update_proxies (is_live_route db i) (observed o db.now) db)

  unfoldable pub probe_failed : ExitObservation → ℤ → ℕ → Row → Row
  probe_failed o threshold now r = write_risk o (
      write_region u (trusted_exit o) o (
        stamp_exit (trusted_exit o) now (
          write_exit (trusted_exit o) o (
            write_latency (has_latency o) o (
              stamp_threshold threshold now r
                (stamp_check (some now) (count_failure threshold r)))))))

  unfoldable pub record_probe_failure :
      RouteIdentity → ExitObservation → ℤ → Database → Reply Bool × Database
  record_probe_failure i o threshold db =
      if leb_ℤ threshold (pos 0)
      then (failed invalid, db)
      else returning_status (is_live_route db i)
          (update_proxies (is_live_route db i) (probe_failed o threshold db.now) db)

  unfoldable pub recovered : ExitObservation → ℕ → Row → Row
  recovered o now r = write_risk o (
      write_region u true o (
        stamp_disabled none (
          stamp_exit true now (
            stamp_check (some now) (
              set_fail_count (pos 0)
                (set_status (codes "active") (write_latency true o (write_exit true o r))))))))

  unfoldable pub recover_proxy_from_probe :
      RouteIdentity → ExitObservation → Database → Reply (Unit {0}) × Database
  recover_proxy_from_probe i o db =
      if not (trusted_exit o)
      then (failed invalid, db)
      else required (
          update_proxies
            (λ r. is_live_route db i r && is_disabled r.proxy && not r.proxy.user_paused)
            (recovered o db.now) db)

  unfoldable pub disabled_probe_failed : ExitObservation → ℕ → Row → Row
  disabled_probe_failed o now r = write_risk o (
      write_region u (trusted_exit o) o (
        stamp_exit (trusted_exit o) now (
          write_exit (trusted_exit o) o (
            write_latency (has_latency o) o
              (stamp_disabled (coalesce r.details.disabled_at now) (stamp_check (some now) r))))))

  unfoldable pub record_disabled_probe_failure :
      RouteIdentity → ExitObservation → Database → Reply (Unit {0}) × Database
  record_disabled_probe_failure i o db = required (
      update_proxies (λ r. is_live_route db i r && is_disabled r.proxy)
        (disabled_probe_failed o db.now) db)

unfoldable pub disable_route_for_policy : RouteIdentity → Database → Reply (Unit {0}) × Database
disable_route_for_policy i db = required (
    update_proxies (is_live_route db i) (λ r. stamp_disabled none (set_status (codes "disabled") r))
      db)
