-- ===== src/Storage/Probes/Threshold.antt =====
-- Failures in a row: storage/proxy_updates.go takes a node out of service at the threshold.
use geo_proxy.Common.{
  ℕ, zero, suc, ◌≡◌, refl, ap, Bool, true, false, ◌&&◌, ◌||◌, not, some, if◌then◌else◌, is_some,
  all_of, arith,
}
use geo_proxy.Common.Int.{ℤ, pos, negsuc, leb_ℤ, succ_ℤ}
use geo_proxy.Common.Key.{Text, text_eq}
use geo_proxy.GoText.{codes}
use geo_proxy.Storage.Table.{Row, Database, is_disabled, update_where, update_proxies}
use geo_proxy.Storage.Table.Keeping.{all_of-updated}
use geo_proxy.Storage.Identity.{RouteIdentity, is_route, stamp_disabled}
use geo_proxy.Storage.Probes.{
  count_failure, stamp_threshold, stamp_used, returning_status, forward_failed,
  record_forward_failure,
}

-- Failed transmissions over one route, one after the other.
pub fail_forward : RouteIdentity → ℤ → ℕ → Database → Database
unfolding record_forward_failure
fail_forward i threshold zero db = db
fail_forward i threshold (suc n) db =
    (record_forward_failure i threshold (fail_forward i threshold n db)).1

module _ (i : RouteIdentity) (k : ℕ) where
  -- The rows of the route have failed at least `n` times.
  abbrev failed_times : ℕ → Row → Bool
  failed_times n r = not (is_route i r) || leb_ℤ (pos n) r.proxy.fail_count

  abbrev out : Row → Bool
  out r = not (is_route i r) || is_disabled r.proxy

  -- The clock of the disabling is no part of the route, the count or the status.
  stamped :
      (b : Bool) (now : ℕ) (t : Row)
      → let s = if b then stamp_disabled (some now) t else t in
        (is_route i s ≡ is_route i t) × (s.proxy ≡ t.proxy)
  unfolding stamp_disabled is_route
  stamped true now t = (refl, refl)
  stamped false now t = (refl, refl)

  counted :
      (now : ℕ) (r : Row)
      → let t = forward_failed (pos (suc k)) now r in
        (is_route i t ≡ is_route i r)
        × (t.proxy.fail_count ≡ succ_ℤ r.proxy.fail_count)
        × (t.proxy.status ≡ (
            if leb_ℤ (pos (suc k)) (succ_ℤ r.proxy.fail_count)
            then codes "disabled"
            else r.proxy.status))
  unfolding forward_failed stamp_threshold stamp_used count_failure is_route
  counted now r =
      let plain = stamp_used now (count_failure (pos (suc k)) r) in
      let first =
        leb_ℤ (pos (suc k)) (succ_ℤ r.proxy.fail_count) && not (is_some r.details.disabled_at) in
      let (route, columns) = stamped first now plain in
      (route, ap (λ p. p.fail_count) columns, ap (λ p. p.status) columns)

  at_least : (n : ℕ) (z : ℤ) → leb_ℤ (pos n) z ≡ true → leb_ℤ (pos (suc n)) (succ_ℤ z) ≡ true
  at_least n (pos m) e = ground (arith, e)
  at_least n (negsuc zero) e = ground (arith, e)
  at_least n (negsuc (suc m)) e = ground (arith, e)

  after_failure :
      (now n : ℕ) (r : Row)
      → failed_times n r ≡ true
      → failed_times (suc n) (forward_failed (pos (suc k)) now r) ≡ true
  after_failure now n r h =
      let (route, failures, status) = counted now r in
      rw (route, failures) (ground (arith, at_least n r.proxy.fail_count, h))

  at_threshold :
      (now : ℕ) (r : Row)
      → failed_times k r ≡ true
      → out (forward_failed (pos (suc k)) now r) ≡ true
  at_threshold now r h =
      let (route, failures, status) = counted now r in
      rw (route, status)
        (go (is_route i r) (leb_ℤ (pos (suc k)) (succ_ℤ r.proxy.fail_count)) r.proxy.status
          (ground (arith, at_least k r.proxy.fail_count, h)))
    where
      go :
          (mine reached : Bool) (s : Text)
          → (not mine || reached) ≡ true
          → (not mine || text_eq (if reached then codes "disabled" else s) (codes "disabled"))
            ≡ true
      go false reached s e = refl
      go true true s e = unfold text_eq in refl
      go true false s e = ground (arith, e)

  rows_after :
      (db : Database)
      → (record_forward_failure i (pos (suc k)) db).1.proxies
        ≡ update_where (is_route i) (forward_failed (pos (suc k)) db.now) db.proxies
  unfolding record_forward_failure returning_status update_proxies
  rows_after db = ground arith

  rows_failed :
      (n : ℕ) (db : Database)
      → all_of (failed_times 0) db.proxies ≡ true
      → all_of (failed_times n) (fail_forward i (pos (suc k)) n db).proxies ≡ true
  unfolding fail_forward
  rows_failed zero db h = h
  rows_failed (suc n) db h =
      let before = fail_forward i (pos (suc k)) n db in
      rw (rows_after before) (
        all_of-updated (failed_times n) (failed_times (suc n)) (is_route i)
          (forward_failed (pos (suc k)) before.now) before.proxies
          (λ r e f. after_failure before.now n r f) (λ r e f. rw e refl) (rows_failed n db h))

  -- A node whose count of failures is not negative, and over whose route as many transmissions in a
  -- row fail as the threshold says, is disabled, whatever its count was before.
  pub fail_forward-disabled :
      (db : Database)
      → all_of (failed_times 0) db.proxies ≡ true
      → all_of out (fail_forward i (pos (suc k)) (suc k) db).proxies ≡ true
  unfolding fail_forward
  fail_forward-disabled db h =
      let before = fail_forward i (pos (suc k)) k db in
      rw (rows_after before) (
        all_of-updated (failed_times k) out (is_route i) (forward_failed (pos (suc k)) before.now)
          before.proxies (λ r e f. at_threshold before.now r f) (λ r e f. rw e refl)
          (rows_failed k db h))
