-- ===== src/Storage/Sound/Rows.antt =====
-- What the writes of storage/proxy_updates.go and storage/manual.go leave of a row: its ID, its
-- identity, and a region that is a code.
use geo_proxy.Common.{
  ℕ, refl, Bool, true, false, ◌&&◌, not, Option, none, some, [], if◌then◌else◌, Bool-cases, inl,
  inr,
}
use geo_proxy.Common.Int.{ℤ}
use geo_proxy.Common.Key.{Text, text_eq}
use geo_proxy.GoText.{Unicode, codes}
use geo_proxy.Storage.Table.{Row}
use geo_proxy.Storage.Regions.{region_from_exit_location, normalize_manual_region}
use geo_proxy.Storage.Regions.Codes.{
  LeavesNoUpper, region_from_exit_location-is_code, normalize_manual_region-is_code,
}
use geo_proxy.Storage.Identity.{
  ExitObservation, write_risk, write_region, write_exit, write_latency, stamp_exit, set_status,
  set_fail_count, stamp_check, stamp_disabled,
}
use geo_proxy.Storage.Probes.{
  count_failure, stamp_threshold, stamp_used, forward_failed, forward_succeeded, observed,
  probe_failed, recovered, disabled_probe_failed,
}
use geo_proxy.Storage.Updates.{
  exit_info, recovered_exit, count_use, failed_use, disabled_now, enabled, paused, unpaused,
}
use geo_proxy.Storage.Manual.{with_source, set_region, set_note, manual_columns, relabel}
use geo_proxy.Storage.Sound.{Kept}

pub same-Kept : (r : Row) → Kept r r
same-Kept r = record { id = refl; identity = refl; code = λ e. e }

if-Kept : (r s t : Row) (b : Bool) → Kept r s → Kept r t → Kept r (if b then s else t)
if-Kept r s t true k l = k
if-Kept r s t false k l = l

module _ (r t : Row) (k : Kept r t) where
  set_status-Kept : (status : Text) → Kept r (set_status status t)
  unfolding set_status
  set_status-Kept status = record { id = k.id; identity = k.identity; code = k.code }

  set_fail_count-Kept : (n : ℤ) → Kept r (set_fail_count n t)
  unfolding set_fail_count
  set_fail_count-Kept n = record { id = k.id; identity = k.identity; code = k.code }

  stamp_check-Kept : (at : Option ℕ) → Kept r (stamp_check at t)
  unfolding stamp_check
  stamp_check-Kept at = record { id = k.id; identity = k.identity; code = k.code }

  stamp_disabled-Kept : (at : Option ℕ) → Kept r (stamp_disabled at t)
  unfolding stamp_disabled
  stamp_disabled-Kept at = record { id = k.id; identity = k.identity; code = k.code }

  stamp_used-Kept : (now : ℕ) → Kept r (stamp_used now t)
  unfolding stamp_used
  stamp_used-Kept now = record { id = k.id; identity = k.identity; code = k.code }

  stamp_exit-Kept : (gate : Bool) (now : ℕ) → Kept r (stamp_exit gate now t)
  unfolding stamp_exit
  stamp_exit-Kept true now = record { id = k.id; identity = k.identity; code = k.code }
  stamp_exit-Kept false now = k

  write_exit-Kept : (gate : Bool) (o : ExitObservation) → Kept r (write_exit gate o t)
  unfolding write_exit
  write_exit-Kept true o = record { id = k.id; identity = k.identity; code = k.code }
  write_exit-Kept false o = k

  write_latency-Kept : (gate : Bool) (o : ExitObservation) → Kept r (write_latency gate o t)
  unfolding write_latency
  write_latency-Kept true o = record { id = k.id; identity = k.identity; code = k.code }
  write_latency-Kept false o = k

  write_risk-Kept : (o : ExitObservation) → Kept r (write_risk o t)
  unfolding write_risk
  write_risk-Kept o = record { id = k.id; identity = k.identity; code = k.code }

  write_region-Kept :
      (u : Unicode) (gate : Bool) (o : ExitObservation) → Kept r (write_region u gate o t)
  unfolding write_region
  write_region-Kept u gate o =
      elim (Bool-cases (
        gate
        && not (text_eq t.details.region_source (codes "manual"))
        && not (text_eq (region_from_exit_location u o.exit_location) []))) [
          | inl e ↦ rw e (record {
            id = k.id;
            identity = k.identity;
            code = λ h. region_from_exit_location-is_code u o.exit_location;
          })
          | inr e ↦ rw e k
        ]

  count_failure-Kept : (threshold : ℤ) → Kept r (count_failure threshold t)
  unfolding count_failure
  count_failure-Kept threshold = record { id = k.id; identity = k.identity; code = k.code }

  stamp_threshold-Kept :
      (threshold : ℤ) (now : ℕ) (before : Row) → Kept r (stamp_threshold threshold now before t)
  unfolding stamp_threshold
  stamp_threshold-Kept threshold now before = if-Kept r _ _ _ (stamp_disabled-Kept (some now)) k

ruleset kept_rules = (
  same-Kept, set_status-Kept, set_fail_count-Kept, stamp_check-Kept, stamp_disabled-Kept,
  stamp_used-Kept, stamp_exit-Kept, write_exit-Kept, write_latency-Kept, write_risk-Kept,
  write_region-Kept, count_failure-Kept, stamp_threshold-Kept,
)

pub forward_failed-Kept :
    (threshold : ℤ) (now : ℕ) (r : Row) → Kept r (forward_failed threshold now r)
unfolding forward_failed
forward_failed-Kept threshold now r = search kept_rules depth 12

module _ (u : Unicode) (o : ExitObservation) (now : ℕ) (r : Row) where
  pub observed-Kept : Kept r (observed u o now r)
  unfolding observed
  observed-Kept = search kept_rules depth 12

  pub probe_failed-Kept : (threshold : ℤ) → Kept r (probe_failed u o threshold now r)
  unfolding probe_failed
  probe_failed-Kept threshold = search kept_rules depth 12

  pub recovered-Kept : Kept r (recovered u o now r)
  unfolding recovered
  recovered-Kept = search kept_rules depth 12

  pub disabled_probe_failed-Kept : Kept r (disabled_probe_failed u o now r)
  unfolding disabled_probe_failed
  disabled_probe_failed-Kept = search kept_rules depth 12

  pub exit_info-Kept : (renew : Bool) → Kept r (exit_info u o renew now r)
  unfolding exit_info
  exit_info-Kept renew = search kept_rules depth 12

  pub recovered_exit-Kept : Kept r (recovered_exit u o now r)
  unfolding recovered_exit
  recovered_exit-Kept = search kept_rules depth 12

pub forward_succeeded-Kept : (now : ℕ) (r : Row) → Kept r (forward_succeeded now r)
unfolding forward_succeeded stamp_used
forward_succeeded-Kept now r = record { id = refl; identity = refl; code = λ e. e }

pub policy-Kept : (r : Row) → Kept r (stamp_disabled none (set_status (codes "disabled") r))
policy-Kept r = search kept_rules

pub disabled-Kept : (r : Row) → Kept r (set_status (codes "disabled") r)
disabled-Kept r = search kept_rules

pub count_use-Kept : (success : Bool) (now : ℕ) (r : Row) → Kept r (count_use success now r)
unfolding count_use
count_use-Kept true now r = record { id = refl; identity = refl; code = λ e. e }
count_use-Kept false now r = record { id = refl; identity = refl; code = λ e. e }

pub failed_use-Kept : (threshold : ℤ) (now : ℕ) (r : Row) → Kept r (failed_use threshold now r)
unfolding failed_use count_failure
failed_use-Kept threshold now r = record { id = refl; identity = refl; code = λ e. e }

pub disabled_now-Kept : (now : ℕ) (r : Row) → Kept r (disabled_now now r)
unfolding disabled_now
disabled_now-Kept now r = search kept_rules

pub enabled-Kept : (r : Row) → Kept r (enabled r)
unfolding enabled
enabled-Kept r = search kept_rules

pub paused-Kept : (r : Row) → Kept r (paused r)
unfolding paused
paused-Kept r = record { id = refl; identity = refl; code = λ e. e }

pub unpaused-Kept : (r : Row) → Kept r (unpaused r)
unfolding unpaused
unpaused-Kept r = record { id = refl; identity = refl; code = λ e. e }

pub set_note-Kept : (note : Text) (r : Row) → Kept r (set_note note r)
unfolding set_note
set_note-Kept note r = record { id = refl; identity = refl; code = λ e. e }

pub with_source-Kept : (protocol : Text) (r : Row) → Kept r (with_source protocol r)
unfolding with_source
with_source-Kept protocol r = record { id = refl; identity = refl; code = λ e. e }

module _ (u : Unicode) (h : LeavesNoUpper u) (region : Text) (r : Row) where
  pub set_region-Kept :
      (source : Text) → Kept r (set_region (normalize_manual_region u region) source r)
  unfolding set_region
  set_region-Kept source = record {
    id = refl;
    identity = refl;
    code = λ e. normalize_manual_region-is_code u region h;
  }

  pub manual_columns-Kept :
      (protocol note username password node_key : Text)
      → Kept r (manual_columns u protocol region note username password node_key r)
  unfolding manual_columns
  manual_columns-Kept protocol note username password node_key = record {
    id = refl;
    identity = refl;
    code = λ e. normalize_manual_region-is_code u region h;
  }

  pub relabel-Kept : (note : Text) → Kept r (relabel u region note r)
  unfolding relabel set_region set_note
  relabel-Kept note = record {
    id = refl;
    identity = refl;
    code = λ e. normalize_manual_region-is_code u region h;
  }
