-- ===== src/Storage/Identity.antt =====
-- `RouteIdentity` and `ExitObservation` of storage/proxy_updates.go, and the parts of an UPDATE that
-- writes what a probe saw.
use geo_proxy.Common.{ℕ, Bool, true, false, ◌&&◌, not, [], Option, none, some, if◌then◌else◌}
use geo_proxy.Common.Int.{ℤ, pos, eq_ℤ, ltb_ℤ, leb_ℤ}
use geo_proxy.Common.Key.{Text, text_eq}
use geo_proxy.GoText.{Unicode, codes}
use geo_proxy.Storage.Table.{Row}
use geo_proxy.Storage.Regions.{region_from_exit_location, calculate_quality_grade}

pub record RouteIdentity : Type 0 where
  pub id : ℤ
  pub address : Text
  pub protocol : Text
  pub node_key : Text
  pub username : Text
  pub password : Text
  pub source : Text
  pub subscription_id : ℤ
  pub dual_protocol : Bool

pub route_identity_from_proxy : Row → RouteIdentity
route_identity_from_proxy r = record {
  id = r.proxy.id;
  address = r.proxy.address;
  protocol = r.proxy.protocol;
  node_key = r.proxy.node_key;
  username = r.details.username;
  password = r.details.password;
  source = r.proxy.source;
  subscription_id = r.proxy.subscription_id;
  dual_protocol = r.proxy.dual_protocol;
}

unfoldable pub same_flag : Bool → Bool → Bool
same_flag true b = b
same_flag false b = not b

-- `routeIdentityWhere`
unfoldable pub is_route : RouteIdentity → Row → Bool
unfolding same_flag
is_route i r =
    eq_ℤ r.proxy.id i.id
    && text_eq r.proxy.address i.address
    && text_eq r.proxy.protocol i.protocol
    && text_eq r.proxy.node_key i.node_key
    && text_eq r.details.username i.username
    && text_eq r.details.password i.password
    && text_eq r.proxy.source i.source
    && eq_ℤ r.proxy.subscription_id i.subscription_id
    && same_flag r.proxy.dual_protocol i.dual_protocol

pub record ExitObservation : Type 0 where
  pub exit_ip : Text
  pub exit_location : Text
  pub latency : ℤ
  pub ipapiis_score : ℤ
  pub ipapi_flags : Text
  pub ipapi_flags_known : Bool
  pub cf_blocked : ℤ
  pub ai_reachability : Text

unfoldable pub trusted_exit : ExitObservation → Bool
trusted_exit o = not (text_eq o.exit_ip []) && not (text_eq o.exit_location [])

unfoldable pub has_latency : ExitObservation → Bool
has_latency o = ltb_ℤ (pos 0) o.latency

-- ipapiis_score, ipapi_flags, ipapi_flags_seen, cf_blocked, ai_reachability: what is known.
unfoldable pub write_risk : ExitObservation → Row → Row
write_risk o r = record {
  proxy = record r.proxy {
    cf_blocked = if leb_ℤ (pos 0) o.cf_blocked then o.cf_blocked else r.proxy.cf_blocked;
    ai_reachability =
        if not (text_eq o.ai_reachability []) then o.ai_reachability else r.proxy.ai_reachability;
  };
  details = record r.details {
    ipapiis_score =
        if leb_ℤ (pos 0) o.ipapiis_score then o.ipapiis_score else r.details.ipapiis_score;
    ipapi_flags = if o.ipapi_flags_known then o.ipapi_flags else r.details.ipapi_flags;
    ipapi_flags_seen = if o.ipapi_flags_known then true else r.details.ipapi_flags_seen;
  };
}

-- region = CASE WHEN … AND region_source != 'manual' AND ? != '' THEN ? ELSE region END
unfoldable pub write_region : Unicode → Bool → ExitObservation → Row → Row
write_region u gate o r =
    let region = region_from_exit_location u o.exit_location in
    if gate && not (text_eq r.details.region_source (codes "manual")) && not (text_eq region [])
    then record r { proxy = record r.proxy { region = region } }
    else r

-- exit_ip, exit_location
unfoldable pub write_exit : Bool → ExitObservation → Row → Row
write_exit gate o r =
    if gate
    then record r {
      details = record r.details { exit_ip = o.exit_ip; exit_location = o.exit_location };
    }
    else r

-- latency, quality_grade
unfoldable pub write_latency : Bool → ExitObservation → Row → Row
write_latency gate o r =
    if gate
    then record {
      proxy = record r.proxy { latency = o.latency };
      details = record r.details { quality_grade = calculate_quality_grade o.latency };
    }
    else r

-- exit_checked_at = CASE WHEN ? THEN CURRENT_TIMESTAMP ELSE exit_checked_at END
unfoldable pub stamp_exit : Bool → ℕ → Row → Row
stamp_exit gate now r =
    if gate then record r { details = record r.details { exit_checked_at = some now } } else r

unfoldable pub set_status : Text → Row → Row
set_status status r = record r { proxy = record r.proxy { status = status } }

unfoldable pub set_fail_count : ℤ → Row → Row
set_fail_count n r = record r { proxy = record r.proxy { fail_count = n } }

unfoldable pub stamp_check : Option ℕ → Row → Row
stamp_check t r = record r { details = record r.details { last_check = t } }

unfoldable pub stamp_disabled : Option ℕ → Row → Row
stamp_disabled t r = record r { details = record r.details { disabled_at = t } }

-- COALESCE(t, CURRENT_TIMESTAMP)
unfoldable pub coalesce : Option ℕ → ℕ → Option ℕ
coalesce none now = some now
coalesce (some t) now = some t
