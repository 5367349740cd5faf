-- ===== src/Storage/Queries.antt =====
-- storage/proxy_queries.go: the lists of nodes for the proxies, the checks and the pages. Rows that the
-- order of a query does not tell apart stay in the order of the table.
pub mod Lowest
pub mod Random
use geo_proxy.Common.{
  ℕ, zero, suc, ◌+◌, Bool, true, false, ◌&&◌, ◌||◌, List, [], ◌∷◌, Option, none, some,
  if◌then◌else◌, not, ltb, length, map, take, select,
}
use geo_proxy.Common.Int.{ℤ, pos, pos_part, ltb_ℤ, leb_ℤ}
use geo_proxy.Common.Key.{Text, text_eq}
use geo_proxy.GoText.{Unicode, codes, text_ltb}
use geo_proxy.Storage.{Proxy}
use geo_proxy.Storage.Table.{
  Row, Database, Failure, not_found, invalid, Reply, done, failed, source_subscription, is_disabled,
  usable, selectable_scope,
}
use geo_proxy.Storage.Regions.{normalize_protocol, dual_supports_inbound_protocol}
use geo_proxy.Storage.NodeApi.{inbound_protocol}
use geo_proxy.Storage.Lookup.{select_proxies}

-- ORDER BY, with a test for "stands before".
unfoldable pub insert_by : {A : Type 0} → (A → A → Bool) → A → List A → List A
insert_by precedes x [] = x ∷ []
insert_by precedes x (y ∷ ys) =
    let later = y ∷ insert_by precedes x ys in if precedes y x then later else x ∷ y ∷ ys

unfoldable pub order_by : {A : Type 0} → (A → A → Bool) → List A → List A
unfolding insert_by
order_by precedes [] = []
order_by precedes (x ∷ xs) = insert_by precedes x (order_by precedes xs)

unfoldable pub lower_latency : Proxy → Proxy → Bool
lower_latency p q = ltb_ℤ p.latency q.latency

unfoldable pub of_source : Text → Proxy → Bool
of_source [] p = true
of_source (b ∷ source) p = text_eq p.source (b ∷ source)

-- The condition of the query.
unfoldable pub in_service : Database → Text → Proxy → Bool
in_service db source_filter p = usable p && selectable_scope db p && of_source source_filter p

unfoldable pub get_all_filtered : Database → Text → List Proxy
unfolding order_by lower_latency in_service select_proxies
get_all_filtered db source_filter =
    order_by lower_latency (select_proxies (λ r. in_service db source_filter r.proxy) db.proxies)

pub get_all : Database → List Proxy
unfolding get_all_filtered
get_all db = get_all_filtered db []

unfoldable pub admin_order : Proxy → Proxy → Bool
admin_order p q =
    if not (is_disabled p) && is_disabled q
    then true
    else if is_disabled p && not (is_disabled q)
    then false
    else ltb_ℤ p.latency q.latency

pub get_all_for_admin : Database → List Proxy
unfolding order_by admin_order select_proxies
get_all_for_admin db = order_by admin_order (select_proxies (λ r. true) db.proxies)

unfoldable pub is_excluded_address : List Text → Text → Bool
is_excluded_address [] address = false
is_excluded_address (x ∷ excludes) address =
    text_eq x address || is_excluded_address excludes address

-- `proxySupportsInboundProtocol`
unfoldable pub proxy_supports_inbound_protocol : Unicode → Proxy → Text → Bool
proxy_supports_inbound_protocol u p protocol =
    let wanted = normalize_protocol u protocol in
    text_eq (normalize_protocol u p.protocol) wanted
    || p.dual_protocol && dual_supports_inbound_protocol wanted

-- The loop that returns the first node that is left.
unfoldable pub first_left : (Proxy → Bool) → List Proxy → Reply Proxy
first_left test [] = failed not_found
first_left test (p ∷ ps) = let rest = first_left test ps in if test p then done p else rest

pub get_lowest_latency_exclude_filtered : Database → List Text → Text → Reply Proxy
unfolding first_left is_excluded_address get_all_filtered
get_lowest_latency_exclude_filtered db excludes source_filter =
    first_left (λ p. not (is_excluded_address excludes p.address))
      (get_all_filtered db source_filter)

pub get_lowest_latency_exclude : Database → List Text → Reply Proxy
unfolding get_lowest_latency_exclude_filtered
get_lowest_latency_exclude db excludes = get_lowest_latency_exclude_filtered db excludes []

-- The test of the loops that look for a protocol.
abbrev pub serves : Unicode → Text → List Text → Proxy → Bool
serves u protocol excludes p =
    proxy_supports_inbound_protocol u p protocol && not (is_excluded_address excludes p.address)

unfoldable pub get_lowest_latency_by_protocol_exclude_filtered :
    Unicode → Database → Text → List Text → Text → Reply Proxy
unfolding first_left get_all_filtered
get_lowest_latency_by_protocol_exclude_filtered u db protocol excludes source_filter =
    first_left (serves u protocol excludes) (get_all_filtered db source_filter)

pub get_lowest_latency_by_protocol_exclude : Unicode → Database → Text → List Text → Reply Proxy
unfolding get_lowest_latency_by_protocol_exclude_filtered
get_lowest_latency_by_protocol_exclude u db protocol excludes =
    get_lowest_latency_by_protocol_exclude_filtered u db protocol excludes []

-- COALESCE(last_check, '1970-01-01')
unfoldable pub checked_at : Option ℕ → ℕ
checked_at none = 0
checked_at (some time) = time

unfoldable pub check_order : Row → Row → Bool
unfolding checked_at
check_order p q =
    let at_p = checked_at p.details.last_check in
    let at_q = checked_at q.details.last_check in
    if ltb at_p at_q
    then true
    else if ltb at_q at_p
    then false
    else text_ltb q.details.quality_grade p.details.quality_grade

pub get_batch_for_health_check : Database → ℤ → Reply (List Proxy)
unfolding order_by check_order
get_batch_for_health_check db batch_size =
    let found = select (λ r. usable r.proxy && selectable_scope db r.proxy) db.proxies in
    if leb_ℤ batch_size (pos 0)
    then failed invalid
    else done (take (pos_part batch_size) (map (λ (r : Row). r.proxy) (order_by check_order found)))

pub get_by_protocol : Unicode → Database → Text → List Proxy
unfolding order_by lower_latency select_proxies inbound_protocol
get_by_protocol u db protocol = order_by lower_latency (
    select_proxies
      (λ r. usable r.proxy && inbound_protocol u protocol r.proxy && selectable_scope db r.proxy)
      db.proxies)

pub get_disabled_custom_proxies : Database → List Proxy
unfolding select_proxies
get_disabled_custom_proxies db =
    select_proxies
      (λ r.
        text_eq r.proxy.source source_subscription
        && is_disabled r.proxy
        && selectable_scope db r.proxy)
      db.proxies
