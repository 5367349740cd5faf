-- ===== src/Storage/Lookup.antt =====
-- The queries of storage/regions.go that find nodes. A region list is sorted by a total order.
pub mod Listing
use geo_proxy.Common.{
  ℕ, suc, ◌+◌, ◌≡◌, ◌==◌, Bool, true, false, ◌&&◌, ◌||◌, not, List, [], ◌∷◌, Option, none, some,
  if◌then◌else◌, ltb, map,
}
use geo_proxy.Common.Int.{ℤ, pos, eq_ℤ, ltb_ℤ, leb_ℤ}
use geo_proxy.Common.Key.{Text, text_eq}
use geo_proxy.GoText.{Unicode, codes, trim_space, text_ltb}
use geo_proxy.Storage.{Proxy}
use geo_proxy.Storage.Table.{
  Row, Subscription, Database, Failure, no_rows, ambiguous, not_found, invalid, Reply, done, failed,
  source_manual, source_subscription, count_rows, first_where, usable, selectable_scope,
}
use geo_proxy.Storage.Regions.{normalize_region}

unfoldable pub by_address : Proxy → Proxy → Bool
by_address p q =
    if text_ltb p.address q.address
    then true
    else if text_ltb q.address p.address
    then false
    else ltb_ℤ p.id q.id

-- ORDER BY latency <= 0, latency, address, id
unfoldable pub before : Proxy → Proxy → Bool
before p q =
    let later_p = leb_ℤ p.latency (pos 0) in
    let later_q = leb_ℤ q.latency (pos 0) in
    if not later_p && later_q
    then true
    else if later_p && not later_q
    then false
    else if ltb_ℤ p.latency q.latency
    then true
    else if ltb_ℤ q.latency p.latency
    then false
    else by_address p q

unfoldable pub insert_sorted : Proxy → List Proxy → List Proxy
insert_sorted p [] = p ∷ []
insert_sorted p (q ∷ sorted) =
    let later = q ∷ insert_sorted p sorted in if before q p then later else p ∷ q ∷ sorted

unfoldable pub sort_proxies : List Proxy → List Proxy
unfolding insert_sorted
sort_proxies [] = []
sort_proxies (p ∷ ps) = insert_sorted p (sort_proxies ps)

unfoldable pub select_proxies : (Row → Bool) → List Row → List Proxy
select_proxies test [] = []
select_proxies test (r ∷ rows) =
    let rest = select_proxies test rows in if test r then r.proxy ∷ rest else rest

unfoldable pub is_excluded : List ℤ → ℤ → Bool
is_excluded [] id = false
is_excluded (x ∷ excludes) id = eq_ℤ x id || is_excluded excludes id

unfoldable pub drop_excluded : List ℤ → List Proxy → List Proxy
unfolding is_excluded
drop_excluded excludes [] = []
drop_excluded excludes (p ∷ ps) =
    let rest = drop_excluded excludes ps in if is_excluded excludes p.id then rest else p ∷ rest

-- The condition of the query, for a normalized region.
unfoldable pub in_region : Database → Text → Proxy → Bool
in_region db [] p = usable p && selectable_scope db p
in_region db (b ∷ region) p = usable p && selectable_scope db p && text_eq p.region (b ∷ region)

unfoldable pub get_by_region : Unicode → Database → Text → List ℤ → List Proxy
unfolding sort_proxies select_proxies drop_excluded
get_by_region u db region excludes = drop_excluded excludes (
    sort_proxies
      (select_proxies (λ r. in_region db (normalize_region u region) r.proxy) db.proxies))

unfoldable pub proxy_of : Option Row → Reply Proxy
proxy_of none = failed not_found
proxy_of (some r) = done r.proxy

unfoldable pub get_proxy_by_id : Database → ℤ → Reply Proxy
unfolding first_where proxy_of
get_proxy_by_id db id = proxy_of (first_where (λ r. eq_ℤ r.proxy.id id) db.proxies)

-- The first of the rows, if it is the only one. Two rows are fetched at most.
unfoldable pub only_one : Failure → List Proxy → Reply Proxy
only_one missing [] = failed missing
only_one missing (p ∷ []) = done p
only_one missing (p ∷ q ∷ rest) = failed ambiguous

unfoldable pub get_proxy_by_address : Database → Text → Reply Proxy
unfolding only_one select_proxies
get_proxy_by_address db address =
    only_one no_rows (select_proxies (λ r. text_eq r.proxy.address address) db.proxies)

by_node_key : Database → Text → Reply Proxy
unfolding only_one select_proxies
by_node_key db [] = failed invalid
by_node_key db (b ∷ key) =
    only_one not_found (select_proxies (λ r. text_eq r.proxy.node_key (b ∷ key)) db.proxies)

unfoldable pub get_proxy_by_node_key : Unicode → Database → Text → Reply Proxy
unfolding by_node_key
get_proxy_by_node_key u db key = by_node_key db (trim_space u key)

unfoldable pub get_proxy_by_identity : Database → Text → Text → ℤ → Reply Proxy
unfolding proxy_of first_where
get_proxy_by_identity db address source subscription_id =
    let owner = if text_eq source source_manual then pos 0 else subscription_id in
    proxy_of (
      first_where
        (λ r.
          text_eq r.proxy.address address
          && text_eq r.proxy.source source
          && eq_ℤ r.proxy.subscription_id owner)
        db.proxies)

unfoldable pub paused_of : Option Subscription → Reply Bool
paused_of none = failed not_found
paused_of (some s) = done (text_eq s.status (codes "paused"))

unfoldable pub is_subscription_paused : Database → ℤ → Reply Bool
unfolding paused_of first_where
is_subscription_paused db id =
    if leb_ℤ id (pos 0)
    then done false
    else paused_of (first_where (λ (s : Subscription). eq_ℤ s.id id) db.subscriptions)

-- A row that keeps a running node alive: one with its key, or an old one with its address only.
owns_node : Text → Text → Proxy → Bool
owns_node node_key address p =
    (not (text_eq node_key []) && text_eq p.node_key node_key)
    || (not (text_eq address []) && text_eq p.node_key [] && text_eq p.address address)

pub has_other_subscription_proxy_owner : Unicode → Database → Text → Text → ℤ → Bool
unfolding owns_node count_rows
has_other_subscription_proxy_owner u db key address subscription_id =
    let k = trim_space u key in
    let a = trim_space u address in
    if text_eq k [] && text_eq a []
    then false
    else ltb 0 (
        count_rows
          (λ r.
            not (
              text_eq r.proxy.source source_subscription
              && eq_ℤ r.proxy.subscription_id subscription_id)
            && owns_node k a r.proxy)
          db.proxies)

pub has_other_proxy_owner : Unicode → Database → Text → Text → ℤ → Bool
unfolding owns_node count_rows
has_other_proxy_owner u db key address proxy_id =
    let k = trim_space u key in
    let a = trim_space u address in
    if text_eq k [] && text_eq a []
    then false
    else ltb 0
        (count_rows (λ r. not (eq_ℤ r.proxy.id proxy_id) && owns_node k a r.proxy) db.proxies)
