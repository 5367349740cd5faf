-- ===== src/Examples/Database.antt =====
-- Tables of storage/ after a few writes.
use geo_proxy.Common.Assoc.{lookup}
use geo_proxy.Common.{
  length, select, none, ◌≡◌, refl, ◌∙◌, true, false, not, ◌&&◌, ◌||◌, if◌then◌else◌, List, [], ◌∷◌,
  some, inl, In, ◌↔◌, all_of, map,
}
use geo_proxy.Common.Int.{pos, eq_ℤ}
use geo_proxy.Common.Key.{Text, text_eq, text_key}
use geo_proxy.GoText.{
  codes, is_ascii, lower_byte, ascii_only, is_space, trim_left, to_lower, trim_space, text_ltb,
}
use geo_proxy.GoText.Trim.{lower_byte-ascii, lower_twice}
use geo_proxy.Storage.{Proxy}
use geo_proxy.Storage.Table.{
  source_manual, is_disabled, Row, update_where, delete_where, count_rows, first_where, parent_is,
  selectable_scope, usable, update_proxies, Database, done,
}
use geo_proxy.Storage.Regions.{
  normalize_region, normalize_protocol, is_alpha2, normalize_manual_region,
}
use geo_proxy.Storage.Regions.Codes.{LeavesNoUpper, no_upper}
use geo_proxy.Storage.Lookup.{
  by_address, before, insert_sorted, sort_proxies, select_proxies, is_excluded, drop_excluded,
  in_region, get_by_region, get_proxy_by_identity,
}
use geo_proxy.Storage.Counts.{count_all, or_zero, count_by_region}
use geo_proxy.Storage.Counts.Listed.{length-get_by_region}
use geo_proxy.Storage.Queries.{get_lowest_latency_by_protocol_exclude_filtered}
use geo_proxy.Storage.Queries.Lowest.{
  Lowest, Wanted, get_lowest_latency_by_protocol_exclude_filtered-Lowest,
}
use geo_proxy.Storage.Queries.Random.{
  get_random_by_protocol_exclude_filtered, Drawn, get_random_by_protocol_exclude_filtered-Drawn,
}
use geo_proxy.Storage.Lookup.Listing.{is_sorted, proxy_column, get_by_region_lem}
use geo_proxy.Storage.Identity.{same_flag, is_route, set_status, RouteIdentity}
use geo_proxy.Storage.Probes.Threshold.{fail_forward, fail_forward-disabled}
use geo_proxy.Storage.Updates.{sole_address, finish_address_only_mutation, delete_proxy, paused}
use geo_proxy.Storage.Updates.Addresses.{for_rows, finish_address_only_mutation_lem}
use geo_proxy.Storage.Manual.{
  new_row, has_identity, upsert, with_source, add_owned, add_proxy_with_source, region_source_of,
  manual_key, manual_columns, add_manual_proxy_exec,
}
use geo_proxy.Storage.Manual.Added.{Finds, get_proxy_by_identity-add_proxy_with_source}
use geo_proxy.Storage.Subscriptions.{
  is_subscription, taken, clashes, new_subscription, insert_subscription, add_subscription,
  update_subscriptions, or_rolled_back, set_subscription, disable_nodes, pause_subscription,
}
use geo_proxy.Storage.Sound.{IsSound}
use geo_proxy.Storage.History.{
  new_database, write, edit, step, run, Call, adds_with_source, adds_manual, subscribes, waits,
  writes, edits,
}
use geo_proxy.Storage.History.Invariant.{run_new-IsSound}
use geo_proxy.Affinity.History.{run_new-IsConsistent}
use geo_proxy.Selector
use geo_proxy.Selector.Resolve.{resolve}
use geo_proxy.Selector.Resolve.Results.{Resolved}
use geo_proxy.Selector.Database.{node_store, NormalizesOnce, resolve-Database}
use geo_proxy.Examples.{
  calls, hour, plain_runtime, counting_floats, later_store, one_session_each, route,
}
use geo_proxy.Storage.NodeApi.{
  NodeApiFilter, normalize_node_api_paging, normalize_ai_list, list_nodes_for_api, ai_reachable_all,
  sort_nodes, build_node_api_where,
}
use geo_proxy.Storage.NodeApi.Page.{page_from, list_nodes_for_api-page}
use geo_proxy.Storage.History.Paused.{pause_subscription-unlisted}

-- Two subscriptions with a node each, and a manual node that was not checked yet.
abbrev history : List Call
history =
    edits (subscribes (codes "one") (codes "http://a") [] (codes "auto") (pos 60) [])
    ∷ edits (subscribes (codes "two") (codes "http://b") [] (codes "auto") (pos 60) [])
    ∷ writes (adds_with_source (codes "10.0.0.1:80") (codes "http") (codes "subscription") (pos 1))
    ∷ writes (adds_with_source (codes "10.0.0.2:80") (codes "http") (codes "subscription") (pos 2))
    ∷ writes (adds_manual (codes "10.0.0.3:80") (codes "HTTP") (codes "us") [] [] [] [])
    ∷ waits 5
    ∷ []

lowers_all : LeavesNoUpper ascii_only
lowers_all = no_upper

run_new-IsSound_example : IsSound (run ascii_only (new_database 1) history)
run_new-IsSound_example = run_new-IsSound ascii_only lowers_all 1 history

abbrev tables : Database
tables = run ascii_only (new_database 1) history

other_node : Proxy
unfolding new_row
other_node = (new_row 2 1 (codes "10.0.0.2:80") (codes "http") (codes "subscription") (pos 2)).proxy

listed : In other_node (
    get_by_region ascii_only
      (run ascii_only (pause_subscription (pos 1) tables).1 (waits 3 ∷ []))
      []
      [])
unfolding other_node run step write edit add_subscription insert_subscription clashes
    new_subscription taken count_rows add_proxy_with_source add_owned upsert new_row has_identity
    with_source update_where add_manual_proxy_exec manual_columns manual_key region_source_of
    normalize_protocol normalize_manual_region normalize_region is_alpha2 to_lower trim_space
    is_ascii trim_left is_space lower_byte text_eq pause_subscription or_rolled_back disable_nodes
    set_subscription update_subscriptions update_proxies is_subscription set_status get_by_region
    sort_proxies insert_sorted select_proxies drop_excluded is_excluded in_region usable
    selectable_scope parent_is first_where before by_address text_ltb
listed = inl refl

paused_one : (pause_subscription (pos 1) tables).0 ≡ done tt
unfolding run step write edit add_subscription insert_subscription clashes new_subscription taken
    count_rows add_proxy_with_source add_owned upsert new_row has_identity with_source update_where
    add_manual_proxy_exec manual_columns manual_key region_source_of normalize_protocol
    normalize_manual_region normalize_region is_alpha2 to_lower trim_space is_ascii trim_left
    is_space lower_byte text_eq pause_subscription or_rolled_back disable_nodes set_subscription
    update_subscriptions update_proxies is_subscription set_status
paused_one = refl

pause_subscription-unlisted_example : eq_ℤ other_node.subscription_id (pos 1) ≡ false
pause_subscription-unlisted_example =
    pause_subscription-unlisted (pos 1) ascii_only tables (waits 3 ∷ []) [] [] other_node lowers_all
      run_new-IsSound_example paused_one refl listed (unfold other_node new_row text_eq in refl)

get_by_region_lem_example :
    (is_sorted (get_by_region ascii_only tables (codes "us") (pos 7 ∷ [])) ≡ true)
    × ((x : Proxy)
        → In x (get_by_region ascii_only tables (codes "us") (pos 7 ∷ [])) ↔ (
            In x (map proxy_column tables.proxies)
            × (in_region tables (normalize_region ascii_only (codes "us")) x ≡ true)
            × (is_excluded (pos 7 ∷ []) x.id ≡ false)))
get_by_region_lem_example = get_by_region_lem ascii_only tables (codes "us") (pos 7 ∷ [])

length-get_by_region_example : length (get_by_region ascii_only tables (codes "us") []) ≡ (
    if text_eq (normalize_region ascii_only (codes "us")) []
    then count_all tables
    else or_zero (lookup (normalize_region ascii_only (codes "us")) (count_by_region tables)))
length-get_by_region_example = length-get_by_region ascii_only tables (codes "us")

get_lowest_latency_by_protocol_exclude_filtered-Lowest_example :
    Lowest (Wanted ascii_only tables (codes "socks5") (codes "10.0.0.2:80" ∷ []) []) (
      get_lowest_latency_by_protocol_exclude_filtered ascii_only tables
        (codes "socks5")
        (codes "10.0.0.2:80" ∷ [])
        [])
get_lowest_latency_by_protocol_exclude_filtered-Lowest_example =
    get_lowest_latency_by_protocol_exclude_filtered-Lowest ascii_only tables (codes "socks5")
      (codes "10.0.0.2:80" ∷ []) []

get_random_by_protocol_exclude_filtered-Drawn_example :
    Drawn (Wanted ascii_only tables (codes "socks5") (codes "10.0.0.2:80" ∷ []) []) (
      get_random_by_protocol_exclude_filtered ascii_only
        (pos 7)
        tables
        (codes "socks5")
        (codes "10.0.0.2:80" ∷ [])
        [])
get_random_by_protocol_exclude_filtered-Drawn_example =
    get_random_by_protocol_exclude_filtered-Drawn ascii_only (pos 7) tables (codes "socks5")
      (codes "10.0.0.2:80" ∷ []) [] refl

finish_address_only_mutation_lem_example :
    let here = λ (r : Row). text_eq r.proxy.address (codes "10.0.0.2:80") in
    (finish_address_only_mutation
        (codes "10.0.0.2:80")
        (update_proxies (sole_address tables (codes "10.0.0.2:80")) paused tables)
      ≡ for_rows
          (count_rows here tables.proxies)
          tables
          (record tables { proxies = update_where here paused tables.proxies }))
    × (delete_proxy (codes "10.0.0.2:80") tables
        ≡ for_rows
            (count_rows here tables.proxies)
            tables
            (record tables { proxies = delete_where here tables.proxies }))
finish_address_only_mutation_lem_example =
    finish_address_only_mutation_lem (codes "10.0.0.2:80") tables paused

abbrev second_route : RouteIdentity
second_route = record {
  id = pos 2;
  address = codes "10.0.0.2:80";
  protocol = codes "http";
  node_key = [];
  username = [];
  password = [];
  source = codes "subscription";
  subscription_id = pos 2;
  dual_protocol = false;
}

fail_forward-disabled_example :
    all_of
      (λ r. not (is_route second_route r) || is_disabled r.proxy)
      (fail_forward second_route (pos 3) 3 tables).proxies
    ≡ true
fail_forward-disabled_example = fail_forward-disabled second_route 2 tables (
    unfold run step write edit add_subscription insert_subscription clashes new_subscription taken
      count_rows add_proxy_with_source add_owned upsert new_row has_identity with_source
      update_where add_manual_proxy_exec manual_columns manual_key region_source_of
      normalize_protocol normalize_manual_region normalize_region is_alpha2 to_lower trim_space
      is_ascii trim_left is_space lower_byte text_eq is_route same_flag in
    refl)

get_proxy_by_identity-add_proxy_with_source_example :
    Finds
      (λ p.
        text_eq p.address (codes "10.0.0.1:80")
        && text_eq p.source (codes "subscription")
        && eq_ℤ p.subscription_id
            (if text_eq (codes "subscription") source_manual then pos 0 else pos 1)
        && text_eq p.protocol (codes "socks5"))
      (get_proxy_by_identity
        (add_proxy_with_source
          (codes "10.0.0.1:80")
          (codes "socks5")
          (codes "subscription")
          (pos 1)
          tables).1
        (codes "10.0.0.1:80")
        (codes "subscription")
        (pos 1))
get_proxy_by_identity-add_proxy_with_source_example =
    get_proxy_by_identity-add_proxy_with_source (codes "10.0.0.1:80") (codes "socks5")
      (codes "subscription") (pos 1) tables (unfold add_proxy_with_source add_owned text_eq in refl)

normalize_wide : (s : Text) → is_ascii s ≡ false → normalize_region ascii_only s ≡ map lower_byte s
unfolding normalize_region trim_space to_lower
normalize_wide s wide = rw wide (rw wide refl)

once : NormalizesOnce ascii_only
once s wide =
    rw
      (
        normalize_wide s wide,
        normalize_wide (map lower_byte s) (lower_byte-ascii s ∙ wide),
        lower_twice s,
      )
      refl

resolve-Database_example :
    Resolved plain_runtime counting_floats
      (node_store ascii_only tables)
      one_session_each
      (route (codes "s") [])
      []
      later_store
      (resolve plain_runtime counting_floats
        (node_store ascii_only tables)
        one_session_each
        (λ n. 0)
        (route (codes "s") [])
        []
        (some later_store))
resolve-Database_example =
    resolve-Database plain_runtime counting_floats one_session_each tables run_new-IsSound_example
      (λ n. 0) (route (codes "s") []) [] later_store
      (unfold run step write edit add_subscription insert_subscription clashes new_subscription
          taken count_rows add_proxy_with_source add_owned upsert new_row has_identity with_source
          update_where add_manual_proxy_exec manual_columns manual_key region_source_of
          normalize_protocol normalize_manual_region normalize_region is_alpha2 to_lower trim_space
          is_ascii trim_left is_space lower_byte text_eq in
        refl)
      once (unfold Selector.normalize_region trim_space to_lower in refl)
      (unfold Selector.is_empty in refl) (run_new-IsConsistent hour 1 calls)

-- The second page of one node, of the nodes that reach a service.
abbrev second_page : NodeApiFilter
second_page = record {
  region = [];
  protocol = codes "HTTP";
  source = [];
  status = codes "all";
  max_abuse = none;
  cf = [];
  ai = codes "OpenAI" ∷ [];
  limit = pos 1;
  offset = pos 1;
}

list_nodes_for_api-page_example :
    let paging = normalize_node_api_paging (pos 1) (pos 1) in
    let wanted = normalize_ai_list ascii_only (codes "OpenAI" ∷ []) in
    list_nodes_for_api (λ s. some []) ascii_only second_page tables
    ≡ some (
        page_from paging.0 paging.1 (
          select
            (λ p. ai_reachable_all (λ s. some []) ascii_only p.ai_reachability wanted)
            (sort_nodes (
              select_proxies (build_node_api_where ascii_only second_page tables) tables.proxies))))
list_nodes_for_api-page_example =
    list_nodes_for_api-page (λ s. some []) ascii_only second_page tables
      run_new-IsSound_example.ids_distinct
