-- ===== src/Storage/NodeApi/Page.antt =====
-- `ListNodesForAPI` of storage/node_api_query.go, with and without a filter by services.
use geo_proxy.Common.{
  ℕ, zero, suc, ◌+◌, ◌-◌, ◌≡◌, refl, sym, ap, ◌∙◌, Bool, true, not, List, [], ◌∷◌, Option, some,
  leb, all_of, distinct, select, map, length, take, drop, arith, Bool-cases, inl, inr,
}
use geo_proxy.Common.Int.{ℤ, eq_ℤ}
use geo_proxy.Common.Key.{Text}
use geo_proxy.Common.Assoc.{Map}
use geo_proxy.GoText.{Unicode}
use geo_proxy.Storage.{Proxy}
use geo_proxy.Storage.Table.{Row, Database, count_rows}
use geo_proxy.Storage.Lookup.{select_proxies}
use geo_proxy.Storage.Sound.{row_id}
use geo_proxy.Storage.NodeApi.{
  normalize_node_api_paging, normalize_ai_list, build_node_api_where, insert_node, sort_nodes,
  list_plain, ai_reachable_all, started, page_of, list_with_ai, list_wanted, list_nodes_for_api,
  NodeApiFilter,
}
use geo_proxy.Storage.NodeApi.Order.{no_twins}
use geo_proxy.Storage.NodeApi.Reference.{scan_batches-all, scan_batch_lem}

-- Rows with distinct IDs give nodes with distinct IDs.
module _ (test : Row → Bool) where
  all_of-select_proxies :
      (id : ℤ) (rows : List Row)
      → all_of (λ y. not (eq_ℤ y id)) (map row_id rows) ≡ true
      → all_of (λ p. not (eq_ℤ p.id id)) (select_proxies test rows) ≡ true
  unfolding select_proxies
  all_of-select_proxies id [] h = refl
  all_of-select_proxies id (r ∷ rows) h = elim (Bool-cases (test r)) [
    | inl e ↦ rw e (ground (arith, all_of-select_proxies id rows))
    | inr e ↦ rw e (all_of-select_proxies id rows (ground arith))
  ]

  select_proxies-no_twins :
      (rows : List Row)
      → distinct eq_ℤ (map row_id rows) ≡ true
      → no_twins (select_proxies test rows) ≡ true
  unfolding select_proxies
  select_proxies-no_twins [] h = refl
  select_proxies-no_twins (r ∷ rows) h = elim (Bool-cases (test r)) [
    | inl e ↦
        rw e (ground (arith, select_proxies-no_twins rows, all_of-select_proxies r.proxy.id rows))
    | inr e ↦ rw e (select_proxies-no_twins rows (ground arith))
  ]

  pub length-select_proxies :
      (rows : List Row) → length (select_proxies test rows) ≡ count_rows test rows
  unfolding select_proxies count_rows
  length-select_proxies [] = refl
  length-select_proxies (r ∷ rows) = elim (Bool-cases (test r)) [
    | inl e ↦ rw e (ap suc (length-select_proxies rows))
    | inr e ↦ rw e (length-select_proxies rows)
  ]

  count_rows-bound : (rows : List Row) → leb (count_rows test rows) (length rows) ≡ true
  unfolding count_rows
  count_rows-bound [] = refl
  count_rows-bound (r ∷ rows) = ground (arith, count_rows-bound rows)

length-insert_node : (p : Proxy) (ps : List Proxy) → length (insert_node p ps) ≡ suc (length ps)
unfolding insert_node
length-insert_node p [] = refl
length-insert_node p (q ∷ ps) = ground (arith, length-insert_node p ps)

length-sort_nodes : (ps : List Proxy) → length (sort_nodes ps) ≡ length ps
unfolding sort_nodes
length-sort_nodes [] = refl
length-sort_nodes (p ∷ ps) = length-insert_node p (sort_nodes ps) ∙ ap suc (length-sort_nodes ps)

drop_all : (n : ℕ) (ps : List Proxy) → leb (length ps) n ≡ true → drop n ps ≡ []
drop_all zero [] e = refl
drop_all zero (p ∷ ps) e = ground (arith, e)
drop_all (suc n) [] e = refl
drop_all (suc n) (p ∷ ps) e = drop_all n ps (ground (arith, e))

take_nil : (n : ℕ) → take {A = Proxy} n [] ≡ []
take_nil zero = refl
take_nil (suc n) = refl

keep_all : (ps : List Proxy) → select (λ p. true) ps ≡ ps
keep_all [] = refl
keep_all (p ∷ ps) = ap (λ t. p ∷ t) (keep_all ps)

-- A page, and the number of nodes it is a page of.
abbrev pub page_from : ℕ → ℕ → List Proxy → List Proxy × ℕ
page_from limit offset good = (take limit (drop offset good), length good)

module _ (test : Row → Bool) (limit offset : ℕ) (rows : List Row) where
  abbrev sorted : List Proxy
  sorted = sort_nodes (select_proxies test rows)

  counted : length sorted ≡ count_rows test rows
  counted = length-sort_nodes (select_proxies test rows) ∙ length-select_proxies test rows

  plain_page : list_plain test limit offset rows ≡ page_from limit offset sorted
  unfolding list_plain
  plain_page = elim (Bool-cases (leb (count_rows test rows) offset)) [
    | inl past ↦
        let beyond : leb (length sorted) offset ≡ true = rw counted past in
        rw (past, drop_all offset sorted beyond, take_nil limit, counted) refl
    | inr within ↦ rw (within, counted) refl
  ]

  ai_page :
      (reachable : Proxy → Bool)
      → distinct eq_ℤ (map row_id rows) ≡ true
      → list_with_ai reachable test limit offset rows
        ≡ some (page_from limit offset (select reachable sorted))
  unfolding list_with_ai page_of
  ai_page reachable ids =
      let enough : leb (length sorted) (length rows) ≡ true =
        rw counted (count_rows-bound test rows) in
      let done_all =
        scan_batches-all reachable limit offset test 1999 rows
          (select_proxies-no_twins test rows ids) (length rows) sorted started refl enough in
      let read = scan_batch_lem reachable limit offset sorted started in
      let whole : limit - 0 ≡ limit = omega arith in
      let none_skipped : offset - 0 ≡ offset = omega arith in
      let good = select reachable sorted in
      let none_counted : 0 + length good ≡ length good = omega arith in
      let pages : (take (limit - 0) (drop (offset - 0) good), 0 + length good)
          ≡ page_from limit offset good =
        rw (whole, none_skipped, none_counted) refl in
      rw (done_all, read.0, read.1) (ap some pages)

-- A read of the nodes with distinct IDs ends, and returns the page that the limit and the offset cut
-- out of the nodes that pass, sorted by latency and ID, with their number: the filter by services,
-- which is read in batches after a cursor, gives the same as a filter of the whole sorted list.
pub list_nodes_for_api-page :
    (unmarshal : Text → Option (Map Text ℤ)) (u : Unicode) (filter : NodeApiFilter) (db : Database)
    → distinct eq_ℤ (map row_id db.proxies) ≡ true
    → let paging = normalize_node_api_paging filter.limit filter.offset in
      let wanted = normalize_ai_list u filter.ai in
      list_nodes_for_api unmarshal u filter db
      ≡ some (
          page_from paging.0 paging.1 (
            select
              (λ p. ai_reachable_all unmarshal u p.ai_reachability wanted)
              (sort_nodes (select_proxies (build_node_api_where u filter db) db.proxies))))
unfolding list_nodes_for_api
list_nodes_for_api-page unmarshal u filter db ids = wanted_page (normalize_ai_list u filter.ai)
  where
    limit : ℕ
    limit = (normalize_node_api_paging filter.limit filter.offset).0

    offset : ℕ
    offset = (normalize_node_api_paging filter.limit filter.offset).1

    test : Row → Bool
    test = build_node_api_where u filter db

    wanted_page :
        (names : List Text)
        → list_wanted unmarshal u names test limit offset db.proxies
          ≡ some (
              page_from limit offset (
                select
                  (λ p. ai_reachable_all unmarshal u p.ai_reachability names)
                  (sort_nodes (select_proxies test db.proxies))))
    wanted_page [] =
        unfold list_wanted ai_reachable_all in
        ap some (
          plain_page test limit offset db.proxies
          ∙ ap (page_from limit offset)
              (sym (keep_all (sort_nodes (select_proxies test db.proxies)))))
    wanted_page (name ∷ names) =
        unfold list_wanted in
        ai_page test limit offset db.proxies
          (λ p. ai_reachable_all unmarshal u p.ai_reachability (name ∷ names)) ids
