-- ===== src/Storage/NodeApi.antt =====
-- storage/node_api_query.go: a page of the nodes that pass a filter, and how many pass. The rows of a
-- read are those of one instant, since it is a transaction.
pub mod Order
pub mod Pages
pub mod Reference
pub mod Page
use geo_proxy.Common.{
  ℕ, zero, suc, ◌+◌, ◌==◌, Bool, true, false, ◌&&◌, ◌||◌, not, List, [], ◌∷◌, ◌++◌, Option, none,
  some, if◌then◌else◌, ltb, leb, length, take, drop, select,
}
use geo_proxy.Common.Int.{ℤ, pos, negsuc, pos_part, eq_ℤ, ltb_ℤ, leb_ℤ}
use geo_proxy.Common.Key.{Text, text_eq, text_key}
use geo_proxy.Common.Assoc.{Map, lookup}
use geo_proxy.GoText.{Unicode, codes, to_lower, trim_space}
use geo_proxy.Storage.{Proxy}
use geo_proxy.Storage.Table.{Row, Database, usable, selectable_scope, count_rows}
use geo_proxy.Storage.Regions.{normalize_protocol, dual_supports_inbound_protocol}
use geo_proxy.Storage.Lookup.{select_proxies}

pub record NodeApiFilter : Type 0 where
  pub region : Text
  pub protocol : Text
  pub source : Text
  pub status : Text
  pub max_abuse : Option ℤ
  pub cf : Text
  pub ai : List Text
  pub limit : ℤ
  pub offset : ℤ

abbrev pub node_api_default_limit : ℕ
node_api_default_limit = 500

abbrev pub node_api_max_limit : ℕ
node_api_max_limit = 2000

unfoldable pub normalize_node_api_paging : ℤ → ℤ → ℕ × ℕ
normalize_node_api_paging raw_limit raw_offset =
    let limit = if leb_ℤ raw_limit (pos 0) then node_api_default_limit else pos_part raw_limit in
    (
      if ltb node_api_max_limit limit then node_api_max_limit else limit,
      if ltb_ℤ raw_offset (pos 0) then 0 else pos_part raw_offset,
    )

unfoldable pub add_names : Unicode → List Text → List Text → List Text
add_names u seen [] = []
add_names u seen (raw ∷ ai) =
    let name = trim_space u (to_lower u raw) in
    let old = add_names u seen ai in
    let new = name ∷ add_names u (name ∷ seen) ai in
    if text_eq name [] || is_named name seen then old else new
  where
    is_named : Text → List Text → Bool
    is_named name [] = false
    is_named name (x ∷ xs) = text_eq x name || is_named name xs

unfoldable pub normalize_ai_list : Unicode → List Text → List Text
unfolding add_names
normalize_ai_list u ai = add_names u [] ai

-- `inboundProtocolSQL`
unfoldable pub inbound_protocol : Unicode → Text → Proxy → Bool
inbound_protocol u protocol p =
    let wanted = normalize_protocol u protocol in
    text_eq p.protocol wanted || dual_supports_inbound_protocol wanted && p.dual_protocol

-- A condition that an empty value leaves out.
unfoldable pub unless_empty : Text → Bool → Bool
unless_empty [] b = true
unless_empty (c ∷ s) b = b

unfoldable pub abuse_at_most : Option ℤ → Row → Bool
abuse_at_most none r = true
abuse_at_most (some max) r =
    leb_ℤ (pos 0) r.details.ipapiis_score && leb_ℤ r.details.ipapiis_score max

unfoldable pub cf_is : Text → Proxy → Bool
cf_is cf p =
    if text_eq cf (codes "open")
    then eq_ℤ p.cf_blocked (pos 0)
    else if text_eq cf (codes "blocked")
    then eq_ℤ p.cf_blocked (pos 1)
    else true

unfoldable pub build_node_api_where : Unicode → NodeApiFilter → Database → Row → Bool
unfolding inbound_protocol unless_empty abuse_at_most cf_is
build_node_api_where u filter db r =
    let status = trim_space u (to_lower u filter.status) in
    let region = trim_space u (to_lower u filter.region) in
    let protocol = trim_space u (to_lower u filter.protocol) in
    let source = trim_space u (to_lower u filter.source) in
    (text_eq status (codes "all") || usable r.proxy && selectable_scope db r.proxy)
    && unless_empty region (text_eq r.proxy.region region)
    && unless_empty protocol (inbound_protocol u protocol r.proxy)
    && unless_empty source (text_eq r.proxy.source source)
    && cf_is (trim_space u (to_lower u filter.cf)) r.proxy
    && abuse_at_most filter.max_abuse r

-- ORDER BY latency ASC, id ASC, which is also the order of the cursor.
unfoldable pub precedes : Proxy → Proxy → Bool
precedes p q =
    if ltb_ℤ p.latency q.latency
    then true
    else if ltb_ℤ q.latency p.latency
    then false
    else ltb_ℤ p.id q.id

unfoldable pub insert_node : Proxy → List Proxy → List Proxy
insert_node p [] = p ∷ []
insert_node p (q ∷ sorted) =
    let later = q ∷ insert_node p sorted in if precedes q p then later else p ∷ q ∷ sorted

unfoldable pub sort_nodes : List Proxy → List Proxy
unfolding insert_node
sort_nodes [] = []
sort_nodes (p ∷ ps) = insert_node p (sort_nodes ps)

unfoldable pub list_plain : (Row → Bool) → ℕ → ℕ → List Row → List Proxy × ℕ
unfolding count_rows sort_nodes
list_plain test limit offset rows =
    let total = count_rows test rows in
    if leb total offset
    then ([], total)
    else (take limit (drop offset (sort_nodes (select_proxies test rows))), total)

-- The JSON decoder; `none` is its error.
module _ (unmarshal : Text → Option (Map Text ℤ)) (u : Unicode) where
  unfoldable pub all_zero : Map Text ℤ → List Text → Bool
  all_zero m [] = true
  all_zero m (name ∷ names) =
      elim (lookup name m) [ none ↦ false | some v ↦ eq_ℤ v (pos 0) ] && all_zero m names

  unfoldable pub ai_reachable_all : Text → List Text → Bool
  unfolding all_zero
  ai_reachable_all raw [] = true
  ai_reachable_all raw (name ∷ names) =
      let text = trim_space u raw in
      if text_eq text []
      then false
      else elim (unmarshal text) [ none ↦ false | some m ↦ all_zero m (name ∷ names) ]

-- The variables of the loop; the cursor is the last node that was read.
pub record Scan : Type 0 where
  pub total : ℕ
  pub skipped : ℕ
  pub page : List Proxy
  pub cursor : Option Proxy

unfoldable pub after : Option Proxy → Proxy → Bool
after none p = true
after (some last) p = precedes last p

module _ (reachable : Proxy → Bool) (limit offset : ℕ) where
  unfoldable pub keep_node : Proxy → Scan → Scan
  keep_node p s =
      let counted = record s { total = suc s.total } in
      if ltb s.skipped offset
      then record counted { skipped = suc s.skipped }
      else if ltb (length s.page) limit
      then record counted { page = s.page ++ (p ∷ []) }
      else counted

  unfoldable pub scan_node : Proxy → Scan → Scan
  unfolding keep_node
  scan_node p s =
      let here = record s { cursor = some p } in if reachable p then keep_node p here else here

  unfoldable pub scan_batch : List Proxy → Scan → Scan
  unfolding scan_node
  scan_batch [] s = s
  scan_batch (p ∷ ps) s = scan_batch ps (scan_node p s)

  -- The batches, on fuel: each reads at most `size` rows after the cursor.
  unfoldable pub scan_batches : (Row → Bool) → ℕ → List Row → ℕ → Scan → Option Scan
  unfolding sort_nodes scan_batch after
  scan_batches test size rows zero s = none
  scan_batches test size rows (suc fuel) s =
      let batch =
        take size (sort_nodes (select_proxies (λ r. test r && after s.cursor r.proxy) rows)) in
      let scanned = scan_batch batch s in
      let rest = scan_batches test size rows fuel scanned in
      if ltb (length batch) size then some scanned else rest

abbrev pub started : Scan
started = record { total = 0; skipped = 0; page = []; cursor = none }

unfoldable pub page_of : Option Scan → Option (List Proxy × ℕ)
page_of none = none
page_of (some s) = some (s.page, s.total)

-- Each batch but the last reads a row at least, so the fuel is one more than the rows.
unfoldable pub list_with_ai :
    (Proxy → Bool) → (Row → Bool) → ℕ → ℕ → List Row → Option (List Proxy × ℕ)
unfolding scan_batches page_of
list_with_ai reachable test limit offset rows =
    page_of
      (scan_batches reachable limit offset test node_api_max_limit rows (suc (length rows)) started)

unfoldable pub list_wanted :
    (Text → Option (Map Text ℤ))
    → Unicode
    → List Text
    → (Row → Bool)
    → ℕ
    → ℕ
    → List Row
    → Option (List Proxy × ℕ)
unfolding list_with_ai list_plain
list_wanted unmarshal u [] test limit offset rows = some (list_plain test limit offset rows)
list_wanted unmarshal u (name ∷ names) test limit offset rows =
    list_with_ai (λ p. ai_reachable_all unmarshal u p.ai_reachability (name ∷ names)) test limit
      offset rows

unfoldable pub list_nodes_for_api :
    (Text → Option (Map Text ℤ)) → Unicode → NodeApiFilter → Database → Option (List Proxy × ℕ)
unfolding list_wanted
list_nodes_for_api unmarshal u filter db =
    let (limit, offset) = normalize_node_api_paging filter.limit filter.offset in
    list_wanted unmarshal u (normalize_ai_list u filter.ai) (build_node_api_where u filter db) limit
      offset db.proxies
