-- ===== src/Storage/Counts.antt =====
-- The counts of storage/proxy_counts.go and storage/regions.go.
pub mod Listed
use geo_proxy.Common.{
  ℕ, zero, suc, Bool, true, false, ◌&&◌, List, [], ◌∷◌, Option, none, some, if◌then◌else◌, not,
}
use geo_proxy.Common.Key.{Text, text_eq, text_key}
use geo_proxy.Common.Assoc.{Map, lookup, assign}
use geo_proxy.GoText.{Unicode, text_ltb}
use geo_proxy.Storage.Table.{Row, Database, usable, selectable_scope, count_rows}
use geo_proxy.Storage.NodeApi.{inbound_protocol}

-- The condition of each count; the statements differ in what they add to it.
unfoldable pub available : Database → Row → Bool
available db r = usable r.proxy && selectable_scope db r.proxy

unfoldable pub count_all : Database → ℕ
unfolding available count_rows
count_all db = count_rows (available db) db.proxies

unfoldable pub count_available_by_protocol : Unicode → Database → Text → ℕ
unfolding available count_rows inbound_protocol
count_available_by_protocol u db protocol =
    count_rows (λ r. available db r && inbound_protocol u protocol r.proxy) db.proxies

unfoldable pub count_by_source : Database → Text → ℕ
unfolding available count_rows
count_by_source db source =
    count_rows (λ r. text_eq r.proxy.source source && available db r) db.proxies

unfoldable pub or_zero : Option ℕ → ℕ
or_zero none = 0
or_zero (some n) = n

-- GROUP BY of a column, with COUNT(*), over the rows that pass.
unfoldable pub group_by : (Row → Bool) → (Row → Text) → List Row → Map Text ℕ
unfolding lookup assign or_zero
group_by test column [] = []
group_by test column (r ∷ rows) =
    let groups = group_by test column rows in
    let counted = assign (column r) (suc (or_zero (lookup (column r) groups))) groups in
    if test r then counted else groups

unfoldable pub count_by_region : Database → Map Text ℕ
unfolding available group_by
count_by_region db =
    group_by (λ r. available db r && not (text_eq r.proxy.region [])) (λ r. r.proxy.region)
      db.proxies

-- ORDER BY region ASC
unfoldable pub insert_region : Text × ℕ → Map Text ℕ → Map Text ℕ
insert_region (region, n) [] = (region, n) ∷ []
insert_region (region, n) ((next, m) ∷ groups) =
    let later = (next, m) ∷ insert_region (region, n) groups in
    if text_ltb next region then later else (region, n) ∷ (next, m) ∷ groups

unfoldable pub sort_regions : Map Text ℕ → Map Text ℕ
unfolding insert_region
sort_regions [] = []
sort_regions (group ∷ groups) = insert_region group (sort_regions groups)

unfoldable pub get_regions_with_count : Database → Map Text ℕ
unfolding count_by_region sort_regions
get_regions_with_count db = sort_regions (count_by_region db)
