-- ===== src/Storage/Counts/Listed.antt =====
-- The counts against the lists of nodes that they announce.
use geo_proxy.Common.{
  suc, ◌≡◌, refl, sym, ap, ◌∙◌, Bool, ◌&&◌, not, List, [], ◌∷◌, length, if◌then◌else◌, arith,
  Bool-cases, inl, inr,
}
use geo_proxy.Common.Key.{Text, text_eq, text_eq_iff, text_key}
use geo_proxy.Common.Assoc.{lookup, lookup-assign}
use geo_proxy.GoText.{Unicode}
use geo_proxy.Storage.{Proxy}
use geo_proxy.Storage.Table.{Row, Database, count_rows}
use geo_proxy.Storage.Regions.{normalize_region}
use geo_proxy.Storage.Lookup.{
  insert_sorted, sort_proxies, select_proxies, is_excluded, drop_excluded, in_region, get_by_region,
}
use geo_proxy.Storage.NodeApi.Page.{length-select_proxies}
use geo_proxy.Storage.Counts.{available, count_all, or_zero, group_by, count_by_region}

length-insert_sorted : (p : Proxy) (ps : List Proxy) → length (insert_sorted p ps) ≡ suc (length ps)
unfolding insert_sorted
length-insert_sorted p [] = refl
length-insert_sorted p (q ∷ ps) = ground (arith, length-insert_sorted p ps)

length-sort_proxies : (ps : List Proxy) → length (sort_proxies ps) ≡ length ps
unfolding sort_proxies
length-sort_proxies [] = refl
length-sort_proxies (p ∷ ps) =
    length-insert_sorted p (sort_proxies ps) ∙ ap suc (length-sort_proxies ps)

drop_none : (ps : List Proxy) → drop_excluded [] ps ≡ ps
unfolding drop_excluded is_excluded
drop_none [] = refl
drop_none (p ∷ ps) = ap (λ t. p ∷ t) (drop_none ps)

-- The length of a list for a region, as a count of rows.
listed_rows :
    (u : Unicode) (db : Database) (region : Text)
    → length (get_by_region u db region [])
      ≡ count_rows (λ r. in_region db (normalize_region u region) r.proxy) db.proxies
unfolding get_by_region
listed_rows u db region =
    let test : Row → Bool = λ r. in_region db (normalize_region u region) r.proxy in
    let found = select_proxies test db.proxies in
    ap length (drop_none (sort_proxies found))
    ∙ length-sort_proxies found
    ∙ length-select_proxies test db.proxies

or_zero-group_by :
    (test : Row → Bool) (column : Row → Text) (key : Text) (rows : List Row)
    → or_zero (lookup key (group_by test column rows))
      ≡ count_rows (λ r. test r && text_eq (column r) key) rows
unfolding group_by count_rows or_zero lookup
or_zero-group_by test column key [] = refl
or_zero-group_by test column key (r ∷ rows) =
    let groups = group_by test column rows in
    elim (Bool-cases (test r)) [
      | inl e ↦ rw e (
          rw (lookup-assign (column r) key (suc (or_zero (lookup (column r) groups))) groups)
            (elim (Bool-cases (text_eq (column r) key)) [
              | inl same ↦ rw same (
                  ap (λ k. suc (or_zero (lookup k groups))) ((text_eq_iff (column r) key).0 same)
                  ∙ ap suc (or_zero-group_by test column key rows))
              | inr other ↦ rw other (or_zero-group_by test column key rows)
            ]))
      | inr e ↦ rw e (or_zero-group_by test column key rows)
    ]

count_rows-congr :
    (f g : Row → Bool) (rows : List Row)
    → ((r : Row) → f r ≡ g r)
    → count_rows f rows ≡ count_rows g rows
unfolding count_rows
count_rows-congr f g [] same = refl
count_rows-congr f g (r ∷ rows) same = rw (same r) (ground (arith, count_rows-congr f g rows same))

region_counted :
    (db : Database) (region : Text) (r : Row)
    → (available db r && not (text_eq r.proxy.region [])) && text_eq r.proxy.region region
      ≡ not (text_eq region []) && in_region db region r.proxy
unfolding available in_region text_eq
region_counted db [] r = ground arith
region_counted db (b ∷ region) r = ground (arith, text_eq_iff r.proxy.region (b ∷ region))

counted_rows :
    (db : Database) (region : Text)
    → count_rows (λ r. in_region db region r.proxy) db.proxies
      ≡ (if text_eq region [] then count_all db else or_zero (lookup region (count_by_region db)))
unfolding count_all count_by_region text_eq
counted_rows db [] = unfold in_region available in refl
counted_rows db (b ∷ region) = sym (
    or_zero-group_by (λ r. available db r && not (text_eq r.proxy.region [])) (λ r. r.proxy.region)
      (b ∷ region) db.proxies
    ∙ count_rows-congr
        (λ r.
          (available db r && not (text_eq r.proxy.region []))
          && text_eq r.proxy.region (b ∷ region))
        (λ r. in_region db (b ∷ region) r.proxy) db.proxies (region_counted db (b ∷ region)))

-- The list of nodes for a region, with none excluded, is as long as the counts say: for the empty
-- region the count of all nodes, and for another the number that the counts of the regions hold for
-- it, zero if they hold none.
pub length-get_by_region :
    (u : Unicode) (db : Database) (region : Text)
    → length (get_by_region u db region []) ≡ (
        if text_eq (normalize_region u region) []
        then count_all db
        else or_zero (lookup (normalize_region u region) (count_by_region db)))
length-get_by_region u db region =
    listed_rows u db region ∙ counted_rows db (normalize_region u region)
