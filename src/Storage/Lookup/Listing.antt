-- ===== src/Storage/Lookup/Listing.antt =====
-- `GetByRegion` of storage/regions.go: which nodes it lists, and in which order.
use geo_proxy.Common.{
  ◌≡◌, refl, Bool, true, false, ◌⊎◌, inl, inr, ◌↔◌, not, List, [], ◌∷◌, map, In, all_of, distinct,
  arith, Bool-cases,
}
use geo_proxy.Common.Int.{ℤ}
use geo_proxy.Common.Key.{Text}
use geo_proxy.GoText.{Unicode, text_ltb}
use geo_proxy.GoText.Order.{text_ltb_irrefl, text_ltb_trans, text_ltb_total}
use geo_proxy.Storage.{Proxy}
use geo_proxy.Storage.Table.{Row, Database}
use geo_proxy.Storage.Regions.{normalize_region}
use geo_proxy.Storage.Lookup.{
  before, by_address, insert_sorted, sort_proxies, select_proxies, is_excluded, drop_excluded,
  in_region, get_by_region,
}

-- No node stands after one that it should precede.
abbrev pub is_sorted : List Proxy → Bool
is_sorted = distinct before

text_cotrans : (s t u : Text) → text_ltb t s ≡ false → text_ltb u t ≡ false → text_ltb u s ≡ false
text_cotrans s t u a b = ground (arith, text_ltb_total s t, text_ltb_trans u s t)

by_address_asym : (p q : Proxy) → by_address p q ≡ true → by_address q p ≡ false
unfolding by_address
by_address_asym p q e =
    ground (arith, text_ltb_trans p.address q.address p.address, text_ltb_irrefl p.address)

by_address_cotrans :
    (p q r : Proxy) → by_address q p ≡ false → by_address r q ≡ false → by_address r p ≡ false
unfolding by_address
by_address_cotrans p q r a b = ground (
  arith,
  text_cotrans p.address q.address r.address,
  text_cotrans r.address q.address p.address,
  text_cotrans q.address p.address r.address,
  text_cotrans q.address r.address p.address,
  text_cotrans p.address r.address q.address,
  text_cotrans r.address p.address q.address,
)

before_asym : (p q : Proxy) → before p q ≡ true → before q p ≡ false
unfolding before
before_asym p q e = ground (arith, by_address_asym p q)

before_cotrans : (p q r : Proxy) → before q p ≡ false → before r q ≡ false → before r p ≡ false
unfolding before
before_cotrans p q r a b = ground (arith, by_address_cotrans p q r)

all_of-insert_sorted :
    (P : Proxy → Bool) (p : Proxy) (ps : List Proxy)
    → P p ≡ true
    → all_of P ps ≡ true
    → all_of P (insert_sorted p ps) ≡ true
unfolding insert_sorted
all_of-insert_sorted P p [] e h = ground arith
all_of-insert_sorted P p (q ∷ ps) e h = ground (arith, all_of-insert_sorted P p ps e)

-- What precedes the first of a sorted list precedes the rest.
all_of-later :
    (p q : Proxy) (ps : List Proxy)
    → before q p ≡ false
    → all_of (λ y. not (before y q)) ps ≡ true
    → all_of (λ y. not (before y p)) ps ≡ true
all_of-later p q [] e h = refl
all_of-later p q (r ∷ ps) e h = ground (arith, before_cotrans p q r e, all_of-later p q ps e)

insert_sorted-is_sorted :
    (p : Proxy) (ps : List Proxy) → is_sorted ps ≡ true → is_sorted (insert_sorted p ps) ≡ true
unfolding insert_sorted
insert_sorted-is_sorted p [] h = refl
insert_sorted-is_sorted p (q ∷ ps) h = elim (Bool-cases (before q p)) [
  | inl e ↦ rw e (
      ground (
        arith,
        insert_sorted-is_sorted p ps,
        all_of-insert_sorted (λ y. not (before y q)) p ps (ground (arith, before_asym q p e)),
      ))
  | inr e ↦ rw e (ground (arith, e, all_of-later p q ps e))
]

sort_proxies-is_sorted : (ps : List Proxy) → is_sorted (sort_proxies ps) ≡ true
unfolding sort_proxies
sort_proxies-is_sorted [] = refl
sort_proxies-is_sorted (p ∷ ps) =
    insert_sorted-is_sorted p (sort_proxies ps) (sort_proxies-is_sorted ps)

module _ (excludes : List ℤ) where
  all_of-drop_excluded :
      (P : Proxy → Bool) (ps : List Proxy)
      → all_of P ps ≡ true
      → all_of P (drop_excluded excludes ps) ≡ true
  unfolding drop_excluded
  all_of-drop_excluded P [] h = refl
  all_of-drop_excluded P (p ∷ ps) h = elim (Bool-cases (is_excluded excludes p.id)) [
    | inl e ↦ rw e (ground (arith, all_of-drop_excluded P ps))
    | inr e ↦ rw e (ground (arith, all_of-drop_excluded P ps))
  ]

  drop_excluded-is_sorted :
      (ps : List Proxy) → is_sorted ps ≡ true → is_sorted (drop_excluded excludes ps) ≡ true
  unfolding drop_excluded
  drop_excluded-is_sorted [] h = refl
  drop_excluded-is_sorted (p ∷ ps) h = elim (Bool-cases (is_excluded excludes p.id)) [
    | inl e ↦ rw e (ground (arith, drop_excluded-is_sorted ps))
    | inr e ↦ rw e (
        ground (arith, drop_excluded-is_sorted ps, all_of-drop_excluded (λ y. not (before y p)) ps))
  ]

  In-drop_excluded :
      (x : Proxy) (ps : List Proxy)
      → In x (drop_excluded excludes ps) ↔ (In x ps × (is_excluded excludes x.id ≡ false))
  unfolding drop_excluded
  In-drop_excluded x [] = ground arith
  In-drop_excluded x (p ∷ ps) = elim (Bool-cases (is_excluded excludes p.id)) [
    | inl e ↦ rw e (ground (arith, In-drop_excluded x ps, e))
    | inr e ↦ rw e (ground (arith, In-drop_excluded x ps, e))
  ]

In-insert_sorted : (x p : Proxy) (ps : List Proxy) → In x (insert_sorted p ps) ↔ ((x ≡ p) ⊎ In x ps)
unfolding insert_sorted
In-insert_sorted x p [] = ground arith
In-insert_sorted x p (q ∷ ps) = elim (Bool-cases (before q p)) [
  | inl e ↦ rw e (ground (arith, In-insert_sorted x p ps))
  | inr e ↦ rw e (ground arith)
]

In-sort_proxies : (x : Proxy) (ps : List Proxy) → In x (sort_proxies ps) ↔ In x ps
unfolding sort_proxies
In-sort_proxies x [] = ground arith
In-sort_proxies x (p ∷ ps) =
    ground (arith, In-sort_proxies x ps, In-insert_sorted x p (sort_proxies ps))

abbrev pub proxy_column : Row → Proxy
proxy_column r = r.proxy

pub In-select_proxies :
    (P : Proxy → Bool) (x : Proxy) (rows : List Row)
    → In x (select_proxies (λ r. P r.proxy) rows) ↔ (In x (map proxy_column rows) × (P x ≡ true))
unfolding select_proxies
In-select_proxies P x [] = ground arith
In-select_proxies P x (r ∷ rows) = elim (Bool-cases (P r.proxy)) [
  | inl e ↦ rw e (ground (arith, In-select_proxies P x rows, e))
  | inr e ↦ rw e (ground (arith, In-select_proxies P x rows, e))
]

-- The list for a region holds exactly the nodes that are usable, whose subscription, if they have one,
-- is there and not paused, that are of the region (of any, if it is empty) and not excluded; and no
-- node stands in it after one that it precedes: a measured latency first, then the lower one, then
-- the smaller address, then the smaller ID.
pub get_by_region_lem :
    (u : Unicode) (db : Database) (region : Text) (excludes : List ℤ)
    → (is_sorted (get_by_region u db region excludes) ≡ true)
      × ((x : Proxy)
          → In x (get_by_region u db region excludes) ↔ (
              In x (map proxy_column db.proxies)
              × (in_region db (normalize_region u region) x ≡ true)
              × (is_excluded excludes x.id ≡ false)))
unfolding get_by_region
get_by_region_lem u db region excludes =
    let found = select_proxies (λ r. in_region db (normalize_region u region) r.proxy) db.proxies in
    (
      drop_excluded-is_sorted excludes (sort_proxies found) (sort_proxies-is_sorted found),
      λ x. ground (
        arith,
        In-drop_excluded excludes x (sort_proxies found),
        In-sort_proxies x found,
        In-select_proxies (in_region db (normalize_region u region)) x db.proxies,
      ),
    )
