-- ===== src/Storage/Queries/Lowest.antt =====
-- `GetLowestLatencyByProtocolExcludeFiltered` of storage/proxy_queries.go.
use geo_proxy.Common.{
  ◌≡◌, refl, Bool, true, false, ◌⊎◌, inl, inr, ◌↔◌, List, [], ◌∷◌, map, In, arith, Bool-cases,
}
use geo_proxy.Common.Int.{ltb_ℤ}
use geo_proxy.Common.Key.{Text}
use geo_proxy.GoText.{Unicode}
use geo_proxy.Storage.{Proxy}
use geo_proxy.Storage.Table.{Database, Reply, done, failed}
use geo_proxy.Storage.Lookup.{select_proxies}
use geo_proxy.Storage.Lookup.Listing.{proxy_column, In-select_proxies}
use geo_proxy.Storage.Queries.{
  insert_by, order_by, lower_latency, in_service, get_all_filtered, serves, first_left,
  get_lowest_latency_by_protocol_exclude_filtered,
}

-- The reply is one of the wanted nodes, of the least latency; or there is none.
abbrev pub Lowest : (Proxy → Type 0) → Reply Proxy → Type 0
Lowest Wanted (done p) = Wanted p × ((x : Proxy) → Wanted x → ltb_ℤ x.latency p.latency ≡ false)
Lowest Wanted (failed e) = (x : Proxy) → ¬ Wanted x

In-insert_by :
    (x p : Proxy) (ps : List Proxy) → In x (insert_by lower_latency p ps) ↔ ((x ≡ p) ⊎ In x ps)
unfolding insert_by
In-insert_by x p [] = ground arith
In-insert_by x p (q ∷ ps) = elim (Bool-cases (lower_latency q p)) [
  | inl e ↦ rw e (ground (arith, In-insert_by x p ps))
  | inr e ↦ rw e (ground arith)
]

pub In-order_by : (x : Proxy) (ps : List Proxy) → In x (order_by lower_latency ps) ↔ In x ps
unfolding order_by
In-order_by x [] = ground arith
In-order_by x (p ∷ ps) =
    ground (arith, In-order_by x ps, In-insert_by x p (order_by lower_latency ps))

-- No node stands after one of a higher latency.
abbrev Ordered : List Proxy → Type 0
Ordered [] = Unit
Ordered (p ∷ ps) = ((x : Proxy) → In x ps → ltb_ℤ x.latency p.latency ≡ false) × Ordered ps

insert_by-Ordered :
    (p : Proxy) (ps : List Proxy) → Ordered ps → Ordered (insert_by lower_latency p ps)
unfolding insert_by
insert_by-Ordered p [] o = (λ x i. elim i [ ], o)
insert_by-Ordered p (q ∷ ps) o = elim (Bool-cases (lower_latency q p)) [
  | inl e ↦ rw e (
    λ x i. elim ((In-insert_by x p ps).0 i) [
      | inl same ↦ rw same (unfold lower_latency in ground (arith, e))
      | inr old ↦ o.0 x old
    ],
    insert_by-Ordered p ps o.1,
  )
  | inr e ↦ rw e (
    λ x i. elim i [
      | inl same ↦ rw same (unfold lower_latency in e)
      | inr old ↦ let above = o.0 x old in unfold lower_latency in ground (arith, e, above)
    ],
    o,
  )
]

order_by-Ordered : (ps : List Proxy) → Ordered (order_by lower_latency ps)
unfolding order_by
order_by-Ordered [] = tt
order_by-Ordered (p ∷ ps) = insert_by-Ordered p (order_by lower_latency ps) (order_by-Ordered ps)

Lowest-same :
    (A B : Proxy → Type 0) (r : Reply Proxy) → ((x : Proxy) → A x ↔ B x) → Lowest A r → Lowest B r
Lowest-same A B (done p) same l = ((same p).0 l.0, λ x b. l.1 x ((same x).1 b))
Lowest-same A B (failed e) same l = λ x b. l x ((same x).1 b)

first_left-Lowest :
    (test : Proxy → Bool) (ps : List Proxy)
    → Ordered ps
    → Lowest (λ x. In x ps × (test x ≡ true)) (first_left test ps)
unfolding first_left
first_left-Lowest test [] o = λ x w. w.0
first_left-Lowest test (p ∷ ps) o = elim (Bool-cases (test p)) [
  | inl e ↦
      rw e
        ((inl refl, e), λ x w. elim w.0 [ inl same ↦ rw same (ground arith) | inr old ↦ o.0 x old ])
  | inr e ↦ rw e (
      Lowest-same (λ x. In x ps × (test x ≡ true)) (λ x. In x (p ∷ ps) × (test x ≡ true))
        (first_left test ps) (λ x. ground (arith, e)) (first_left-Lowest test ps o.1))
]

-- A node in service, of the source if one is named, that takes the protocol and is not excluded.
abbrev pub Wanted : Unicode → Database → Text → List Text → Text → Proxy → Type 0
Wanted u db protocol excludes source_filter x =
    In x (map proxy_column db.proxies)
    × (in_service db source_filter x ≡ true)
    × (serves u protocol excludes x ≡ true)

-- The choice for a protocol, an exclusion list and a source filter returns a node of the table that
-- is in service, fits the filter, takes the protocol and is not excluded, and no such node has a
-- lower latency; it fails only if there is no such node.
pub get_lowest_latency_by_protocol_exclude_filtered-Lowest :
    (u : Unicode) (db : Database) (protocol : Text) (excludes : List Text) (source_filter : Text)
    → Lowest
        (Wanted u db protocol excludes source_filter)
        (get_lowest_latency_by_protocol_exclude_filtered u db protocol excludes source_filter)
unfolding get_lowest_latency_by_protocol_exclude_filtered get_all_filtered
get_lowest_latency_by_protocol_exclude_filtered-Lowest u db protocol excludes source_filter =
    let found = select_proxies (λ r. in_service db source_filter r.proxy) db.proxies in
    let test = serves u protocol excludes in
    Lowest-same (λ x. In x (order_by lower_latency found) × (test x ≡ true))
      (Wanted u db protocol excludes source_filter) (first_left test (order_by lower_latency found))
      (λ x.
        ground (
          arith,
          In-order_by x found,
          In-select_proxies (in_service db source_filter) x db.proxies,
        ))
      (first_left-Lowest test (order_by lower_latency found) (order_by-Ordered found))
