-- ===== src/Storage/Queries/Random.antt =====
-- The choices of storage/proxy_queries.go and storage/regions.go that are drawn from a list. `draw` is
-- rand.Intn, and `clock` the reading of time.Now().UnixNano(), an int64 that is negative before 1970.
use native.Mathlib.Nat.{mod-lt}
use geo_proxy.Common.{
  ℕ, zero, suc, ◌%◌, ◌≡◌, refl, Bool, true, false, inl, inr, ◌↔◌, not, List, [], ◌∷◌, In, Option,
  none, some, length, select, ltb, arith, Bool-cases,
}
use geo_proxy.Common.Int.{ℤ, pos, negsuc, sub_ℕ, ltb_ℤ}
use geo_proxy.Common.Key.{Text}
use geo_proxy.GoText.{Unicode}
use geo_proxy.Storage.{Proxy}
use geo_proxy.Storage.Table.{Database, Reply, done, failed, not_found}
use geo_proxy.Storage.Lookup.{select_proxies, get_by_region}
use geo_proxy.Storage.Lookup.Listing.{In-select_proxies}
use geo_proxy.Storage.Queries.{
  order_by, lower_latency, in_service, get_all_filtered, is_excluded_address, serves,
}
use geo_proxy.Storage.Queries.Lowest.{Wanted, In-order_by}

-- The panic of an index out of range is `none`.
unfoldable pub at_index : ℕ → List Proxy → Option (Reply Proxy)
at_index n [] = none
at_index zero (p ∷ ps) = some (done p)
at_index (suc n) (p ∷ ps) = at_index n ps

unfoldable pub at_position : ℤ → List Proxy → Option (Reply Proxy)
unfolding at_index
at_position (pos n) ps = at_index n ps
at_position (negsuc n) ps = none

-- Go's remainder, of the sign of the dividend. The length is not zero.
unfoldable pub remainder : ℤ → ℕ → ℤ
remainder (pos a) n = pos (a % n)
remainder (negsuc a) n = sub_ℕ 0 (suc a % n)

unfoldable pub choose : (ℕ → ℤ) → List Proxy → Option (Reply Proxy)
unfolding at_position
choose draw [] = some (failed not_found)
choose draw (p ∷ ps) = at_position (draw (suc (length ps))) (p ∷ ps)

unfoldable pub get_random_exclude_filtered :
    (ℕ → ℕ) → Database → List Text → Text → Option (Reply Proxy)
unfolding choose get_all_filtered is_excluded_address
get_random_exclude_filtered draw db excludes source_filter =
    choose (λ n. pos (draw n))
      (select (λ p. not (is_excluded_address excludes p.address))
        (get_all_filtered db source_filter))

pub get_random_exclude : (ℕ → ℕ) → Database → List Text → Option (Reply Proxy)
unfolding get_random_exclude_filtered
get_random_exclude draw db excludes = get_random_exclude_filtered draw db excludes []

unfoldable pub get_random_by_protocol_exclude_filtered :
    Unicode → ℤ → Database → Text → List Text → Text → Option (Reply Proxy)
unfolding choose remainder get_all_filtered
get_random_by_protocol_exclude_filtered u clock db protocol excludes source_filter =
    choose (remainder clock)
      (select (serves u protocol excludes) (get_all_filtered db source_filter))

pub get_random_by_protocol_exclude :
    Unicode → ℤ → Database → Text → List Text → Option (Reply Proxy)
unfolding get_random_by_protocol_exclude_filtered
get_random_by_protocol_exclude u clock db protocol excludes =
    get_random_by_protocol_exclude_filtered u clock db protocol excludes []

pub get_random_by_region : Unicode → (ℕ → ℕ) → Database → Text → List ℤ → Option (Reply Proxy)
unfolding choose get_by_region
get_random_by_region u draw db region excludes =
    choose (λ n. pos (draw n)) (get_by_region u db region excludes)

-- No panic; the reply is one of the wanted nodes, or there is none.
abbrev pub Drawn : (Proxy → Type 0) → Option (Reply Proxy) → Type 0
Drawn Wanted none = ⊥
Drawn Wanted (some (done p)) = Wanted p
Drawn Wanted (some (failed e)) = (x : Proxy) → ¬ Wanted x

Drawn-imp :
    (A B : Proxy → Type 0) (r : Option (Reply Proxy))
    → ((x : Proxy) → A x ↔ B x)
    → Drawn A r
    → Drawn B r
Drawn-imp A B none same d = d
Drawn-imp A B (some (done p)) same d = (same p).0 d
Drawn-imp A B (some (failed e)) same d = λ x b. d x ((same x).1 b)

-- An index below the length is that of an element.
at_index-Drawn :
    (W : Proxy → Type 0) (n : ℕ) (ps : List Proxy)
    → ltb n (length ps) ≡ true
    → ((x : Proxy) → In x ps → W x)
    → Drawn W (at_index n ps)
unfolding at_index
at_index-Drawn W n [] below every = ground (arith, below)
at_index-Drawn W zero (p ∷ ps) below every = every p (inl refl)
at_index-Drawn W (suc n) (p ∷ ps) below every =
    at_index-Drawn W n ps (ground (arith, below)) (λ x i. every x (inr i))

-- A draw that is a position of the list.
abbrev Below : ℤ → ℕ → Type 0
Below (pos n) m = ltb n m ≡ true
Below (negsuc n) m = ⊥

at_position-Drawn :
    (W : Proxy → Type 0) (position : ℤ) (ps : List Proxy)
    → Below position (length ps)
    → ((x : Proxy) → In x ps → W x)
    → Drawn W (at_position position ps)
unfolding at_position
at_position-Drawn W (pos n) ps below every = at_index-Drawn W n ps below every
at_position-Drawn W (negsuc n) ps below every = absurd below

choose-Drawn :
    (draw : ℕ → ℤ) (ps : List Proxy)
    → ((n : ℕ) → Below (draw (suc n)) (suc n))
    → Drawn (λ x. In x ps) (choose draw ps)
unfolding choose
choose-Drawn draw [] bound = λ x i. i
choose-Drawn draw (p ∷ ps) bound =
    at_position-Drawn (λ x. In x (p ∷ ps)) (draw (suc (length ps))) (p ∷ ps) (bound (length ps))
      (λ x i. i)

In-select :
    (test : Proxy → Bool) (x : Proxy) (ps : List Proxy)
    → In x (select test ps) ↔ (In x ps × (test x ≡ true))
In-select test x [] = ground arith
In-select test x (p ∷ ps) = elim (Bool-cases (test p)) [
  | inl e ↦ rw e (ground (arith, In-select test x ps, e))
  | inr e ↦ rw e (ground (arith, In-select test x ps, e))
]

mod_below : (m n : ℕ) → ltb (m % suc n) (suc n) ≡ true
mod_below m n = ground (arith, mod-lt m {m = suc n} (omega arith))

remainder-Below :
    (clock : ℤ) (n : ℕ) → ltb_ℤ clock (pos 0) ≡ false → Below (remainder clock (suc n)) (suc n)
unfolding remainder
remainder-Below (pos a) n later = mod_below a n
remainder-Below (negsuc a) n later = absurd (ground (arith, later))

-- At a reading of the clock that is not negative, the draw for a protocol, an exclusion list and a
-- source filter does not panic: it returns a node of the table that is in service, fits the filter,
-- takes the protocol and is not excluded, and fails only if there is no such node.
pub get_random_by_protocol_exclude_filtered-Drawn :
    (u : Unicode) (clock : ℤ) (db : Database) (protocol : Text) (excludes : List Text)
    (source_filter : Text)
    → ltb_ℤ clock (pos 0) ≡ false
    → Drawn
        (Wanted u db protocol excludes source_filter)
        (get_random_by_protocol_exclude_filtered u clock db protocol excludes source_filter)
unfolding get_random_by_protocol_exclude_filtered get_all_filtered
get_random_by_protocol_exclude_filtered-Drawn u clock db protocol excludes source_filter later =
    let found = select_proxies (λ r. in_service db source_filter r.proxy) db.proxies in
    let test = serves u protocol excludes in
    let left = select test (order_by lower_latency found) in
    Drawn-imp (λ x. In x left) (Wanted u db protocol excludes source_filter)
      (choose (remainder clock) left)
      (λ x. ground (
        arith,
        In-select test x (order_by lower_latency found),
        In-order_by x found,
        In-select_proxies (in_service db source_filter) x db.proxies,
      ))
      (choose-Drawn (remainder clock) left (λ n. remainder-Below clock n later))
