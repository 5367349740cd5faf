-- ===== src/Selector/Pick.antt =====
-- `PickUnlock` and `pickForSession` of selector/selector.go. The session store is passed along;
-- `none` is the nil store. Each call of it runs at the instant `now` of its clock.
pub mod Outcome
use geo_proxy.Common.{
  ℕ, zero, suc, Bool, true, false, not, List, [], ◌∷◌, ◌++◌, Option, none, some, if◌then◌else◌,
  length,
}
use geo_proxy.Common.Int.{ℤ, pos, ltb_ℤ, eq_ℤ}
use geo_proxy.Common.Key.{Text}
use geo_proxy.Storage.{Proxy}
use geo_proxy.Affinity.{Store, in_cooldown, count_by_proxy}
use geo_proxy.Selector.{
  Note, unavailable, capacity, cooldown, store_failed, no_node, Result, ok, err, NodeStore, Runtime,
  available_proxies, latency_rank, normalize_region, filter_by_unlock,
}
use geo_proxy.Selector.Score.{Float64, pick_session_candidate}

-- The candidates of the lowest rank, in their order, and the rank.
unfoldable pub lowest : ℤ → List Proxy → List Proxy → List Proxy
lowest best candidates [] = candidates
lowest best candidates (p ∷ proxies) =
    let rank = latency_rank p.latency in
    let lower = lowest rank (p ∷ []) proxies in
    let equal = lowest best (candidates ++ p ∷ []) proxies in
    let higher = lowest best candidates proxies in
    if ltb_ℤ rank best then lower else if eq_ℤ rank best then equal else higher

-- `candidates[i]`; the index is below the length.
unfoldable pub at_index : Proxy → List Proxy → ℕ → Proxy
at_index first [] i = first
at_index first (p ∷ ps) zero = p
at_index first (p ∷ ps) (suc i) = at_index first ps i

-- `rand` is `rand.Intn`.
unfoldable pub pick_lowest_latency : (ℕ → ℕ) → Proxy → List Proxy → Proxy
pick_lowest_latency rand first rest =
    let candidates = lowest (latency_rank first.latency) (first ∷ []) rest in
    at_index first candidates (rand (length candidates))

-- The loops of the two filters ask the session store about each node in turn.
unfoldable pub filter_by_occupancy : List Proxy → ℤ → Store → List Proxy × Store
filter_by_occupancy [] max s = ([], s)
filter_by_occupancy (p ∷ ps) max s =
    let (n, s1) = count_by_proxy p.id s in
    let (rest, s2) = filter_by_occupancy ps max s1 in
    (if ltb_ℤ (pos n) max then p ∷ rest else rest, s2)

unfoldable pub filter_by_cooldown : List Proxy → Store → List Proxy × Store
filter_by_cooldown [] s = ([], s)
filter_by_cooldown (p ∷ ps) s =
    let (cooling, s1) = in_cooldown p.id s in
    let (rest, s2) = filter_by_cooldown ps s1 in (if not cooling then p ∷ rest else rest, s2)

-- A stage that filters by the session store, unless it is nil or the limit is off.
unfoldable pub stage :
    Bool → (Store → List Proxy × Store) → List Proxy → Option Store → List Proxy × Option Store
stage false filter ps s = (ps, s)
stage true filter ps none = (ps, none)
stage true filter ps (some s) = let (kept, t) = filter s in (kept, some t)

module _ (rt : Runtime) (f : Float64) (store : NodeStore) where
  unfoldable pub pick_found : (ℕ → ℕ) → Text → List Proxy → Result Proxy
  pick_found rand region [] = err (no_node region unavailable)
  pick_found rand region (p ∷ ps) = ok (pick_lowest_latency rand p ps)

  unfoldable pub pick_listed : (ℕ → ℕ) → Text → List Text → Option (List Proxy) → Result Proxy
  pick_listed rand region unlock none = err store_failed
  pick_listed rand region unlock (some proxies) =
      pick_found rand region (filter_by_unlock rt (available_proxies proxies) unlock)

  unfoldable pub pick_unlock : (ℕ → ℕ) → Text → List ℤ → List Text → Result Proxy
  pick_unlock rand region excludes unlock =
      let normalized = normalize_region rt region in
      pick_listed rand normalized unlock (store.get_by_region normalized excludes)

  pub pick : (ℕ → ℕ) → Text → List ℤ → Result Proxy
  pick rand region excludes = pick_unlock rand region excludes []

  -- The choice after the last stage, which says why its list is empty.
  unfoldable pub choose :
      Text → Text → Note → List Proxy × Option Store → Result Proxy × Option Store
  choose region session note ([], s) = (err (no_node region note), s)
  choose region session note (p ∷ ps, s) = (ok (pick_session_candidate f p ps session s), s)

  unfoldable pub cooldown_stage :
      Text → Text → Bool → Note → List Proxy × Option Store → Result Proxy × Option Store
  cooldown_stage region session limited note ([], s) = (err (no_node region note), s)
  cooldown_stage region session limited note (p ∷ ps, s) =
      choose region session cooldown (stage limited (filter_by_cooldown (p ∷ ps)) (p ∷ ps) s)

  unfoldable pub pick_stages :
      Text → Text → ℤ → ℤ → List Proxy → Option Store → Result Proxy × Option Store
  pick_stages region session max minutes [] s = (err (no_node region unavailable), s)
  pick_stages region session max minutes (p ∷ ps) s =
      cooldown_stage region session (ltb_ℤ (pos 0) minutes) capacity
        (stage (ltb_ℤ (pos 0) max) (filter_by_occupancy (p ∷ ps) max) (p ∷ ps) s)

  unfoldable pub pick_from :
      Text
      → Text
      → ℤ
      → ℤ
      → List Text
      → Option (List Proxy)
      → Option Store
      → Result Proxy × Option Store
  pick_from region session max minutes unlock none s = (err store_failed, s)
  pick_from region session max minutes unlock (some proxies) s =
      pick_stages region session max minutes
        (filter_by_unlock rt (available_proxies proxies) unlock) s

  unfoldable pub pick_for_session :
      Text → Text → List ℤ → ℤ → ℤ → List Text → Option Store → Result Proxy × Option Store
  pick_for_session region session excludes max minutes unlock s =
      let normalized = normalize_region rt region in
      pick_from normalized session max minutes unlock (store.get_by_region normalized excludes) s
