-- ===== src/Selector/Database.antt =====
-- The queries of storage/regions.go as the node store of selector/selector.go.
use geo_proxy.Common.{
  ℕ, ◌≡◌, refl, sym, subst, Bool, true, false, ◌&&◌, ◌||◌, not, List, [], ◌∷◌, Option, none, some,
  if◌then◌else◌, ltb, all_of, In, distinct, map, arith, Bool-cases, inl, inr,
}
use geo_proxy.Common.Int.{ℤ, pos, eq_ℤ, eq_ℤ_iff, ltb_ℤ, leb_ℤ}
use geo_proxy.Common.Key.{Text, text_eq, text_eq_iff}
use geo_proxy.GoText.{Unicode, is_ascii}
use geo_proxy.GoText.Trim.{normalize_ascii}
use geo_proxy.Storage.{Proxy}
use geo_proxy.Storage.Table.{
  Row, Subscription, Database, Reply, done, failed, source_manual, source_subscription, count_rows,
  first_where, not_paused, parent_is, selectable_scope,
}
use geo_proxy.Storage.Table.Keeping.{all_of-imp, all_of-map, count_rows-none}
use geo_proxy.Storage.Regions.{normalize_region}
use geo_proxy.Storage.Lookup.{
  get_by_region, get_proxy_by_id, get_proxy_by_address, get_proxy_by_node_key,
  is_subscription_paused, is_excluded, in_region, proxy_of, paused_of,
}
use geo_proxy.Storage.Lookup.Listing.{proxy_column, get_by_region_lem}
use geo_proxy.Storage.Sound.{IsSound, Identity, identity_of, owner_fits, subscription_key}
use geo_proxy.Selector
use geo_proxy.Selector.{NodeStore, Limits, Runtime, excluded, region_mismatch, is_empty}
use geo_proxy.Selector.Score.{Float64}
use geo_proxy.Auth.{ParsedUsername}
use geo_proxy.Affinity.{Store}
use geo_proxy.Affinity.Consistency.{IsConsistent}
use geo_proxy.Selector.Resolve.{parent_runs, resolve}
use geo_proxy.Selector.Resolve.Correct.{resolve-Resolved}
use geo_proxy.Selector.Resolve.Results.{Resolved}
use geo_proxy.Selector.Resolve.Serves.{Lawful}

-- A Go result whose error the selector does not read.
abbrev replied : {A : Type 0} → Reply A → Option A
replied (done a) = some a
replied (failed e) = none

-- The methods of `*storage.Storage` behind the interface `Store`.
abbrev pub node_store : Unicode → Database → NodeStore
node_store u db = record {
  get_by_region = λ region excludes. some (get_by_region u db region excludes);
  get_proxy_by_id = λ id. replied (get_proxy_by_id db id);
  get_proxy_by_address = λ address. replied (get_proxy_by_address db address);
  get_proxy_by_node_key = λ key. replied (get_proxy_by_node_key u db key);
  is_subscription_paused = λ id. replied (is_subscription_paused db id);
}

-- The sources that the program writes.
abbrev pub known_source : Identity → Bool
known_source i = text_eq i.source source_manual || text_eq i.source source_subscription

-- `strings.ToLower` of `strings.TrimSpace` changes nothing the second time, for texts that are not
-- ASCII: for the others it is proved.
abbrev pub NormalizesOnce : Unicode → Type 0
NormalizesOnce u =
    (s : Text)
    → is_ascii s ≡ false
    → normalize_region u (normalize_region u s) ≡ normalize_region u s

normalizes_once :
    (u : Unicode) (s : Text)
    → NormalizesOnce u
    → normalize_region u (normalize_region u s) ≡ normalize_region u s
normalizes_once u s once = elim (Bool-cases (is_ascii s)) [
  | inl plain ↦ unfold normalize_region in normalize_ascii u s plain
  | inr wide ↦ once s wide
]

excluded_lem : (excludes : List ℤ) (id : ℤ) → excluded id excludes ≡ is_excluded excludes id
unfolding excluded is_excluded
excluded_lem [] id = refl
excluded_lem (x ∷ excludes) id = ground (arith, excluded_lem excludes id)

-- Of subscriptions with distinct IDs, one that is there is the first with its ID.
first_runs :
    (id : ℤ) (subscriptions : List Subscription)
    → distinct eq_ℤ (map subscription_key subscriptions) ≡ true
    → ltb 0 (count_rows (λ s. eq_ℤ s.id id && not_paused s.status) subscriptions) ≡ true
    → paused_of (first_where (λ s. eq_ℤ s.id id) subscriptions) ≡ done false
unfolding count_rows first_where paused_of
first_runs id [] apart there = ground (arith, there)
first_runs id (s ∷ subscriptions) apart there = elim (Bool-cases (eq_ℤ s.id id)) [
  | inl this ↦
      let running = λ (t : Subscription). eq_ℤ t.id id && not_paused t.status in
      let others =
        all_of-imp (λ t. not (eq_ℤ t.id s.id)) (λ t. not (running t)) subscriptions
          (λ t e. ground (arith, eq_ℤ_iff t.id s.id, eq_ℤ_iff s.id id, eq_ℤ_iff t.id id))
          (subst (λ b. b ≡ true)
            (all_of-map subscription_key (λ z. not (eq_ℤ z s.id)) subscriptions) (ground arith)) in
      rw this (ground (arith, this, there, count_rows-none running subscriptions others))
  | inr other ↦ rw other (first_runs id subscriptions (ground arith) (ground (arith, other, there)))
]

abbrev owner_of : Proxy → Identity
owner_of p = record { address = p.address; source = p.source; subscription_id = p.subscription_id }

all_of-owner :
    (P : Identity → Bool) (rows : List Row) (x : Proxy)
    → all_of P (map identity_of rows) ≡ true
    → In x (map proxy_column rows)
    → P (owner_of x) ≡ true
all_of-owner P [] x h m = absurd m
all_of-owner P (r ∷ rows) x h (inl e) = subst (λ q. P (owner_of q) ≡ true) (sym e) (ground arith)
all_of-owner P (r ∷ rows) x h (inr m) = all_of-owner P rows x (ground arith) m

found_id :
    (id : ℤ) (rows : List Row) (x : Proxy)
    → replied (proxy_of (first_where (λ r. eq_ℤ r.proxy.id id) rows)) ≡ some x
    → x.id ≡ id
unfolding first_where proxy_of
found_id id [] x e = ground (arith, e)
found_id id (r ∷ rows) x e = elim (Bool-cases (eq_ℤ r.proxy.id id)) [
  | inl this ↦
      let same : r.proxy ≡ x = ground (arith, this, e) in
      subst (λ q. q.id ≡ id) same (ground (arith, eq_ℤ_iff r.proxy.id id))
  | inr other ↦ found_id id rows x (ground (arith, other, e))
]

-- A node of the region that was asked for, normalized.
same_region :
    (rt : Runtime) (db : Database) (x : Proxy) (asked : Text)
    → in_region db asked x ≡ true
    → region_mismatch rt x.region asked ≡ false
unfolding region_mismatch is_empty in_region
same_region rt db x [] e = refl
same_region rt db x (b ∷ asked) e =
    let same : x.region ≡ b ∷ asked = ground (arith, e, text_eq_iff x.region (b ∷ asked)) in
    rw same (
      ground (
        arith,
        text_eq_iff (Selector.normalize_region rt (b ∷ asked))
            (Selector.normalize_region rt (b ∷ asked)),
      ))

module _ (rt : Runtime) (f : Float64) (cfg : Option Limits) (db : Database) (s : IsSound db) where
  abbrev store : NodeStore
  store = node_store rt.unicode db

  listed_parent :
      (p : Proxy)
      → (if text_eq p.source source_manual
          then eq_ℤ p.subscription_id (pos 0)
          else not (text_eq p.source source_subscription) || ltb_ℤ (pos 0) p.subscription_id)
        ≡ true
      → (text_eq p.source source_manual || text_eq p.source source_subscription) ≡ true
      → selectable_scope db p ≡ true
      → parent_runs rt f store cfg p ≡ true
  unfolding parent_runs selectable_scope is_subscription_paused parent_is
  listed_parent p owner known scope = elim (Bool-cases (ltb_ℤ (pos 0) p.subscription_id)) [
    | inr none_named ↦ rw none_named refl
    | inl named ↦
        let runs =
          first_runs p.subscription_id db.subscriptions s.subscriptions_distinct
            (ground (arith, named, owner, known, scope, eq_ℤ_iff p.subscription_id (pos 0))) in
        let positive : leb_ℤ p.subscription_id (pos 0) ≡ false = ground (arith, named) in
        rw (named, positive, runs) refl
  ]

  scope_of : (asked : Text) (x : Proxy) → in_region db asked x ≡ true → selectable_scope db x ≡ true
  unfolding in_region
  scope_of [] x e = ground (arith, e)
  scope_of (b ∷ asked) x e = ground (arith, e)

  -- The tables keep what the selector relies on, if they keep their invariant and hold no node of a
  -- source other than "manual" and "subscription".
  pub node_store-Lawful :
      all_of known_source (map identity_of db.proxies) ≡ true
      → NormalizesOnce rt.unicode
      → Lawful rt f store cfg
  unfolding get_proxy_by_id
  node_store-Lawful known once = record {
    listed =
        λ region excludes ps x e m. listed_node region excludes x (subst (In x) (sym (inside e)) m);
    by_id = λ n x e. found_id n db.proxies x e;
  }
    where
      inside : {ps qs : List Proxy} → some ps ≡ some qs → ps ≡ qs
      inside e = ground (arith, e)

      listed_node :
          (region : Text) (excludes : List ℤ) (x : Proxy)
          → In x (get_by_region rt.unicode db (Selector.normalize_region rt region) excludes)
          → (excluded x.id excludes ≡ false)
            × (region_mismatch rt x.region (Selector.normalize_region rt region) ≡ false)
            × (parent_runs rt f store cfg x ≡ true)
      listed_node region excludes x m =
          let asked = Selector.normalize_region rt region in
          let member = ((get_by_region_lem rt.unicode db asked excludes).1 x).0 m in
          let again : normalize_region rt.unicode asked ≡ asked =
            unfold normalize_region Selector.normalize_region in
            normalizes_once rt.unicode region once in
          let here = subst (λ r. in_region db r x ≡ true) again member.1 in
          (
            rw (excluded_lem excludes x.id) member.2,
            same_region rt db x asked here,
            listed_parent x (all_of-owner owner_fits db.proxies x s.owners_fit member.0)
                (all_of-owner known_source db.proxies x known member.0) (scope_of asked x here),
          )

  -- `Resolve` with the database as its node store: what `resolve` guarantees for any lawful node store
  -- holds for the tables, if they keep their invariant and hold no node of a source other than
  -- "manual" and "subscription", and normalizing a text that is not ASCII twice is
  -- normalizing it once.
  pub resolve-Database :
      (rand : ℕ → ℕ) (route : ParsedUsername) (excludes : List ℤ) (sessions : Store)
      → all_of known_source (map identity_of db.proxies) ≡ true
      → NormalizesOnce rt.unicode
      → Selector.normalize_region rt route.region ≡ route.region
      → Selector.is_empty route.session ≡ false
      → IsConsistent sessions
      → Resolved rt f store cfg route excludes sessions
          (resolve rt f store cfg rand route excludes (some sessions))
  resolve-Database rand route excludes sessions known once plain named c =
      resolve-Resolved rt f store cfg route excludes rand sessions (node_store-Lawful known once)
        plain named c
