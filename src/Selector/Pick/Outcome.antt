-- ===== src/Selector/Pick/Outcome.antt =====
-- What `pickForSession` of selector/selector.go returns, and that it only asks the session store.
use geo_proxy.Common.{
  ◌≡◌, refl, Bool, true, false, not, List, [], ◌∷◌, Option, none, some, inl, inr, if◌then◌else◌,
  arith, subst,
}
use geo_proxy.Common.Int.{ℤ, pos, ltb_ℤ}
use geo_proxy.Common.Key.{Text}
use geo_proxy.Storage.{Proxy}
use geo_proxy.Affinity.{Store, in_cooldown, count_by_proxy}
use geo_proxy.Affinity.Consistency.{IsConsistent}
use geo_proxy.Affinity.Occupancy.{occupancy, count_by_proxy-Counts}
use geo_proxy.Affinity.View.{occupancy-Quiet}
use geo_proxy.Affinity.View.Cooling.{
  Calm, Calm-refl, Calm-trans, cooling, in_cooldown-cooling, in_cooldown-Calm, count_by_proxy-Calm,
}
use geo_proxy.Selector.{
  Note, capacity, cooldown, Result, ok, err, NodeStore, Runtime, proxy_available, normalize_region,
  proxy_matches_unlock,
}
use geo_proxy.Selector.Score.{Float64}
use geo_proxy.Common.{In}
use geo_proxy.Selector.Members.{In-filter_by_unlock, pick_session_candidate-In}
use geo_proxy.Selector.Pick.{
  filter_by_occupancy, filter_by_cooldown, stage, choose, cooldown_stage, pick_stages, pick_from,
  pick_for_session,
}

-- A filter only asks the store, and what it keeps was in the list and passed the test.
pub record Filtered (s : Store) (test : Proxy → Bool) (ps : List Proxy) (r : List Proxy × Store)
    : Type 0 where
  pub calm : Calm s r.1
  pub kept : (x : Proxy) → In x r.0 → In x ps × (test x ≡ true)

-- The list grows by a node that passes, or stays.
grow :
    (s : Store) (test : Proxy → Bool) (p : Proxy) (ps : List Proxy) (b : Bool)
    (r : List Proxy × Store)
    → b ≡ test p
    → Filtered s test ps r
    → Filtered s test (p ∷ ps) (if b then p ∷ r.0 else r.0, r.1)
grow s test p ps true r e k = record {
  calm = k.calm;
  kept = λ x. elim [
    | inl same ↦ (inl same, rw (same, ← e) refl)
    | inr m ↦ (inr (k.kept x m).0, (k.kept x m).1)
  ];
}
grow s test p ps false r e k = record {
  calm = k.calm;
  kept = λ x m. (inr (k.kept x m).0, (k.kept x m).1);
}

-- What holds of a filter after a question holds of it before.
before :
    (s t : Store) (test : Proxy → Bool) (ps : List Proxy) (r : List Proxy × Store)
    → Calm s t
    → Filtered t test ps r
    → Filtered s test ps r
before s t test ps r c k = record { calm = Calm-trans s t r.1 c k.calm; kept = k.kept }

abbrev pub has_room : ℤ → Store → Proxy → Bool
has_room max s p = ltb_ℤ (pos (occupancy s p.id)) max

abbrev pub is_rested : Store → Proxy → Bool
is_rested s p = not (cooling s p.id)

filter_by_occupancy-Filtered :
    (max : ℤ) (s₀ s : Store) (ps : List Proxy)
    → IsConsistent s₀
    → Calm s₀ s
    → Filtered s (has_room max s₀) ps (filter_by_occupancy ps max s)
unfolding filter_by_occupancy
filter_by_occupancy-Filtered max s₀ s [] c k = record {
  calm = Calm-refl s k.quiet.follows.consistent;
  kept = λ x m. absurd m;
}
filter_by_occupancy-Filtered max s₀ s (p ∷ ps) c k =
    let here = k.quiet.follows.consistent in
    let asked = count_by_proxy-Calm p.id s here in
    let t = (count_by_proxy p.id s).1 in
    grow s (has_room max s₀) p ps _ (filter_by_occupancy ps max t)
      (ground (arith, (count_by_proxy-Counts p.id s here).0, occupancy-Quiet s₀ s p.id c k.quiet))
      (before s t _ ps _ asked
        (filter_by_occupancy-Filtered max s₀ t ps c (Calm-trans s₀ s t k asked)))

filter_by_cooldown-Filtered :
    (s₀ s : Store) (ps : List Proxy)
    → IsConsistent s₀
    → Calm s₀ s
    → Filtered s (is_rested s₀) ps (filter_by_cooldown ps s)
unfolding filter_by_cooldown
filter_by_cooldown-Filtered s₀ s [] c k = record {
  calm = Calm-refl s k.quiet.follows.consistent;
  kept = λ x m. absurd m;
}
filter_by_cooldown-Filtered s₀ s (p ∷ ps) c k =
    let here = k.quiet.follows.consistent in
    let asked = in_cooldown-Calm p.id s here in
    let t = (in_cooldown p.id s).1 in
    grow s (is_rested s₀) p ps _ (filter_by_cooldown ps t)
      (ground (arith, in_cooldown-cooling p.id s, k.cool p.id))
      (before s t _ ps _ asked (filter_by_cooldown-Filtered s₀ t ps c (Calm-trans s₀ s t k asked)))

-- The same of a stage, which may be off.
pub record Staged (s : Store) (limited : Bool) (test : Proxy → Bool) (ps : List Proxy)
    (r : List Proxy × Option Store) : Type 0 where
  pub after : Store
  pub left : r.1 ≡ some after
  pub calm : Calm s after
  pub kept : (x : Proxy) → In x r.0 → In x ps × (limited ≡ true → test x ≡ true)

stage-Staged :
    (s : Store) (limited : Bool) (test : Proxy → Bool) (filter : Store → List Proxy × Store)
    (ps : List Proxy)
    → IsConsistent s
    → Filtered s test ps (filter s)
    → Staged s limited test ps (stage limited filter ps (some s))
unfolding stage
stage-Staged s false test filter ps c k = record {
  after = s;
  left = refl;
  calm = Calm-refl s c;
  kept = λ x m. (m, λ e. cc);
}
stage-Staged s true test filter ps c k = record {
  after = (filter s).1;
  left = refl;
  calm = k.calm;
  kept = λ x m. ((k.kept x m).0, λ e. (k.kept x m).1);
}

-- A result with the store that is left: a good node, or an error.
abbrev pub Outcome : (Proxy → Type 0) → Store → Result Proxy × Option Store → Type 0
Outcome Good s (ok p, some t) = Good p × Calm s t
Outcome Good s (err e, some t) = Calm s t
Outcome Good s (_, none) = ⊥

-- What is known of a node that `pickForSession` returns.
pub record Chosen (rt : Runtime) (proxies : List Proxy) (unlock : List Text) (max minutes : ℤ)
    (s : Store) (p : Proxy) : Type 0 where
  pub listed : In p proxies
  pub available : proxy_available p ≡ true
  pub unlocked : proxy_matches_unlock rt p unlock ≡ true
  pub roomy : ltb_ℤ (pos 0) max ≡ true → ltb_ℤ (pos (occupancy s p.id)) max ≡ true
  pub rested : ltb_ℤ (pos 0) minutes ≡ true → cooling s p.id ≡ false

module _ (rt : Runtime) (f : Float64) (store : NodeStore) where
  choose-Outcome :
      (Good : Proxy → Type 0) (region session : Text) (note : Note) (s t : Store) (ps : List Proxy)
      → Calm s t
      → ((x : Proxy) → In x ps → Good x)
      → Outcome Good s (choose rt f store region session note (ps, some t))
  unfolding choose
  choose-Outcome Good region session note s t [] c g = c
  choose-Outcome Good region session note s t (p ∷ ps) c g =
      (g _ (pick_session_candidate-In f p ps session (some t)), c)

  cooldown_stage-Outcome :
      (Good : Proxy → Type 0) (region session : Text) (limited : Bool) (note : Note) (s t : Store)
      (ps : List Proxy)
      → IsConsistent s
      → Calm s t
      → ((x : Proxy) → In x ps → (limited ≡ true → is_rested s x ≡ true) → Good x)
      → Outcome Good s (cooldown_stage rt f store region session limited note (ps, some t))
  unfolding cooldown_stage
  cooldown_stage-Outcome Good region session limited note s t [] c k g = k
  cooldown_stage-Outcome Good region session limited note s t (p ∷ ps) c k g = go _ staged
    where
      staged :
          Staged t limited
            (is_rested s)
            (p ∷ ps)
            (stage limited (filter_by_cooldown (p ∷ ps)) (p ∷ ps) (some t))
      staged =
          stage-Staged t limited (is_rested s) (filter_by_cooldown (p ∷ ps)) (p ∷ ps)
            k.quiet.follows.consistent (filter_by_cooldown-Filtered s t (p ∷ ps) c k)

      go :
          (r : List Proxy × Option Store)
          → Staged t limited (is_rested s) (p ∷ ps) r
          → Outcome Good s (choose rt f store region session cooldown r)
      go (kept, none) d = absurd (cc (d.left))
      go (kept, some u) d =
          choose-Outcome Good region session cooldown s u kept
            (subst (Calm s) (ground (arith, d.left)) (Calm-trans s t d.after k d.calm))
            (λ x m. g x (d.kept x m).0 (d.kept x m).1)

  pick_stages-Outcome :
      (Good : Proxy → Type 0) (region session : Text) (max minutes : ℤ) (s : Store)
      (ps : List Proxy)
      → IsConsistent s
      → ((x : Proxy)
          → In x ps
          → (ltb_ℤ (pos 0) max ≡ true → has_room max s x ≡ true)
          → (ltb_ℤ (pos 0) minutes ≡ true → is_rested s x ≡ true)
          → Good x)
      → Outcome Good s (pick_stages rt f store region session max minutes ps (some s))
  unfolding pick_stages
  pick_stages-Outcome Good region session max minutes s [] c g = Calm-refl s c
  pick_stages-Outcome Good region session max minutes s (p ∷ ps) c g = go _ staged
    where
      staged :
          Staged s
            (ltb_ℤ (pos 0) max)
            (has_room max s)
            (p ∷ ps)
            (stage (ltb_ℤ (pos 0) max) (filter_by_occupancy (p ∷ ps) max) (p ∷ ps) (some s))
      staged =
          stage-Staged s _ (has_room max s) (filter_by_occupancy (p ∷ ps) max) (p ∷ ps) c
            (filter_by_occupancy-Filtered max s s (p ∷ ps) c (Calm-refl s c))

      go :
          (r : List Proxy × Option Store)
          → Staged s (ltb_ℤ (pos 0) max) (has_room max s) (p ∷ ps) r
          → Outcome Good s
              (cooldown_stage rt f store region session (ltb_ℤ (pos 0) minutes) capacity r)
      go (kept, none) d = absurd (cc (d.left))
      go (kept, some u) d =
          cooldown_stage-Outcome Good region session (ltb_ℤ (pos 0) minutes) capacity s u kept c
            (subst (Calm s) (ground (arith, d.left)) d.calm)
            (λ x m r. g x (d.kept x m).0 (d.kept x m).1 r)

  -- What is known of a node that is chosen for a region.
  abbrev pub PickedFor : Text → List ℤ → List Text → ℤ → ℤ → Store → Proxy → Type 0
  PickedFor region excludes unlock max minutes s p =
      (ps : List Proxy) × (store.get_by_region (normalize_region rt region) excludes ≡ some ps)
      × Chosen rt ps unlock max minutes s p

  pick_from-Outcome :
      (region session : Text) (max minutes : ℤ) (unlock : List Text) (s : Store)
      (proxies listed : Option (List Proxy))
      → IsConsistent s
      → proxies ≡ listed
      → Outcome
          (λ p. (ps : List Proxy) × (proxies ≡ some ps) × Chosen rt ps unlock max minutes s p)
          s
          (pick_from rt f store region session max minutes unlock listed (some s))
  unfolding pick_from
  pick_from-Outcome region session max minutes unlock s proxies none c e = Calm-refl s c
  pick_from-Outcome region session max minutes unlock s proxies (some ps) c e =
      pick_stages-Outcome _ region session max minutes s _ c λ x m roomy rested.
        let (inside, available, unlocked) = In-filter_by_unlock rt unlock x ps m in
        (
          ps,
          e,
          record {
            listed = inside;
            available = available;
            unlocked = unlocked;
            roomy = roomy;
            rested = λ on. ground (arith, rested on);
          },
        )

  -- For a consistent store: an error, or a node of the list that the node store returns, available
  -- and unlocked, with room and no cooldown where these are limited. Neither binds nor unbinds.
  pub pick_for_session-Outcome :
      (region session : Text) (excludes : List ℤ) (max minutes : ℤ) (unlock : List Text) (s : Store)
      → IsConsistent s
      → Outcome
          (PickedFor region excludes unlock max minutes s)
          s
          (pick_for_session rt f store region session excludes max minutes unlock (some s))
  unfolding pick_for_session
  pick_for_session-Outcome region session excludes max minutes unlock s c =
      pick_from-Outcome (normalize_region rt region) session max minutes unlock s _ _ c refl
