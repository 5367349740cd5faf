-- ===== src/Selector/Score.antt =====
-- The weighted rendezvous choice of selector/selector.go. Floats are a parameter.
pub mod Choice
pub mod Keys
use geo_proxy.Common.{
  ℕ, suc, ◌+◌, ◌*◌, ◌/◌, ◌^◌, ◌≡◌, Bool, true, false, ◌&&◌, List, [], ◌∷◌, if◌then◌else◌, Option,
  none, some,
}
use geo_proxy.Common.Int.{ℤ, pos, pos_part, ltb_ℤ, leb_ℤ, eq_ℤ}
use geo_proxy.Common.Key.{Text}
use geo_proxy.GoText.{text_ltb}
use geo_proxy.Storage.{Proxy}
use geo_proxy.Affinity.{Store, SessionBinding, list}
use geo_proxy.Selector.Hash.{
  mix_session_hash, session_proxy_hash, session_hash_seed, session_proxy_tie_key,
}

-- Go's float64 with `math.Log`. `of_uint64` converts, `ratio a b` is the constant a / b.
pub record Float64 : Type 1 where
  pub Carrier : Type 0
  pub of_uint64 : ℕ → Carrier
  pub ratio : ℕ → ℕ → Carrier
  pub add : Carrier → Carrier → Carrier
  pub mul : Carrier → Carrier → Carrier
  pub div : Carrier → Carrier → Carrier
  pub neg : Carrier → Carrier
  pub log : Carrier → Carrier
  pub ltb : Carrier → Carrier → Bool
  pub eqb : Carrier → Carrier → Bool

abbrev at_least_zero : ℤ → ℤ
at_least_zero n = if ltb_ℤ n (pos 0) then pos 0 else n

module _ (f : Float64) where
  open f use {Carrier, of_uint64, ratio, add, mul, div, neg, log}

  abbrev session_latency_weight_scale : Carrier
  session_latency_weight_scale = ratio 250 1

  abbrev reliability_prior_success : Carrier
  reliability_prior_success = ratio 2 1

  abbrev reliability_prior_total : Carrier
  reliability_prior_total = ratio 4 1

  abbrev reliability_weight_floor : Carrier
  reliability_weight_floor = ratio 3 4

  abbrev reliability_weight_range : Carrier
  reliability_weight_range = ratio 1 2

  abbrev load_weight_floor : Carrier
  load_weight_floor = ratio 1 2

  session_latency_weight : ℤ → Carrier
  session_latency_weight latency =
      if leb_ℤ latency (pos 0)
      then ratio 1 1
      else add (ratio 1 1) (
          div session_latency_weight_scale
            (add session_latency_weight_scale (of_uint64 (pos_part latency))))

  session_reliability_weight : Proxy → Carrier
  session_reliability_weight p =
      let uses = at_least_zero p.use_count in
      let positive = at_least_zero p.success_count in
      let successes = if ltb_ℤ uses positive then uses else positive in
      let rate =
        div (add (of_uint64 (pos_part successes)) reliability_prior_success)
          (add (of_uint64 (pos_part uses)) reliability_prior_total) in
      add reliability_weight_floor (mul reliability_weight_range rate)

  -- `1 - loadWeightFloor` is a constant of the compiler: one half.
  session_load_weight : ℕ → Carrier
  session_load_weight active =
      add load_weight_floor (div (ratio 1 2) (add (ratio 1 1) (of_uint64 active)))

  session_candidate_weight : Proxy → ℕ → Carrier
  unfolding session_latency_weight session_reliability_weight session_load_weight
  session_candidate_weight p active =
      mul (mul (session_latency_weight p.latency) (session_reliability_weight p))
        (session_load_weight active)

  -- -log(u) / weight, for u = (raw >> 11 + 1) / 2^53
  pub session_rendezvous_score : ℕ → Proxy → ℕ → Carrier
  unfolding session_candidate_weight
  session_rendezvous_score seed p active =
      let raw = mix_session_hash (session_proxy_hash seed p) in
      let u = div (of_uint64 (raw / 2 ^ 11 + 1)) (of_uint64 (2 ^ 53)) in
      div (neg (log u)) (session_candidate_weight p active)

-- The entry of a proxy in the map of `activeBindingCounts`: 0 if there is none.
count_listed : ℤ → List SessionBinding → ℕ
count_listed p [] = 0
count_listed p (b ∷ bindings) =
    let rest = count_listed p bindings in
    if ltb_ℤ (pos 0) b.proxy_id && eq_ℤ b.proxy_id p then suc rest else rest

unfoldable pub active_binding_count : Option Store → ℤ → ℕ
unfolding count_listed
active_binding_count none p = 0
active_binding_count (some sessions) p = count_listed p (list sessions)

-- The loop of `pickSessionCandidateWithAffinity`, for any score and tie key. The key of the best
-- is kept (`some`) from its first use until another score wins.
module _ {S : Type 0} (ltb eqb : S → S → Bool) (score : Proxy → S) (tie_key : Proxy → Text) where
  unfoldable pub best_key : Proxy → Option Text → Text
  best_key picked none = tie_key picked
  best_key picked (some key) = key

  unfoldable pub pick_loop : Proxy → S → Option Text → List Proxy → Proxy
  unfolding best_key
  pick_loop picked best key [] = picked
  pick_loop picked best key (p ∷ proxies) =
      let won = pick_loop p (score p) none proxies in
      let lost = pick_loop picked best key proxies in
      let tie_won = pick_loop p best (some (tie_key p)) proxies in
      let tie_lost = pick_loop picked best (some (best_key picked key)) proxies in
      if ltb (score p) best
      then won
      else if eqb (score p) best
      then (if text_ltb (tie_key p) (best_key picked key) then tie_won else tie_lost)
      else lost

unfoldable pub pick_session_candidate : Float64 → Proxy → List Proxy → Text → Option Store → Proxy
pick_session_candidate f first rest session sessions =
    let seed = session_hash_seed session in
    let score =
      λ (p : Proxy). session_rendezvous_score f seed p (active_binding_count sessions p.id) in
    pick_loop f.ltb f.eqb score session_proxy_tie_key first (score first) none rest
