-- ===== src/Selector.antt =====
-- selector/selector.go and selector/unlock_filter.go: which nodes a request may use.
pub mod Hash
pub mod Score
pub mod Members
pub mod Pick
pub mod Resolve
pub mod Database
use geo_proxy.Common.{
  ℕ, ◌+◌, ◌≡◌, Bool, true, false, ◌&&◌, ◌||◌, not, List, [], ◌∷◌, Option, none, some, if◌then◌else◌,
  ltb, select,
}
use geo_proxy.Common.Int.{ℤ, pos, ltb_ℤ, leb_ℤ, eq_ℤ}
use geo_proxy.Common.Key.{Text, text_eq, text_key}
use geo_proxy.Common.Assoc.{Map, lookup}
use geo_proxy.GoText.{Unicode, codes, to_lower, trim_space}
use geo_proxy.Storage.{Proxy}
use geo_proxy.Affinity.{Binding}

-- Go's errors: one of the store, and `ErrNoNode` with its region and its note.
pub data Note : Type 0 where
  unavailable capacity cooldown : Note

pub data Error : Type 0 where
  store_failed : Error
  no_node : Text → Note → Error

pub data Result {ℓ} (A : Type ℓ) : Type ℓ where
  ok : A → Result A
  err : Error → Result A

-- The interface `Store`. `none` is an error, or the nil proxy, which the callers treat alike.
pub record NodeStore : Type 0 where
  pub get_by_region : Text → List ℤ → Option (List Proxy)
  pub get_proxy_by_id : ℤ → Option Proxy
  pub get_proxy_by_address : Text → Option Proxy
  pub get_proxy_by_node_key : Text → Option Proxy
  pub is_subscription_paused : ℤ → Option Bool

-- What `config.Get()` holds for the selector.
pub record Limits : Type 0 where
  pub max_sessions_per_proxy : ℤ
  pub proxy_cooldown_minutes : ℤ

-- The libraries' parts: the Unicode tables, and the map that `json.Unmarshal` leaves (nil is `none`).
pub record Runtime : Type 0 where
  pub unicode : Unicode
  pub unmarshal : Text → Option (Map Text ℤ)

unfoldable pub proxy_available : Proxy → Bool
proxy_available p =
    not p.user_paused
    && (text_eq p.status (codes "active") || text_eq p.status (codes "degraded"))
    && ltb_ℤ p.fail_count (pos 3)

unfoldable pub available_proxies : List Proxy → List Proxy
available_proxies = select proxy_available

unfoldable pub excluded : ℤ → List ℤ → Bool
excluded proxy_id [] = false
excluded proxy_id (x ∷ excludes) = if eq_ℤ x proxy_id then true else excluded proxy_id excludes

abbrev unknown_latency_rank : ℤ
unknown_latency_rank = pos 1_073_741_824

unfoldable pub latency_rank : ℤ → ℤ
latency_rank latency = if leb_ℤ latency (pos 0) then unknown_latency_rank else latency

clamp_negative : ℤ → ℤ
clamp_negative n = if ltb_ℤ n (pos 0) then pos 0 else n

pub max_sessions_per_proxy : Option Limits → ℤ
unfolding clamp_negative
max_sessions_per_proxy none = pos 0
max_sessions_per_proxy (some cfg) = clamp_negative cfg.max_sessions_per_proxy

pub proxy_cooldown_minutes : Option Limits → ℤ
unfolding clamp_negative
proxy_cooldown_minutes none = pos 0
proxy_cooldown_minutes (some cfg) = clamp_negative cfg.proxy_cooldown_minutes

unfoldable pub requested_or_bound_region : Text → Text → Text
requested_or_bound_region [] bound = bound
requested_or_bound_region (b ∷ requested) bound = b ∷ requested

unfoldable pub is_empty : Text → Bool
is_empty [] = true
is_empty (b ∷ s) = false

module _ (rt : Runtime) where
  unfoldable pub normalize_region : Text → Text
  normalize_region region = to_lower rt.unicode (trim_space rt.unicode region)

  unfoldable pub region_mismatch : Text → Text → Bool
  unfolding is_empty
  region_mismatch node_region requested =
      not (is_empty requested)
      && not (text_eq (normalize_region node_region) (normalize_region requested))

  unfoldable pub binding_region_mismatch : Binding → Text → Bool
  unfolding region_mismatch
  binding_region_mismatch binding region = region_mismatch binding.region region

  -- The map is nil unless the text is not empty and the decoder made one.
  reachability : Proxy → Option (Map Text ℤ)
  unfolding is_empty
  reachability p =
      let raw = trim_space rt.unicode p.ai_reachability in
      if not (is_empty raw) then rt.unmarshal raw else none

is_reachable : Text → Option (Map Text ℤ) → Bool
is_reachable req none = false
is_reachable req (some ai) = elim (lookup req ai) [ none ↦ false | some v ↦ eq_ℤ v (pos 0) ]

is_ai_service : Text → Bool
is_ai_service req =
    text_eq req (codes "openai")
    || text_eq req (codes "claude")
    || text_eq req (codes "grok")
    || text_eq req (codes "gemini")

-- One round of the loop over the required tokens.
unlock_met : Proxy → Option (Map Text ℤ) → Text → Bool
unfolding is_reachable is_ai_service
unlock_met p ai req =
    if text_eq req (codes "cf")
    then eq_ℤ p.cf_blocked (pos 0)
    else if is_ai_service req
    then is_reachable req ai
    else false

all_met : Proxy → Option (Map Text ℤ) → List Text → Bool
unfolding unlock_met
all_met p ai [] = true
all_met p ai (req ∷ unlock) = if not (unlock_met p ai req) then false else all_met p ai unlock

module _ (rt : Runtime) where
  unfoldable pub proxy_matches_unlock : Proxy → List Text → Bool
  unfolding all_met reachability
  proxy_matches_unlock p [] = true
  proxy_matches_unlock p (req ∷ unlock) = all_met p (reachability rt p) (req ∷ unlock)

  unfoldable pub filter_by_unlock : List Proxy → List Text → List Proxy
  filter_by_unlock proxies [] = proxies
  filter_by_unlock proxies (req ∷ unlock) =
      select (λ p. proxy_matches_unlock p (req ∷ unlock)) proxies
