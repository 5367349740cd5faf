-- ===== src/ApiKeys/Middleware.antt =====
-- `apiKeyMiddleware` of webui/api_key_middleware.go. The two header values and the two readings of
-- the clock (of the limiter, and for the last use) are arguments. The configuration does not change
-- during a request.
pub mod Access
use geo_proxy.Common.{
  ℕ, zero, suc, ◌≡◌, refl, Bool, true, false, ◌&&◌, ◌||◌, ◌↔◌, List, [], ◌∷◌, Option, none, some,
  if◌then◌else◌, length, take, drop, map, ltb, ◌==◌, arith,
}
use geo_proxy.Common.Int.{ℤ, pos, negsuc, pos_part, ltb_ℤ}
use geo_proxy.Common.Key.{Text, text_eq}
use geo_proxy.GoText.{Unicode, codes, lower_byte, has_prefix, trim_space}
use geo_proxy.Selector.{is_empty}
use geo_proxy.Selector.Score.{Float64}
use geo_proxy.ApiKeys.{ApiKey, validate_read_only_api_key, match_read_only_api_key}
use geo_proxy.ApiKeys.Matching.{key_at}
use geo_proxy.ApiKeys.Limiter.{ApiKeyRateLimiter, new_api_key_rate_limiter, allow}

-- strings.EqualFold with a text of ASCII letters to which no letter above 127 folds.
equal_fold : Text → Text → Bool
equal_fold a b = text_eq (map lower_byte a) (map lower_byte b)

-- `auth` and `x_api_key` are the headers Authorization and X-API-Key.
unfoldable pub extract_api_key : Unicode → Text → Text → Text
unfolding equal_fold
extract_api_key u auth x_api_key =
    if has_prefix auth (codes "Bearer ")
    then trim_space u (drop 7 auth)
    else if ltb 7 (length auth) && equal_fold (take 7 auth) (codes "Bearer ")
    then trim_space u (drop 7 auth)
    else trim_space u x_api_key

-- The fields of the configuration that are read here.
pub record Config : Type 0 where
  pub read_only_api_keys : List ApiKey
  pub read_only_api_rate_per_min : ℤ

pub data Response : Type 0 where
  unauthorized too_many_requests served : Response

abbrev pub keys_of : Option Config → Option (List ApiKey)
keys_of none = none
keys_of (some cfg) = some cfg.read_only_api_keys

touch : ℕ → ℕ → List ApiKey → List ApiKey
touch used_at i [] = []
touch used_at zero (key ∷ keys) = record key { last_used_at = used_at } ∷ keys
touch used_at (suc i) (key ∷ keys) = key ∷ touch used_at i keys

module _ (f : Float64) (u : Unicode) (hash_api_key : Text → Text) where
  pub record Server : Type 0 where
    pub cfg : Option Config
    pub api_key_limiter : Option (ApiKeyRateLimiter f)

  -- `keys[idx]`; the index that is found is below the length.
  matched_at : ℤ → List ApiKey → Option ApiKey
  matched_at (pos i) keys = key_at i keys
  matched_at (negsuc i) keys = none

  matched_in : Option Config → Text → Option ApiKey
  unfolding matched_at
  matched_in none plain = none
  matched_in (some cfg) plain =
      matched_at (match_read_only_api_key hash_api_key (some cfg.read_only_api_keys) plain)
        cfg.read_only_api_keys

  read_only_api_key_match : Server → Text → Option ApiKey
  unfolding matched_in
  read_only_api_key_match s plain = matched_in s.cfg plain

  mark_found : ℕ → ℤ → Config → Bool × Option Config
  unfolding touch
  mark_found used_at (pos i) cfg =
      (true, some (record cfg { read_only_api_keys = touch used_at i cfg.read_only_api_keys }))
  mark_found used_at (negsuc i) cfg = (false, some cfg)

  mark_in : Text → ℕ → Option Config → Bool × Option Config
  unfolding mark_found
  mark_in plain used_at none = (false, none)
  mark_in plain used_at (some cfg) =
      mark_found used_at (match_read_only_api_key hash_api_key (some cfg.read_only_api_keys) plain)
        cfg

  mark_read_only_api_key_used : Text → ℕ → Server → Bool × Server
  unfolding mark_in
  mark_read_only_api_key_used plain used_at s =
      let (marked, cfg) = mark_in plain used_at s.cfg in (marked, record s { cfg = cfg })

  limiter_rate : Option Config → ℤ
  limiter_rate none = pos 60
  limiter_rate (some cfg) =
      if ltb_ℤ (pos 0) cfg.read_only_api_rate_per_min
      then cfg.read_only_api_rate_per_min
      else pos 60

  limiter_or_new : ℤ → Option (ApiKeyRateLimiter f) → ApiKeyRateLimiter f
  limiter_or_new rate none = new_api_key_rate_limiter f rate
  limiter_or_new rate (some l) = l

  ensure_api_key_limiter : Server → ApiKeyRateLimiter f
  unfolding limiter_or_new limiter_rate
  ensure_api_key_limiter s = limiter_or_new (limiter_rate s.cfg) s.api_key_limiter

  respond : Bool × Server → Response × Server
  respond (marked, s) = (if marked then served else unauthorized, s)

  limited : Text → ℕ → Server → Bool × Option (ApiKeyRateLimiter f) → Response × Server
  unfolding respond mark_read_only_api_key_used
  limited plain used_at s (allowed, l) =
      let t = record s { api_key_limiter = l } in
      if allowed
      then respond (mark_read_only_api_key_used plain used_at t)
      else (too_many_requests, t)

  bucket_id : ApiKey → Text
  bucket_id key = if is_empty key.id then key.hash else key.id

  matched : Text → ℕ → ℕ → Server → Option ApiKey → Response × Server
  unfolding limited bucket_id ensure_api_key_limiter
  matched plain now used_at s none = (unauthorized, s)
  matched plain now used_at s (some key) =
      limited plain used_at s (allow f (bucket_id key) now (some (ensure_api_key_limiter s)))

  -- A request: what it is answered, and whether the handler behind it runs (`served`).
  pub api_key_middleware : Text → Text → ℕ → ℕ → Server → Response × Server
  unfolding matched read_only_api_key_match
  api_key_middleware auth x_api_key now used_at s =
      let plain = extract_api_key u auth x_api_key in
      matched plain now used_at s (read_only_api_key_match s plain)
