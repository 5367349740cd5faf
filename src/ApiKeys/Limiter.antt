-- ===== src/ApiKeys/Limiter.antt =====
-- The rate limiter of webui/api_key_middleware.go: a token bucket per key. Floats are a parameter;
-- `none` is the nil limiter; an instant is passed where the code reads its clock.
pub mod Bounds
use geo_proxy.Common.{
  ℕ, ◌+◌, ◌*◌, ◌/◌, ◌%◌, ◌^◌, Bool, true, false, ◌&&◌, not, List, [], ◌∷◌, Option, none, some,
  if◌then◌else◌, length, leb, ◌==◌,
}
use geo_proxy.Common.Int.{ℤ, pos, negsuc, pos_part, sub_ℕ, ltb_ℤ, leb_ℤ}
use geo_proxy.Common.Key.{Text, text_key}
use geo_proxy.Common.Assoc.{Map, lookup, assign}
use geo_proxy.Selector.{is_empty}
use geo_proxy.Selector.Score.{Float64}

abbrev pub bucket_idle_ttl : ℤ
bucket_idle_ttl = pos (600 * 10 ^ 9)

abbrev pub sweep_interval : ℤ
sweep_interval = pos (60 * 10 ^ 9)

abbrev pub max_buckets : ℕ
max_buckets = 10_000

module _ (f : Float64) where
  open f use {Carrier, of_uint64, ratio, add, mul, div, neg}

  pub record TokenBucket : Type 0 where
    pub tokens : Carrier
    pub last_seen : ℕ

  pub record ApiKeyRateLimiter : Type 0 where
    pub rate_per_min : ℕ
    pub buckets : Map Text TokenBucket
    pub last_sweep : ℕ

  pub new_api_key_rate_limiter : ℤ → ApiKeyRateLimiter
  new_api_key_rate_limiter rate = record {
    rate_per_min = if leb_ℤ rate (pos 0) then 60 else pos_part rate;
    buckets = [];
    last_sweep = 0;
  }

  -- Duration.Seconds
  seconds_of : ℕ → Carrier
  seconds_of n = add (of_uint64 (n / 10 ^ 9)) (div (of_uint64 (n % 10 ^ 9)) (of_uint64 (10 ^ 9)))

  seconds : ℤ → Carrier
  unfolding seconds_of
  seconds (pos n) = seconds_of n
  seconds (negsuc n) = neg (seconds_of (n + 1))

  unfoldable idle : ℕ → TokenBucket → Bool
  idle now b = leb_ℤ bucket_idle_ttl (sub_ℕ now b.last_seen)

  -- The loop that deletes the idle buckets.
  drop_idle : ℕ → Map Text TokenBucket → Map Text TokenBucket
  unfolding idle
  drop_idle now [] = []
  drop_idle now ((key_id, b) ∷ buckets) =
      let kept = drop_idle now buckets in if idle now b then kept else (key_id, b) ∷ kept

  unfoldable evict_stale : ℕ → ApiKeyRateLimiter → ApiKeyRateLimiter
  unfolding drop_idle
  evict_stale now l =
      if not (leb max_buckets (length l.buckets))
        && not (l.last_sweep == 0)
        && ltb_ℤ (sub_ℕ now l.last_sweep) sweep_interval
      then l
      else record l { last_sweep = now; buckets = drop_idle now l.buckets }

  refill : ℕ → ℕ → TokenBucket → TokenBucket
  unfolding seconds
  refill rate now b =
      let elapsed = seconds (sub_ℕ now b.last_seen) in
      let tokens = add b.tokens (div (mul elapsed (of_uint64 rate)) (ratio 60 1)) in
      let capped = if f.ltb (of_uint64 rate) tokens then of_uint64 rate else tokens in
      if f.ltb (ratio 0 1) elapsed then record { tokens = capped; last_seen = now } else b

  -- The bucket pays a token, or refuses; what it holds is stored in either case.
  spend : Text → TokenBucket → ApiKeyRateLimiter → Bool × ApiKeyRateLimiter
  spend key_id b l =
      if f.ltb b.tokens (ratio 1 1)
      then (false, record l { buckets = assign key_id b l.buckets })
      else (
        true,
        record l {
          buckets = assign key_id (record b { tokens = add b.tokens (neg (ratio 1 1)) }) l.buckets;
        },
      )

  allow_found : Text → ℕ → Option TokenBucket → ApiKeyRateLimiter → Bool × ApiKeyRateLimiter
  unfolding spend refill
  allow_found key_id now none l =
      if leb max_buckets (length l.buckets)
      then (false, l)
      else spend key_id (record { tokens = of_uint64 l.rate_per_min; last_seen = now }) l
  allow_found key_id now (some b) l = spend key_id (refill l.rate_per_min now b) l

  pub allow_swept : Text → ℕ → ApiKeyRateLimiter → Bool × ApiKeyRateLimiter
  unfolding allow_found
  allow_swept key_id now l = allow_found key_id now (lookup key_id l.buckets) l

  pub allow : Text → ℕ → Option ApiKeyRateLimiter → Bool × Option ApiKeyRateLimiter
  unfolding allow_swept evict_stale
  allow key_id now none = (false, none)
  allow key_id now (some l) =
      if is_empty key_id
      then (false, some l)
      else (let (allowed, m) = allow_swept key_id now (evict_stale now l) in (allowed, some m))
