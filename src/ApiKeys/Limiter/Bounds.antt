-- ===== src/ApiKeys/Limiter/Bounds.antt =====
-- How many buckets the rate limiter of webui/api_key_middleware.go keeps, and whose.
use geo_proxy.Common.{
  ℕ, suc, ◌≡◌, ◌≤◌, refl, List, [], ◌∷◌, Option, none, some, arith, length, Bool-cases, inl, inr,
}
use geo_proxy.Common.Int.{ℤ}
use geo_proxy.Common.Key.{Text, text_key}
use geo_proxy.Common.Assoc.{Map, lookup, assign}
use geo_proxy.Selector.{is_empty}
use geo_proxy.Selector.Score.{Float64}
use geo_proxy.ApiKeys.Limiter.{
  TokenBucket, ApiKeyRateLimiter, new_api_key_rate_limiter, max_buckets, drop_idle, evict_stale,
  refill, spend, allow_found, allow_swept, allow,
}

length-assign :
    {V : Type 0} (k : Text) (v : V) (m : Map Text V)
    → length (assign k v m) ≡ (elim (lookup k m) [ none ↦ suc (length m) | some w ↦ length m ])
unfolding assign lookup
length-assign k v [] = refl
length-assign k v ((j, w) ∷ m) = ground (arith, length-assign k v m)

module _ (f : Float64) where
  length-drop_idle :
      (now : ℕ) (m : Map Text (TokenBucket f)) → length (drop_idle f now m) ≤ length m
  unfolding drop_idle
  length-drop_idle now [] = omega arith
  length-drop_idle now ((k, b) ∷ m) = ground (arith, length-drop_idle now m)

  abbrev Bounded : Option (ApiKeyRateLimiter f) → Type 0
  Bounded none = Unit
  Bounded (some l) = length l.buckets ≤ max_buckets

  length-spend :
      (key_id : Text) (b : TokenBucket f) (l : ApiKeyRateLimiter f)
      → length (spend f key_id b l).1.buckets ≡ (elim (lookup key_id l.buckets) [
        | none ↦ suc (length l.buckets)
        | some w ↦ length l.buckets
      ])
  unfolding spend
  length-spend key_id b l = ground (
    arith,
    length-assign key_id b l.buckets,
    length-assign key_id (record b { tokens = f.add b.tokens (f.neg (f.ratio 1 1)) }) l.buckets,
  )

  allow_found-Bounded :
      (key_id : Text) (now : ℕ) (l : ApiKeyRateLimiter f) (o : Option (TokenBucket f))
      → lookup key_id l.buckets ≡ o
      → length l.buckets ≤ max_buckets
      → length (allow_found f key_id now o l).1.buckets ≤ max_buckets
  unfolding allow_found
  allow_found-Bounded key_id now l none e h = ground (
    arith,
    length-spend key_id (record { tokens = f.of_uint64 l.rate_per_min; last_seen = now }) l,
  )
  allow_found-Bounded key_id now l (some b) e h =
      ground (arith, length-spend key_id (refill f l.rate_per_min now b) l)

  evict_stale-bound :
      (now : ℕ) (l : ApiKeyRateLimiter f)
      → length l.buckets ≤ max_buckets
      → length (evict_stale f now l).buckets ≤ max_buckets
  unfolding evict_stale
  evict_stale-bound now l h = ground (arith, length-drop_idle now l.buckets)

  allow-Bounded :
      (key_id : Text) (now : ℕ) (o : Option (ApiKeyRateLimiter f))
      → Bounded o
      → Bounded (allow f key_id now o).1
  unfolding allow allow_swept
  allow-Bounded key_id now none h = tt
  allow-Bounded key_id now (some l) h = elim (Bool-cases (is_empty key_id)) [
    | inl e ↦ rw e h
    | inr e ↦
        rw e
          (allow_found-Bounded key_id now (evict_stale f now l) _ refl (evict_stale-bound now l h))
  ]

  -- A sequence of requests: the keys with the instants at which they come.
  abbrev pub allow_all :
      List (Text × ℕ) → Option (ApiKeyRateLimiter f) → Option (ApiKeyRateLimiter f)
  allow_all [] o = o
  allow_all ((key_id, now) ∷ requests) o = allow_all requests (allow f key_id now o).1

  allow_all-Bounded :
      (requests : List (Text × ℕ)) (o : Option (ApiKeyRateLimiter f))
      → Bounded o
      → Bounded (allow_all requests o)
  allow_all-Bounded [] o h = h
  allow_all-Bounded ((key_id, now) ∷ requests) o h =
      allow_all-Bounded requests _ (allow-Bounded key_id now o h)

  abbrev pub bucket_count : Option (ApiKeyRateLimiter f) → ℕ
  bucket_count none = 0
  bucket_count (some l) = length l.buckets

  count_of : (o : Option (ApiKeyRateLimiter f)) → Bounded o → bucket_count o ≤ max_buckets
  count_of none h = omega arith
  count_of (some l) h = h

  -- Whatever keys ask at whatever instants, a limiter that started empty never has more than
  -- `max_buckets` buckets.
  pub allow_all-bound :
      (rate : ℤ) (requests : List (Text × ℕ))
      → bucket_count (allow_all requests (some (new_api_key_rate_limiter f rate))) ≤ max_buckets
  unfolding new_api_key_rate_limiter
  allow_all-bound rate requests =
      count_of _ (allow_all-Bounded requests (some (new_api_key_rate_limiter f rate)) (omega arith))
