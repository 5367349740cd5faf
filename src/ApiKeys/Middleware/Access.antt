-- ===== src/ApiKeys/Middleware/Access.antt =====
-- Which requests `apiKeyMiddleware` of webui/api_key_middleware.go lets through.
use geo_proxy.Common.{ℕ, ◌≡◌, refl, Bool, true, false, Option, none, some, arith}
use geo_proxy.Common.Key.{Text}
use geo_proxy.GoText.{Unicode}
use geo_proxy.Selector.Score.{Float64}
use geo_proxy.ApiKeys.{ApiKey, validate_read_only_api_key, match_read_only_api_key}
use geo_proxy.ApiKeys.Matching.{Matched, match_read_only_api_key-Matched}
use geo_proxy.ApiKeys.Limiter.{allow}
use geo_proxy.ApiKeys.Middleware.{
  Config, Response, unauthorized, keys_of, extract_api_key, Server, matched_at, matched_in,
  mark_found, mark_in, mark_read_only_api_key_used, read_only_api_key_match, limited, respond,
  bucket_id, ensure_api_key_limiter, matched, api_key_middleware,
}

module _ (f : Float64) (u : Unicode) (hash_api_key : Text → Text) where
  -- How a key is looked for: found, and then marked; or not found.
  abbrev Searched : Option Config → Text → Bool → Type 0
  Searched cfg plain false = matched_in f u hash_api_key cfg plain ≡ none
  Searched cfg plain true =
      ((key : ApiKey) × (matched_in f u hash_api_key cfg plain ≡ some key))
      × ((used_at : ℕ) → (mark_in f u hash_api_key plain used_at cfg).0 ≡ true)

  search_keys :
      (cfg : Config) (plain : Text) (b : Bool)
      → Matched hash_api_key cfg.read_only_api_keys plain b
          (match_read_only_api_key hash_api_key (some cfg.read_only_api_keys) plain)
      → Searched (some cfg) plain b
  unfolding matched_in matched_at mark_in mark_found
  search_keys cfg plain false e = rw e refl
  search_keys cfg plain true (n, key, e, at, usable, same) = ((key, rw e at), λ used_at. rw e refl)

  search :
      (cfg : Option Config) (plain : Text)
      → Searched cfg plain (validate_read_only_api_key hash_api_key (keys_of cfg) plain)
  unfolding matched_in validate_read_only_api_key
  search none plain = refl
  search (some cfg) plain =
      search_keys cfg plain _
        (match_read_only_api_key-Matched hash_api_key cfg.read_only_api_keys plain)

  -- A response by whether the key is valid.
  abbrev pub Answered : Server f u hash_api_key → Bool → Response × Server f u hash_api_key → Type 0
  Answered s false r = r ≡ (unauthorized, s)
  Answered s true r = r.0 ≡ unauthorized → ⊥

  limited-Answered :
      (plain : Text) (used_at : ℕ) (s : Server f u hash_api_key) (key : ApiKey) (now : ℕ)
      → (mark_in f u hash_api_key plain used_at s.cfg).0 ≡ true
      → (limited f u hash_api_key plain used_at s (
          allow f
            (bucket_id f u hash_api_key key)
            now
            (some (ensure_api_key_limiter f u hash_api_key s)))).0
        ≡ unauthorized
      → ⊥
  unfolding limited respond mark_read_only_api_key_used
  limited-Answered plain used_at s key now m e = ground arith

  answer :
      (plain : Text) (now used_at : ℕ) (s : Server f u hash_api_key) (b : Bool)
      → Searched s.cfg plain b
      → Answered s b (
          matched f u hash_api_key plain now used_at s
            (read_only_api_key_match f u hash_api_key s plain))
  unfolding matched read_only_api_key_match
  answer plain now used_at s false e = rw e refl
  answer plain now used_at s true ((key, e), m) =
      rw e (limited-Answered plain used_at s key now (m used_at))

  -- A request whose key the configuration's test refuses is answered "unauthorized" and changes
  -- nothing, no bucket of the limiter either; a request whose key it accepts is never answered
  -- "unauthorized": it is served, or refused by the limiter.
  pub api_key_middleware-Answered :
      (auth x_api_key : Text) (now used_at : ℕ) (s : Server f u hash_api_key)
      → Answered s
          (validate_read_only_api_key hash_api_key
            (keys_of s.cfg)
            (extract_api_key u auth x_api_key))
          (api_key_middleware f u hash_api_key auth x_api_key now used_at s)
  unfolding api_key_middleware
  api_key_middleware-Answered auth x_api_key now used_at s =
      answer (extract_api_key u auth x_api_key) now used_at s _
        (search s.cfg (extract_api_key u auth x_api_key))
