-- ===== src/Examples/Keys.antt =====
-- Read-only keys and passwords at concrete values; the hash puts a letter in front.
use geo_proxy.Common.{ℕ, ◌≡◌, ◌≤◌, ◌||◌, ◌&&◌, not, refl, false, List, [], ◌∷◌, none, some, map}
use geo_proxy.Common.Int.{pos}
use geo_proxy.Common.Key.{Text}
use geo_proxy.GoText.{ascii_only, codes}
use geo_proxy.Auth.{member}
use geo_proxy.Auth.Credentials.{verify_password, verify_password-hashed}
use geo_proxy.Selector.{is_empty}
use geo_proxy.ApiKeys.{
  ApiKey, validate_read_only_api_key, match_read_only_api_key, existing_hashes,
  parse_read_only_api_keys_env, import_read_only_api_keys_from_env,
}
use geo_proxy.ApiKeys.Matching.{Matched, match_read_only_api_key-Matched}
use geo_proxy.ApiKeys.Import.{import_keys-validate, import_keys_again}
use geo_proxy.ApiKeys.Limiter.{new_api_key_rate_limiter, max_buckets}
use geo_proxy.ApiKeys.Limiter.Bounds.{allow_all, bucket_count, allow_all-bound}
use geo_proxy.ApiKeys.Middleware.{Server, keys_of, extract_api_key, api_key_middleware}
use geo_proxy.ApiKeys.Middleware.Access.{Answered, api_key_middleware-Answered}
use geo_proxy.Examples.{counting_floats}

abbrev toy_hash : Text → Text
toy_hash s = b'h' ∷ s

toy_solid : (s : Text) → is_empty (toy_hash s) ≡ false
unfolding is_empty
toy_solid s = refl

abbrev toy_id : ℕ → Text
toy_id i = i ∷ []

abbrev one_key : List ApiKey
one_key =
    record {
      id = codes "1";
      name = [];
      hash = codes "hk";
      created_at = 0;
      last_used_at = 0;
      disabled = false;
    }
    ∷ []

abbrev toy_server : Server counting_floats ascii_only toy_hash
toy_server = record {
  cfg = some (record { read_only_api_keys = one_key; read_only_api_rate_per_min = pos 5 });
  api_key_limiter = none;
}

match_read_only_api_key-Matched_example :
    Matched toy_hash one_key
      (codes "k")
      (validate_read_only_api_key toy_hash (some one_key) (codes "k"))
      (match_read_only_api_key toy_hash (some one_key) (codes "k"))
match_read_only_api_key-Matched_example =
    match_read_only_api_key-Matched toy_hash one_key (codes "k")

import_keys-validate_example :
    validate_read_only_api_key toy_hash
      (some
        (import_read_only_api_keys_from_env toy_hash ascii_only toy_id 4
          (codes "k, m,k")
          one_key).0)
      (codes "m")
    ≡ (validate_read_only_api_key toy_hash (some one_key) (codes "m")
        || (member
              (toy_hash (codes "m"))
              (map toy_hash (parse_read_only_api_keys_env ascii_only (codes "k, m,k")))
            && not (member (toy_hash (codes "m")) (existing_hashes one_key))))
import_keys-validate_example =
    import_keys-validate toy_hash toy_solid toy_id 4 ascii_only (codes "k, m,k") one_key (codes "m")
      (unfold is_empty in refl)

import_keys_again_example :
    let first =
      (import_read_only_api_keys_from_env toy_hash ascii_only toy_id 4
        (codes "k, m,k")
        one_key).0 in
    import_read_only_api_keys_from_env toy_hash ascii_only toy_id 9 (codes "k, m,k") first
    ≡ (first, false)
import_keys_again_example =
    import_keys_again toy_hash toy_solid toy_id 4 ascii_only (codes "k, m,k") one_key toy_id 9

allow_all-bound_example :
    bucket_count counting_floats (
      allow_all counting_floats
        ((codes "a", 3) ∷ (codes "b", 4) ∷ (codes "a", 9) ∷ [])
        (some (new_api_key_rate_limiter counting_floats (pos 5))))
    ≤ max_buckets
allow_all-bound_example =
    allow_all-bound counting_floats (pos 5) ((codes "a", 3) ∷ (codes "b", 4) ∷ (codes "a", 9) ∷ [])

api_key_middleware-Answered_example :
    Answered counting_floats ascii_only toy_hash toy_server
      (validate_read_only_api_key toy_hash
        (keys_of toy_server.cfg)
        (extract_api_key ascii_only (codes "bearer k") []))
      (api_key_middleware counting_floats ascii_only toy_hash (codes "bearer k") [] 3 4 toy_server)
api_key_middleware-Answered_example =
    api_key_middleware-Answered counting_floats ascii_only toy_hash (codes "bearer k") [] 3 4
      toy_server

verify_password-hashed_example :
    verify_password toy_hash (codes "u") (codes "pw") (codes "u") [] (toy_hash (codes "pw"))
    ≡ verify_password toy_hash (codes "u") (codes "pw") (codes "u") (codes "pw") []
verify_password-hashed_example =
    verify_password-hashed toy_hash (codes "u") (codes "pw") (codes "u") (codes "pw") [] refl
      (λ e. refl)
