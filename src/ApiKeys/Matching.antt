-- ===== src/ApiKeys/Matching.antt =====
-- The two loops that look for a read-only key agree: config/api_key.go, webui/api_key_middleware.go.
use geo_proxy.Common.{
  ℕ, zero, suc, ◌+◌, ◌≡◌, refl, Bool, true, false, List, [], ◌∷◌, Option, none, some, arith,
  Bool-cases, inl, inr,
}
use geo_proxy.Common.Int.{ℤ, pos, negsuc}
use geo_proxy.Common.Key.{Text, text_eq, text_eq_iff}
use geo_proxy.ApiKeys.{
  ApiKey, unusable, validate_loop, match_loop, validate_read_only_api_key, match_read_only_api_key,
}

-- The key at a position.
abbrev pub key_at : ℕ → List ApiKey → Option ApiKey
key_at i [] = none
key_at zero (key ∷ keys) = some key
key_at (suc i) (key ∷ keys) = key_at i keys

-- The result of a search from position `i` on: nothing, or a usable key with the hash.
abbrev Found : ℕ → List ApiKey → Text → Bool → ℤ → Type 0
Found i keys want false r = r ≡ negsuc 0
Found i keys want true r =
    (n : ℕ) × (key : ApiKey) × (r ≡ pos (n + i))
    × (key_at n keys ≡ some key)
    × (unusable key ≡ false)
    × (key.hash ≡ want)

later :
    (i : ℕ) (key : ApiKey) (keys : List ApiKey) (want : Text) (b : Bool) (r : ℤ)
    → Found (suc i) keys want b r
    → Found i (key ∷ keys) want b r
later i key keys want false r h = h
later i key keys want true r (n, k, e, at, usable, same) =
    (suc n, k, ground (arith, e), at, usable, same)

match_loop-Found :
    (i : ℕ) (keys : List ApiKey) (want : Text)
    → Found i keys want (validate_loop keys want) (match_loop (negsuc 0) i keys want)
unfolding match_loop validate_loop
match_loop-Found i [] want = refl
match_loop-Found i (key ∷ keys) want =
    let rest = later i key keys want _ _ (match_loop-Found (suc i) keys want) in
    elim (Bool-cases (unusable key)) [
      | inl skip ↦ rw skip rest
      | inr usable ↦ elim (Bool-cases (text_eq key.hash want)) [
        | inr other ↦ rw (usable, other) rest
        | inl same ↦
            rw (usable, same)
              (0, key, ground arith, refl, usable, ground (arith, text_eq_iff key.hash want))
      ]
    ]

module _ (hash_api_key : Text → Text) where
  -- What `match_read_only_api_key` says of a key: -1, exactly if `validate_read_only_api_key` refuses
  -- it; else the position of a key that is not disabled, whose hash is not empty and is the key's.
  abbrev pub Matched : List ApiKey → Text → Bool → ℤ → Type 0
  Matched keys plain false r = r ≡ negsuc 0
  Matched keys plain true r =
      (n : ℕ) × (key : ApiKey) × (r ≡ pos n)
      × (key_at n keys ≡ some key)
      × (unusable key ≡ false)
      × (key.hash ≡ hash_api_key plain)

  from_start :
      (keys : List ApiKey) (plain : Text) (b : Bool) (r : ℤ)
      → Found 0 keys (hash_api_key plain) b r
      → Matched keys plain b r
  from_start keys plain false r h = h
  from_start keys plain true r (n, key, e, at, usable, same) =
      (n, key, ground (arith, e), at, usable, same)

  -- The search of the web interface and the test of the configuration agree on every key: the
  -- search returns -1 if the test refuses the key, and else the position of a key that is not
  -- disabled and whose hash is not empty and is the hash of the key.
  pub match_read_only_api_key-Matched :
      (keys : List ApiKey) (plain : Text)
      → Matched keys plain
          (validate_read_only_api_key hash_api_key (some keys) plain)
          (match_read_only_api_key hash_api_key (some keys) plain)
  unfolding match_read_only_api_key validate_read_only_api_key
  match_read_only_api_key-Matched keys [] = refl
  match_read_only_api_key-Matched keys (b ∷ plain) =
      from_start keys (b ∷ plain) _ _ (match_loop-Found 0 keys (hash_api_key (b ∷ plain)))
