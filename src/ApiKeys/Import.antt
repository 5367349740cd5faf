-- ===== src/ApiKeys/Import.antt =====
-- What `importReadOnlyAPIKeysFromEnv` of config/api_key.go makes of the keys.
use geo_proxy.Common.{
  ℕ, suc, ◌+◌, ◌≡◌, refl, true, false, ◌||◌, ◌&&◌, not, List, [], ◌∷◌, ◌++◌, some, arith,
  Bool-cases, inl, inr, map,
}
use geo_proxy.Common.Key.{Text, text_eq, text_eq_iff}
use geo_proxy.GoText.{Unicode, codes}
use geo_proxy.Auth.{member}
use geo_proxy.Selector.{is_empty}
use geo_proxy.ApiKeys.{
  ApiKey, unusable, validate_loop, existing_hashes, validate_read_only_api_key, import_loop,
  parse_read_only_api_keys_env, import_read_only_api_keys_from_env,
}

validate_loop-append :
    (keys : List ApiKey) (key : ApiKey) (h : Text)
    → validate_loop (keys ++ key ∷ []) h
      ≡ (validate_loop keys h || (not (unusable key) && text_eq key.hash h))
unfolding validate_loop
validate_loop-append [] key h = ground arith
validate_loop-append (k ∷ keys) key h = ground (arith, validate_loop-append keys key h)

existing_hashes-append :
    (keys : List ApiKey) (key : ApiKey) (h : Text)
    → is_empty key.hash ≡ false
    → member h (existing_hashes (keys ++ key ∷ []))
      ≡ (member h (existing_hashes keys) || text_eq key.hash h)
unfolding existing_hashes member
existing_hashes-append [] key h e = ground arith
existing_hashes-append (k ∷ keys) key h e = ground (arith, existing_hashes-append keys key h e)

member-same : (g h : Text) (s : List Text) → text_eq g h ≡ true → member g s ≡ member h s
member-same g h s e = let same : g ≡ h = ground (arith, text_eq_iff g h) in rw same refl

module _ (hash_api_key : Text → Text) (new_id : ℕ → Text) (now : ℕ) where
  import_loop-none :
      (i : ℕ) (plains existing : List Text) (keys : List ApiKey)
      → ((h : Text) → member h (map hash_api_key plains) ≡ true → member h existing ≡ true)
      → import_loop hash_api_key new_id now i plains existing keys ≡ (keys, false)
  unfolding import_loop member
  import_loop-none i [] existing keys e = refl
  import_loop-none i (plain ∷ plains) existing keys e =
      let h = hash_api_key plain in
      let here : member h existing ≡ true = ground (arith, e h, text_eq_iff h h) in
      rw here (import_loop-none (suc i) plains existing keys (λ g m. ground (arith, e g)))

module _ (hash_api_key : Text → Text) (solid : (s : Text) → is_empty (hash_api_key s) ≡ false)
    (new_id : ℕ → Text) (now : ℕ) where
  abbrev after : ℕ → List Text → List Text → List ApiKey → List ApiKey
  after i plains existing keys = (import_loop hash_api_key new_id now i plains existing keys).0

  abbrev imported : ℕ → Text → ApiKey
  imported i plain = record {
    id = new_id i;
    name = codes "env-import";
    hash = hash_api_key plain;
    created_at = now + i;
    last_used_at = 0;
    disabled = false;
  }

  import_loop-validates :
      (i : ℕ) (plains existing : List Text) (keys : List ApiKey) (h : Text)
      → validate_loop (after i plains existing keys) h
        ≡ (validate_loop keys h || (member h (map hash_api_key plains) && not (member h existing)))
  unfolding import_loop member unusable
  import_loop-validates i [] existing keys h = ground arith
  import_loop-validates i (plain ∷ plains) existing keys h =
      let g = hash_api_key plain in
      let same = member-same g h existing in
      elim (Bool-cases (member g existing)) [
        | inl known ↦
            ground (arith, known, same, import_loop-validates (suc i) plains existing keys h)
        | inr new ↦ ground (
          arith,
          new,
          same,
          solid plain,
          validate_loop-append keys (imported i plain) h,
          import_loop-validates (suc i) plains (g ∷ existing) (keys ++ imported i plain ∷ []) h,
        )
      ]

  import_loop-existing :
      (i : ℕ) (plains existing : List Text) (keys : List ApiKey)
      → ((h : Text) → member h existing ≡ member h (existing_hashes keys))
      → (h : Text)
      → member h (existing_hashes (after i plains existing keys))
        ≡ (member h (existing_hashes keys) || member h (map hash_api_key plains))
  unfolding import_loop member
  import_loop-existing i [] existing keys e h = ground arith
  import_loop-existing i (plain ∷ plains) existing keys e h =
      let g = hash_api_key plain in
      let same = member-same g h existing in
      elim (Bool-cases (member g existing)) [
        | inl known ↦
            ground (arith, known, same, e h, import_loop-existing (suc i) plains existing keys e h)
        | inr new ↦
            let grown =
              λ (t : Text). existing_hashes-append keys (imported i plain) t (solid plain) in
            ground (
              arith,
              new,
              grown h,
              import_loop-existing (suc i) plains (g ∷ existing) (keys ++ imported i plain ∷ [])
                  (λ t. ground (arith, e t, grown t)) h,
            )
      ]

  -- For a hash that is never empty: after an import a non-empty key is accepted exactly if it was
  -- accepted before, or if its hash is that of a listed key and no key, not even a disabled one,
  -- had that hash.
  pub import_keys-validate :
      (u : Unicode) (raw : Text) (keys : List ApiKey) (plain : Text)
      → is_empty plain ≡ false
      → validate_read_only_api_key hash_api_key
          (some (import_read_only_api_keys_from_env hash_api_key u new_id now raw keys).0)
          plain
        ≡ (validate_read_only_api_key hash_api_key (some keys) plain
            || (member (hash_api_key plain) (map hash_api_key (parse_read_only_api_keys_env u raw))
                && not (member (hash_api_key plain) (existing_hashes keys))))
  unfolding import_read_only_api_keys_from_env validate_read_only_api_key is_empty
  import_keys-validate u raw keys [] named = ground arith
  import_keys-validate u raw keys (b ∷ plain) named =
      import_loop-validates 0 (parse_read_only_api_keys_env u raw) (existing_hashes keys) keys
        (hash_api_key (b ∷ plain))

  -- For a hash that is never empty: a second import of the same list, at any time and with any new
  -- identifiers, changes no key and reports no change.
  pub import_keys_again :
      (u : Unicode) (raw : Text) (keys : List ApiKey) (other_id : ℕ → Text) (later : ℕ)
      → let first = (import_read_only_api_keys_from_env hash_api_key u new_id now raw keys).0 in
        import_read_only_api_keys_from_env hash_api_key u other_id later raw first ≡ (first, false)
  unfolding import_read_only_api_keys_from_env
  import_keys_again u raw keys other_id later =
      let plains = parse_read_only_api_keys_env u raw in
      import_loop-none hash_api_key other_id later 0 plains _ _ (λ h m.
        ground (arith, m, import_loop-existing 0 plains (existing_hashes keys) keys (λ t. refl) h))
