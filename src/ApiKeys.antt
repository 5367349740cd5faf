-- ===== src/ApiKeys.antt =====
-- config/api_key.go and the matching of keys in webui/api_key_middleware.go. The hash of a key
-- (SHA-256 in hexadecimal) and the new identifiers (random) are parameters.
pub mod Matching
pub mod Import
pub mod Limiter
pub mod Middleware
use geo_proxy.Common.{
  ℕ, suc, ◌+◌, Bool, true, false, ◌||◌, List, [], ◌∷◌, ◌++◌, Option, none, some, if◌then◌else◌,
  ◌==◌, map,
}
use geo_proxy.Common.Int.{ℤ, pos, negsuc}
use geo_proxy.Common.Key.{Text, text_eq}
use geo_proxy.GoText.{Unicode, codes, trim_space}
use geo_proxy.Auth.{member}
use geo_proxy.Selector.{is_empty}

pub record ApiKey : Type 0 where
  pub id : Text
  pub name : Text
  pub hash : Text
  pub created_at : ℕ
  pub last_used_at : ℕ
  pub disabled : Bool

-- A key that the loops pass over.
unfoldable pub unusable : ApiKey → Bool
unusable key = key.disabled || is_empty key.hash

validate_loop : List ApiKey → Text → Bool
unfolding unusable
validate_loop [] want = false
validate_loop (key ∷ keys) want =
    let rest = validate_loop keys want in
    if unusable key then rest else if text_eq key.hash want then true else rest

match_loop : ℤ → ℕ → List ApiKey → Text → ℤ
unfolding unusable
match_loop none_found i [] want = none_found
match_loop none_found i (key ∷ keys) want =
    let rest = match_loop none_found (suc i) keys want in
    if unusable key then rest else if text_eq key.hash want then pos i else rest

-- strings.Split at one byte: `part` is the one being read.
split_from : ℕ → Text → Text → List Text
split_from c part [] = part ∷ []
split_from c part (b ∷ s) =
    let cut = split_from c [] s in
    let go = split_from c (part ++ b ∷ []) s in if b == c then part ∷ cut else go

-- `out` doubles as the set `seen`: a key is in both or in neither.
plain_keys : Unicode → List Text → List Text → List Text
plain_keys u out [] = out
plain_keys u out (part ∷ parts) =
    let plain = trim_space u part in
    let skip = plain_keys u out parts in
    let add = plain_keys u (out ++ plain ∷ []) parts in
    if is_empty plain then skip else if member plain out then skip else add

pub parse_read_only_api_keys_env : Unicode → Text → List Text
unfolding plain_keys split_from
parse_read_only_api_keys_env u raw =
    let trimmed = trim_space u raw in
    if is_empty trimmed then [] else plain_keys u [] (split_from b',' [] trimmed)

-- The set `existing`: the hashes of the keys that have one.
pub existing_hashes : List ApiKey → List Text
existing_hashes [] = []
existing_hashes (key ∷ keys) =
    let rest = existing_hashes keys in if is_empty key.hash then rest else key.hash ∷ rest

module _ (hash_api_key : Text → Text) where
  -- The configuration is `none` if it is nil, else the list of its read-only keys.
  pub validate_read_only_api_key : Option (List ApiKey) → Text → Bool
  unfolding validate_loop
  validate_read_only_api_key none plain = false
  validate_read_only_api_key (some keys) [] = false
  validate_read_only_api_key (some keys) (b ∷ plain) = validate_loop keys (hash_api_key (b ∷ plain))

  pub match_read_only_api_key : Option (List ApiKey) → Text → ℤ
  unfolding match_loop
  match_read_only_api_key none plain = negsuc 0
  match_read_only_api_key (some keys) [] = negsuc 0
  match_read_only_api_key (some keys) (b ∷ plain) =
      match_loop (negsuc 0) 0 keys (hash_api_key (b ∷ plain))

  -- The loop over the imported keys; `i` is its index, `new_id` what is generated there.
  pub import_loop :
      (new_id : ℕ → Text) (now i : ℕ) (plains existing : List Text) (keys : List ApiKey)
      → List ApiKey × Bool
  import_loop new_id now i [] existing keys = (keys, false)
  import_loop new_id now i (plain ∷ plains) existing keys =
      let h = hash_api_key plain in
      let skipped = import_loop new_id now (suc i) plains existing keys in
      let key : ApiKey = record {
        id = new_id i;
        name = codes "env-import";
        hash = h;
        created_at = now + i;
        last_used_at = 0;
        disabled = false;
      } in
      let added = import_loop new_id now (suc i) plains (h ∷ existing) (keys ++ key ∷ []) in
      if member h existing then skipped else (added.0, true)

  -- `raw` is the variable READONLY_API_KEYS.
  pub import_read_only_api_keys_from_env :
      Unicode → (ℕ → Text) → ℕ → Text → List ApiKey → List ApiKey × Bool
  unfolding import_loop existing_hashes
  import_read_only_api_keys_from_env u new_id now raw keys =
      import_loop new_id now 0 (parse_read_only_api_keys_env u raw) (existing_hashes keys) keys
