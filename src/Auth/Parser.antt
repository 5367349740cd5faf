-- ===== src/Auth/Parser.antt =====
-- `ParseUsername` of auth/dsl.go, and `EncodeNodeKeyPin`.
pub mod Panics
pub mod Markers
pub mod Safety
pub mod RoundTrip
use geo_proxy.Common.{
  ℕ, ◌+◌, ◌≡◌, Bool, true, false, ◌&&◌, ◌||◌, not, List, [], ◌∷◌, ◌++◌, Option, none, some, ltb,
  ◌==◌, if◌then◌else◌, length, take, drop, all_of,
}
use geo_proxy.Common.Key.{Text}
use geo_proxy.GoText.{Unicode, codes, trim_space, has_prefix}
use geo_proxy.GoText.Utf8.{runes}
use geo_proxy.GoText.Base64.{encode, decode}
use geo_proxy.Auth.{
  ParsedUsername, DslError, empty_username, empty_base, empty_unlock, bad_node_key, empty_node,
  long_node, bad_node, bad_suffix, Parse, ok, err, panic, ◌>>=◌, max_node_length, value_end,
  split_value, parse_region, is_digit, is_ascii_alpha, is_word, parse_session,
  normalize_unlock_token, add_new, fields_from,
}

-- strings.LastIndex of one byte: the length of what stands before it.
last_index : ℕ → Text → Option ℕ
last_index c [] = none
last_index c (b ∷ s) = elim (last_index c s) [
  | none ↦ if b == c then some 0 else none
  | some i ↦ some (i + 1)
]

contains : ℕ → Text → Bool
contains c [] = false
contains c (b ∷ s) = b == c || contains c s

module _ (u : Unicode) where
  -- The loop over the parts of an unlock filter.
  unfoldable pub add_tokens : List Text → List Text → Parse (List Text)
  add_tokens out [] = ok out
  add_tokens out (token ∷ tokens) = elim (normalize_unlock_token u token) [
    | err e ↦ err e
    | panic ↦ panic
    | ok norm ↦ add_tokens (add_new out norm) tokens
  ]

  not_empty : List Text → Text → Parse (List Text × Text)
  not_empty [] rest = err empty_unlock
  not_empty (n ∷ out) rest = ok (n ∷ out, rest)

  add_parts : List Text → Text → Parse (List Text × Text)
  unfolding not_empty
  add_parts [] rest = err empty_unlock
  add_parts (part ∷ parts) rest = do out ← add_tokens [] (part ∷ parts); not_empty out rest

  unfoldable pub parse_unlock : Text → Parse (List Text × Text)
  unfolding add_parts
  parse_unlock raw =
      let (value, rest) = split_value raw in
      if length value == 0 then err empty_unlock else add_parts (fields_from [] value) rest

  unfoldable pub is_node_key_wire_token : Text → Bool
  is_node_key_wire_token value = not (length value == 0) && all_of (is_word u) (runes value)

  host_rune : ℕ → Bool
  host_rune r = r == b'.' || r == b'-' || is_digit u r || is_ascii_alpha r

  address_at : Text → Option ℕ → Bool
  unfolding host_rune contains
  address_at value none = false
  address_at value (some colon) =
      let host = take colon value in
      let port = drop (colon + 1) value in
      if colon == 0 || colon + 1 == length value
      then false
      else if contains b':' host
      then false
      else all_of host_rune (runes host) && all_of (is_digit u) (runes port)

  unfoldable pub is_node_address : Text → Bool
  unfolding address_at last_index
  is_node_address value = address_at value (last_index b':' value)

  key_pin : Text → Option Text → Parse (Text × Text)
  key_pin rest none = err bad_node_key
  key_pin rest (some []) = err bad_node_key
  key_pin rest (some (b ∷ decoded)) = ok (codes "key-" ++ (b ∷ decoded), rest)

  key_value : Text → Text → Parse (Text × Text)
  unfolding key_pin is_node_key_wire_token
  key_value enc rest =
      if length enc == 0 || not (is_node_key_wire_token enc)
      then err bad_node_key
      else key_pin rest (decode enc)

  -- `value[len("key-"):]` is out of range if the value ends earlier.
  parse_node_key : Text → Parse (Text × Text)
  unfolding key_value
  parse_node_key raw =
      let (value, rest) = split_value raw in
      if ltb (length value) 4 then panic else key_value (drop 4 value) rest

  unfoldable pub parse_node : Text → Parse (Text × Text)
  unfolding parse_node_key is_node_address
  parse_node raw =
      if has_prefix raw (codes "key-")
      then parse_node_key raw
      else (let (value, rest) = split_value raw in
          if length value == 0
          then err empty_node
          else if ltb max_node_length (length value)
          then err long_node
          else if not (is_node_address value)
          then err bad_node
          else ok (value, rest))

  -- What has been parsed, and what is left of the text.
  abbrev Progress : Type 0
  Progress = ParsedUsername × Text

  take_region : Progress → Parse Progress
  take_region (parsed, remainder) =
      if has_prefix remainder (codes "-region-")
      then (parse_region u (drop 8 remainder) >>= λ r. ok (record parsed { region = r.0 }, r.1))
      else ok (parsed, remainder)

  take_unlock : Progress → Parse Progress
  take_unlock (parsed, remainder) =
      if has_prefix remainder (codes "-unlock-")
      then (parse_unlock (drop 8 remainder) >>= λ r. ok (record parsed { unlock = r.0 }, r.1))
      else ok (parsed, remainder)

  take_node : Progress → Parse Progress
  take_node (parsed, remainder) =
      if has_prefix remainder (codes "-node-")
      then (parse_node (drop 6 remainder) >>= λ r. ok (record parsed { node = r.0 }, r.1))
      else ok (parsed, remainder)

  take_session : Progress → Parse Progress
  take_session (parsed, remainder) =
      if has_prefix remainder (codes "-session-")
      then (parse_session u (drop 9 remainder) >>= λ r. ok (record parsed { session = r.0 }, r.1))
      else ok (parsed, remainder)

  finish : Progress → Parse ParsedUsername
  finish (parsed, []) = ok parsed
  finish (parsed, b ∷ remainder) = err (bad_suffix (b ∷ remainder))

  suffixes : Progress → Parse ParsedUsername
  suffixes start = do
    a ← take_region start
    b ← take_unlock a
    c ← take_node b
    d ← take_session c
    finish d

  only_base : Text → ParsedUsername
  only_base base = record { base = base; region = []; session = []; unlock = []; node = [] }

  after_base : Progress → Parse ParsedUsername
  after_base (parsed, []) = ok parsed
  after_base (parsed, b ∷ remainder) = suffixes (parsed, b ∷ remainder)

  unfoldable pub parse_username : Text → Parse ParsedUsername
  unfolding only_base after_base suffixes finish take_region take_unlock take_node take_session
  parse_username [] = err empty_username
  parse_username (b ∷ s) =
      let raw = b ∷ s in
      let base_end = value_end raw in
      if base_end == 0
      then err empty_base
      else after_base (only_base (take base_end raw), drop base_end raw)

-- `EncodeNodeKeyPin`.
unfoldable pub encode_node_key_pin : Unicode → Text → Text
encode_node_key_pin u node_key = encode (trim_space u node_key)
