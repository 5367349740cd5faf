-- ===== src/Auth.antt =====
-- auth/dsl.go: the routing language in the user name of a proxy request. Texts are bytes; the
-- Unicode tables are a parameter.
pub mod Parser
pub mod Credentials
use geo_proxy.Common.{
  ℕ, suc, ◌+◌, ◌≡◌, refl, Bool, true, false, ◌&&◌, ◌||◌, not, List, [], ◌∷◌, ◌++◌, Option, none,
  some, ltb, leb, ◌==◌, if◌then◌else◌, length, take, drop, all_of,
}
use geo_proxy.Common.Key.{Text, text_eq}
use geo_proxy.GoText.{Unicode, codes, to_lower, trim_space, has_prefix}
use geo_proxy.GoText.Utf8.{runes}
use geo_proxy.GoText.Base64

pub record ParsedUsername : Type 0 where
  pub base : Text
  pub region : Text
  pub session : Text
  pub unlock : List Text
  pub node : Text

pub data DslError : Type 0 where
  empty_username empty_base bad_region empty_session long_session bad_session empty_unlock :
      DslError
  unknown_unlock : Text → DslError
  bad_node_key empty_node long_node bad_node : DslError
  bad_suffix : Text → DslError

-- A result, an error, or a run-time panic.
pub data Parse {ℓ} (A : Type ℓ) : Type ℓ where
  ok : A → Parse A
  err : DslError → Parse A
  panic : Parse A

infixl 5 ◌>>=◌
abbrev pub ◌>>=◌ {ℓ κ} : {A : Type ℓ} {B : Type κ} → Parse A → (A → Parse B) → Parse B
ok a >>= f = f a
err e >>= f = err e
panic >>= f = panic

abbrev pub max_session_length : ℕ
max_session_length = 64

abbrev pub max_node_length : ℕ
max_node_length = 255

-- strings.Index
unfoldable pub index : Text → Text → Option ℕ
index [] marker = if has_prefix [] marker then some 0 else none
index (b ∷ s) marker =
    let later : Option ℕ = elim (index s marker) [ none ↦ none | some i ↦ some (suc i) ] in
    if has_prefix (b ∷ s) marker then some 0 else later

unfoldable pub earlier : Option ℕ → ℕ → ℕ
earlier none end = end
earlier (some p) end = if ltb p end then p else end

-- `firstMarker`, whose last argument is the length of the text: the smallest position.
unfoldable pub first_marker : List (Option ℕ) → ℕ → ℕ
unfolding earlier
first_marker [] length = length
first_marker (p ∷ positions) length = earlier p (first_marker positions length)

unfoldable pub value_end : Text → ℕ
unfolding first_marker index
value_end raw =
    first_marker
      (index raw (codes "-region-")
        ∷ index raw (codes "-unlock-")
        ∷ index raw (codes "-session-")
        ∷ index raw (codes "-node-")
        ∷ [])
      (length raw)

unfoldable pub split_value : Text → Text × Text
unfolding value_end
split_value raw = let end = value_end raw in (take end raw, drop end raw)

unfoldable pub is_ascii_alpha : ℕ → Bool
is_ascii_alpha r = (leb b'A' r && leb r b'Z') || (leb b'a' r && leb r b'z')

unfoldable pub is_alpha : Text → Bool
unfolding is_ascii_alpha
is_alpha value = all_of is_ascii_alpha (runes value)

unfoldable pub parse_region : Unicode → Text → Parse (Text × Text)
unfolding split_value is_alpha
parse_region u raw =
    let (value, rest) = split_value raw in
    if not (length value == 2) || not (is_alpha value)
    then err bad_region
    else ok (to_lower u value, rest)

module _ (u : Unicode) where
  -- unicode.IsDigit: a table above Latin-1.
  unfoldable pub is_digit : ℕ → Bool
  is_digit r = if leb r 255 then leb b'0' r && leb r b'9' else u.is_digit r

  -- The characters of a session ID and of a key token: letters, digits, `-` and `_`.
  unfoldable pub is_word : ℕ → Bool
  unfolding is_digit is_ascii_alpha
  is_word r = r == b'-' || r == b'_' || is_digit r || is_ascii_alpha r

  unfoldable pub is_session_id : Text → Bool
  unfolding is_word
  is_session_id value = all_of is_word (runes value)

  unfoldable pub parse_session : Text → Parse (Text × Text)
  unfolding split_value is_session_id
  parse_session raw =
      let (value, rest) = split_value raw in
      if length value == 0
      then err empty_session
      else if ltb max_session_length (length value)
      then err long_session
      else if not (is_session_id value)
      then err bad_session
      else ok (value, rest)

  unfoldable pub normalize_unlock_token : Text → Parse (List Text)
  normalize_unlock_token token =
      let t = to_lower u (trim_space u token) in
      if text_eq t (codes "gpt") || text_eq t (codes "openai") || text_eq t (codes "chatgpt")
      then ok (codes "openai" ∷ [])
      else if text_eq t (codes "claude")
      then ok (codes "claude" ∷ [])
      else if text_eq t (codes "gemini")
      then ok (codes "gemini" ∷ [])
      else if text_eq t (codes "grok")
      then ok (codes "grok" ∷ [])
      else if text_eq t (codes "cf") || text_eq t (codes "cloudflare")
      then ok (codes "cf" ∷ [])
      else if text_eq t (codes "all")
      then ok (codes "openai" ∷ codes "claude" ∷ codes "grok" ∷ codes "gemini" ∷ codes "cf" ∷ [])
      else err (unknown_unlock token)

-- `out` doubles as the set `seen`: a signal is in both or in neither.
unfoldable pub member : Text → List Text → Bool
member t [] = false
member t (x ∷ xs) = text_eq x t || member t xs

unfoldable pub add_new : List Text → List Text → List Text
unfolding member
add_new out [] = out
add_new out (n ∷ norm) = add_new (if member n out then out else out ++ n ∷ []) norm

-- strings.FieldsFunc at `+` and `,`: `field` is the one being read; empty ones are dropped.
flush : Text → List Text → List Text
flush [] fields = fields
flush (b ∷ field) fields = (b ∷ field) ∷ fields

unfoldable pub fields_from : Text → Text → List Text
unfolding flush
fields_from field [] = flush field []
fields_from field (b ∷ s) =
    let cut = flush field (fields_from [] s) in
    let go = fields_from (field ++ b ∷ []) s in if b == b'+' || b == b',' then cut else go
