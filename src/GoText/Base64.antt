-- ===== src/GoText/Base64.antt =====
-- base64.RawURLEncoding of Go: six bits to a character of the URL alphabet, no padding.
use geo_proxy.Common.{
  ℕ, ◌+◌, ◌-◌, ◌*◌, ◌/◌, ◌%◌, ◌<◌, ◌≡◌, refl, Bool, true, ◌&&◌, [], ◌∷◌, Option, none, some, ltb,
  leb, ◌==◌, if◌then◌else◌, all_of, arith,
}
use geo_proxy.Common.Key.{Text}

unfoldable pub to_char : ℕ → ℕ
to_char v =
    if ltb v 26
    then v + 65
    else if ltb v 52
    then v + 71
    else if ltb v 62
    then v - 4
    else if v == 62
    then b'-'
    else b'_'

unfoldable pub of_char : ℕ → Option ℕ
of_char c =
    if leb b'A' c && leb c b'Z'
    then some (c - 65)
    else if leb b'a' c && leb c b'z'
    then some (c - 71)
    else if leb b'0' c && leb c b'9'
    then some (c + 4)
    else if c == b'-'
    then some 62
    else if c == b'_'
    then some 63
    else none

unfoldable pub encode : Text → Text
encode [] = []
encode (a ∷ []) = to_char (a / 4) ∷ to_char (a % 4 * 16) ∷ []
encode (a ∷ b ∷ []) = to_char (a / 4) ∷ to_char (a % 4 * 16 + b / 16) ∷ to_char (b % 16 * 4) ∷ []
encode (a ∷ b ∷ c ∷ s) =
    to_char (a / 4)
    ∷ to_char (a % 4 * 16 + b / 16)
    ∷ to_char (b % 16 * 4 + c / 64)
    ∷ to_char (c % 64)
    ∷ encode s

two : Option ℕ → Option ℕ → Option Text
two (some w) (some x) = some ((w * 4 + x / 16) ∷ [])
two _ _ = none

three : Option ℕ → Option ℕ → Option ℕ → Option Text
three (some w) (some x) (some y) = some ((w * 4 + x / 16) ∷ (x % 16 * 16 + y / 4) ∷ [])
three _ _ _ = none

four : Option ℕ → Option ℕ → Option ℕ → Option ℕ → Option Text → Option Text
four (some w) (some x) (some y) (some z) (some rest) =
    some ((w * 4 + x / 16) ∷ (x % 16 * 16 + y / 4) ∷ (y % 4 * 64 + z) ∷ rest)
four _ _ _ _ _ = none

-- A single character at the end is an error; left-over bits are not looked at. Line ends, which Go
-- skips, do not reach the decoder.
unfoldable pub decode : Text → Option Text
unfolding two three four
decode [] = some []
decode (p ∷ []) = none
decode (p ∷ q ∷ []) = two (of_char p) (of_char q)
decode (p ∷ q ∷ r ∷ []) = three (of_char p) (of_char q) (of_char r)
decode (p ∷ q ∷ r ∷ t ∷ s) = four (of_char p) (of_char q) (of_char r) (of_char t) (decode s)

of_char-to_char : (v : ℕ) → v < 64 → of_char (to_char v) ≡ some v
unfolding of_char to_char
of_char-to_char v h = ground arith

-- Every element is a byte.
abbrev pub is_bytes : Text → Bool
is_bytes = all_of (λ b. ltb b 256)

-- Decoding an encoded string of bytes gives it back.
pub decode-encode : (s : Text) → is_bytes s ≡ true → decode (encode s) ≡ some s
unfolding encode decode
decode-encode [] h = refl
decode-encode (a ∷ []) h =
    ground
      (arith, of_char-to_char (a / 4) (ground arith), of_char-to_char (a % 4 * 16) (omega arith))
decode-encode (a ∷ b ∷ []) h = ground (
  arith,
  of_char-to_char (a / 4) (ground arith),
  of_char-to_char (a % 4 * 16 + b / 16) (ground arith),
  of_char-to_char (b % 16 * 4) (omega arith),
)
decode-encode (a ∷ b ∷ c ∷ s) h = ground (
  arith,
  of_char-to_char (a / 4) (ground arith),
  of_char-to_char (a % 4 * 16 + b / 16) (ground arith),
  of_char-to_char (b % 16 * 4 + c / 64) (ground arith),
  of_char-to_char (c % 64) (omega arith),
  decode-encode s (ground arith),
)
