-- ===== src/GoText.antt =====
-- What the code uses of Go's `strings`, `fmt` and `strconv`, over the bytes of a string.
-- A text with a byte above 127 goes to the Unicode tables, which are a parameter.
pub mod Decimal
pub mod Order
pub mod Trim
pub mod Utf8
pub mod Base64
use geo_proxy.Common.{
  ℕ, zero, suc, ◌+◌, ◌-◌, ◌≡◌, Bool, true, false, ◌&&◌, ◌||◌, List, [], ◌∷◌, ◌++◌, map, ltb, leb,
  ◌==◌, if◌then◌else◌, all_of,
}
use geo_proxy.Common.Key.{Text}
use mathlib.Core.List.{reverse}
use Prim.Native.Char.{code}
use Prim.Native.String.{String}

-- The bytes of an ASCII literal.
abbrev pub codes : String → Text
codes String.[] = []
codes (String.◌∷◌ c s) = code c ∷ codes s

-- `is_digit` is asked above 255 only, the others for texts with a byte above 127.
pub record Unicode : Type 0 where
  pub is_digit : ℕ → Bool
  pub to_lower : Text → Text
  pub trim_space : Text → Text
  pub to_upper : Text → Text
  pub fields : Text → List Text

unfoldable pub is_ascii : Text → Bool
is_ascii = all_of (λ b. ltb b 128)

unfoldable pub lower_byte : ℕ → ℕ
lower_byte b = if leb b'A' b && leb b b'Z' then b + 32 else b

-- Tables for which nothing above 127 is a letter, a digit or a space.
abbrev pub ascii_only : Unicode
ascii_only = record {
  is_digit = λ r. false;
  to_lower = map lower_byte;
  trim_space = λ s. s;
  to_upper = λ s. s;
  fields = λ s. s ∷ [];
}

unfoldable pub is_space : ℕ → Bool
is_space b = (leb 9 b && leb b 13) || b == 32

unfoldable pub trim_left : Text → Text
unfolding is_space
trim_left [] = []
trim_left (b ∷ s) = let rest = trim_left s in if is_space b then rest else b ∷ s

-- strings.ToLower
unfoldable pub to_lower : Unicode → Text → Text
unfolding is_ascii lower_byte
to_lower u s = if is_ascii s then map lower_byte s else u.to_lower s

-- strings.TrimSpace
unfoldable pub trim_space : Unicode → Text → Text
unfolding is_ascii trim_left
trim_space u s = if is_ascii s then reverse (trim_left (reverse (trim_left s))) else u.trim_space s

-- strings.HasPrefix
unfoldable pub has_prefix : Text → Text → Bool
has_prefix s [] = true
has_prefix [] (p ∷ ps) = false
has_prefix (b ∷ s) (p ∷ ps) = b == p && has_prefix s ps

-- The order `<` on strings.
unfoldable pub text_ltb : Text → Text → Bool
text_ltb s [] = false
text_ltb [] (b ∷ t) = true
text_ltb (a ∷ s) (b ∷ t) = if ltb a b then true else a == b && text_ltb s t

unfoldable pub upper_byte : ℕ → ℕ
upper_byte b = if leb b'a' b && leb b b'z' then b - 32 else b

-- strings.ToUpper
unfoldable pub to_upper : Unicode → Text → Text
unfolding is_ascii upper_byte
to_upper u s = if is_ascii s then map upper_byte s else u.to_upper s

add_field : Text → List Text → List Text
add_field [] rest = rest
add_field (b ∷ word) rest = (b ∷ word) ∷ rest

-- The words of a text: `word` is the one being read.
unfoldable pub words_from : Text → Text → List Text
unfolding is_space add_field
words_from word [] = add_field word []
words_from word (b ∷ s) =
    let cut = add_field word (words_from [] s) in
    let go = words_from (word ++ b ∷ []) s in if is_space b then cut else go

-- strings.Fields
unfoldable pub fields : Unicode → Text → List Text
unfolding is_ascii words_from
fields u s = if is_ascii s then words_from [] s else u.fields s
