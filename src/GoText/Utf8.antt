-- ===== src/GoText/Utf8.antt =====
-- `for _, r := range s` of Go: the runes of a string's bytes. A byte that starts no valid sequence
-- gives U+FFFD.
use geo_proxy.Common.{
  ℕ, zero, suc, ◌+◌, ◌*◌, ◌%◌, ◌≡◌, refl, Bool, true, ◌&&◌, List, [], ◌∷◌, ltb, leb, ◌==◌,
  if◌then◌else◌, length, drop, arith,
}
use geo_proxy.Common.Key.{Text}
use geo_proxy.GoText.{is_ascii}

abbrev rune_error : ℕ
rune_error = 0xFFFD

between : ℕ → ℕ → ℕ → Bool
between lo hi b = leb lo b && leb b hi

two_bytes : ℕ → Text → ℕ × ℕ
unfolding between
two_bytes b [] = (rune_error, 0)
two_bytes b (c ∷ s) = if between 0x80 0xBF c then (b % 32 * 64 + c % 64, 1) else (rune_error, 0)

-- The range of the second byte keeps overlong forms, surrogates and large values out.
three_bytes : ℕ → Text → ℕ × ℕ
unfolding between
three_bytes b (c ∷ d ∷ s) =
    let lo = if b == 0xE0 then 0xA0 else 0x80 in
    let hi = if b == 0xED then 0x9F else 0xBF in
    if between lo hi c && between 0x80 0xBF d
    then (b % 16 * 4096 + c % 64 * 64 + d % 64, 2)
    else (rune_error, 0)
three_bytes b _ = (rune_error, 0)

four_bytes : ℕ → Text → ℕ × ℕ
unfolding between
four_bytes b (c ∷ d ∷ e ∷ s) =
    let lo = if b == 0xF0 then 0x90 else 0x80 in
    let hi = if b == 0xF4 then 0x8F else 0xBF in
    if between lo hi c && between 0x80 0xBF d && between 0x80 0xBF e
    then (b % 8 * 262144 + c % 64 * 4096 + d % 64 * 64 + e % 64, 3)
    else (rune_error, 0)
four_bytes b _ = (rune_error, 0)

-- The rune, and how many bytes after the first belong to it.
decode_rune : ℕ → Text → ℕ × ℕ
unfolding between two_bytes three_bytes four_bytes
decode_rune b s =
    if ltb b 0x80
    then (b, 0)
    else if between 0xC2 0xDF b
    then two_bytes b s
    else if between 0xE0 0xEF b
    then three_bytes b s
    else if between 0xF0 0xF4 b
    then four_bytes b s
    else (rune_error, 0)

-- Each round takes a byte at least, so the length is enough fuel.
unfoldable pub runes_within : ℕ → Text → List ℕ
unfolding decode_rune
runes_within zero s = []
runes_within (suc n) [] = []
runes_within (suc n) (b ∷ s) = let (r, extra) = decode_rune b s in r ∷ runes_within n (drop extra s)

unfoldable pub runes : Text → List ℕ
unfolding runes_within
runes s = runes_within (length s) s

-- The runes of an ASCII string are its bytes.
pub runes-is_ascii : (s : Text) → is_ascii s ≡ true → runes s ≡ s
unfolding runes is_ascii
runes-is_ascii [] h = refl
runes-is_ascii (b ∷ s) h = ground (arith, runes-is_ascii s)

-- U+00E9, U+4E2D and U+1F600, and a lone continuation byte.
runes_run :
    runes (0x41 ∷ 0xC3 ∷ 0xA9 ∷ 0xE4 ∷ 0xB8 ∷ 0xAD ∷ 0xF0 ∷ 0x9F ∷ 0x98 ∷ 0x80 ∷ 0x80 ∷ [])
    ≡ 0x41 ∷ 0xE9 ∷ 0x4E2D ∷ 0x1F600 ∷ 0xFFFD ∷ []
unfolding runes
runes_run = refl
