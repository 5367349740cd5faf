-- ===== src/Storage/Regions/Codes.antt =====
-- The regions that storage/regions.go writes into a row: none, or two lower-case letters.
use geo_proxy.Common.{
  ℕ, ◌≡◌, refl, Bool, true, false, ◌&&◌, not, List, [], ◌∷◌, leb, ltb, ◌==◌, ◌||◌, all_of, map,
  arith, Bool-cases, inl, inr,
}
use geo_proxy.Common.Key.{Text}
use geo_proxy.GoText.{
  Unicode, is_ascii, lower_byte, is_space, trim_left, to_lower, trim_space, fields,
}
use geo_proxy.Auth.{is_ascii_alpha}
use geo_proxy.Storage.Regions.{
  normalize_region, is_alpha2, normalize_manual_region, first_region, region_from_exit_location,
}

abbrev pub is_lower : ℕ → Bool
is_lower b = leb b'a' b && leb b b'z'

abbrev pub is_code : Text → Bool
is_code [] = true
is_code (a ∷ b ∷ []) = is_lower a && is_lower b
is_code _ = false

abbrev is_upper : ℕ → Bool
is_upper b = leb b'A' b && leb b b'Z'

-- What `strings.ToLower` does not leave in a text: an upper-case ASCII letter.
abbrev pub LeavesNoUpper : Unicode → Type 0
LeavesNoUpper u = (s : Text) → all_of (λ b. not (leb b'A' b && leb b b'Z')) (u.to_lower s) ≡ true

pub no_upper : (s : Text) → all_of (λ b. not (is_upper b)) (map lower_byte s) ≡ true
unfolding lower_byte
no_upper [] = refl
no_upper (b ∷ s) = ground (arith, no_upper s)

to_lower-no_upper :
    (u : Unicode) (s : Text)
    → LeavesNoUpper u
    → all_of (λ b. not (is_upper b)) (to_lower u s) ≡ true
unfolding to_lower
to_lower-no_upper u s h = elim (Bool-cases (is_ascii s)) [
  | inl plain ↦ rw plain (no_upper s)
  | inr wide ↦ rw wide (h s)
]

lower_alpha2 :
    (s : Text) → is_alpha2 s ≡ true → all_of (λ b. not (is_upper b)) s ≡ true → is_code s ≡ true
unfolding is_alpha2 is_ascii_alpha
lower_alpha2 [] e h = refl
lower_alpha2 (a ∷ []) e h = cc
lower_alpha2 (a ∷ b ∷ []) e h = ground arith
lower_alpha2 (a ∷ b ∷ c ∷ s) e h = cc

pub normalize_manual_region-is_code :
    (u : Unicode) (s : Text) → LeavesNoUpper u → is_code (normalize_manual_region u s) ≡ true
unfolding normalize_manual_region
normalize_manual_region-is_code u s h = elim (Bool-cases (is_alpha2 (normalize_region u s))) [
  | inr no_code ↦ rw no_code refl
  | inl e ↦ rw e (
      lower_alpha2 (normalize_region u s) e
        (unfold normalize_region in to_lower-no_upper u (trim_space u s) h))
]

first_region-is_code : (u : Unicode) (s : List Text) → is_code (first_region u s) ≡ true
unfolding first_region to_lower is_ascii
first_region-is_code u [] = refl
first_region-is_code u ([] ∷ rest) = unfold is_alpha2 in refl
first_region-is_code u ((a ∷ []) ∷ rest) = unfold is_alpha2 in refl
first_region-is_code u ((a ∷ b ∷ []) ∷ rest) =
    unfold is_alpha2 is_ascii_alpha lower_byte in ground arith
first_region-is_code u ((a ∷ b ∷ c ∷ s) ∷ rest) = unfold is_alpha2 in refl

pub region_from_exit_location-is_code :
    (u : Unicode) (s : Text) → is_code (region_from_exit_location u s) ≡ true
unfolding region_from_exit_location
region_from_exit_location-is_code u s = first_region-is_code u (fields u s)

-- Such a region is its own normal form.
pub normalize_code : (u : Unicode) (s : Text) → is_code s ≡ true → normalize_region u s ≡ s
unfolding normalize_region to_lower trim_space is_ascii trim_left is_space lower_byte
normalize_code u [] e = refl
normalize_code u (a ∷ []) e = cc
normalize_code u (a ∷ b ∷ []) e =
    let la : ltb a 128 ≡ true = ground arith in
    let lb : ltb b 128 ≡ true = ground arith in
    let sa : (leb 9 a && leb a 13 || a == 32) ≡ false = ground arith in
    let sb : (leb 9 b && leb b 13 || b == 32) ≡ false = ground arith in
    let ua : is_upper a ≡ false = ground arith in
    let ub : is_upper b ≡ false = ground arith in rw (la, lb, sa, sb, ua, ub) (rw (la, lb) refl)
normalize_code u (a ∷ b ∷ c ∷ s) e = cc
