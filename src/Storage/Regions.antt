-- ===== src/Storage/Regions.antt =====
-- The texts of storage/regions.go and the grades of storage/proxy_updates.go.
pub mod Codes
use geo_proxy.Common.{◌≡◌, Bool, true, false, ◌&&◌, List, [], ◌∷◌, if◌then◌else◌}
use geo_proxy.Common.Int.{ℤ, pos, leb_ℤ}
use geo_proxy.Common.Key.{Text, text_eq}
use geo_proxy.GoText.{Unicode, codes, to_lower, trim_space, fields}
use geo_proxy.Auth.{is_ascii_alpha}

unfoldable pub normalize_region : Unicode → Text → Text
normalize_region u region = to_lower u (trim_space u region)

unfoldable pub normalize_protocol : Unicode → Text → Text
normalize_protocol u protocol = to_lower u (trim_space u protocol)

-- `alpha2RegionPattern`: two ASCII letters.
unfoldable pub is_alpha2 : Text → Bool
unfolding is_ascii_alpha
is_alpha2 (a ∷ b ∷ []) = is_ascii_alpha a && is_ascii_alpha b
is_alpha2 _ = false

unfoldable pub normalize_manual_region : Unicode → Text → Text
normalize_manual_region u region =
    let normalized = normalize_region u region in if is_alpha2 normalized then normalized else []

first_region : Unicode → List Text → Text
first_region u [] = []
first_region u (field ∷ rest) = if is_alpha2 field then to_lower u field else []

unfoldable pub region_from_exit_location : Unicode → Text → Text
unfolding first_region
region_from_exit_location u exit_location = first_region u (fields u exit_location)

unfoldable pub calculate_quality_grade : ℤ → Text
calculate_quality_grade latency =
    if leb_ℤ latency (pos 200)
    then codes "S"
    else if leb_ℤ latency (pos 500)
    then codes "A"
    else if leb_ℤ latency (pos 1000)
    then codes "B"
    else if leb_ℤ latency (pos 2000)
    then codes "C"
    else codes "D"

unfoldable pub dual_supports_inbound_protocol : Text → Bool
dual_supports_inbound_protocol protocol =
    let http = text_eq protocol (codes "http") in
    if http then true else text_eq protocol (codes "socks5")
