-- ===== src/Selector/Hash.antt =====
-- The session hash of selector/selector.go: FNV-1a over 64-bit words, and the final mixing.
pub mod Identity
use geo_proxy.Common.{
  ℕ, zero, suc, ◌+◌, ◌*◌, ◌/◌, ◌%◌, ◌^◌, bit_xor, Bool, true, false, [], ◌∷◌, ◌++◌, ◌==◌, ltb,
  if◌then◌else◌,
}
use geo_proxy.Common.Int.{ℤ, pos, negsuc, eq_ℤ}
use geo_proxy.Common.Key.{Text}
use geo_proxy.GoText.{codes}
use geo_proxy.GoText.Decimal.{decimal}
use geo_proxy.Storage.{Proxy}
use geo_proxy.Selector.{is_empty}

abbrev pub u64_mod : ℕ
u64_mod = 2 ^ 64

abbrev pub session_fnv64_offset : ℕ
session_fnv64_offset = 14695981039346656037

abbrev pub session_fnv64_prime : ℕ
session_fnv64_prime = 1099511628211

unfoldable pub session_fnv_write_byte : ℕ → ℕ → ℕ
session_fnv_write_byte hash value = bit_xor hash value * session_fnv64_prime % u64_mod

unfoldable pub session_fnv_write_string : ℕ → Text → ℕ
unfolding session_fnv_write_byte
session_fnv_write_string hash [] = hash
session_fnv_write_string hash (b ∷ s) = session_fnv_write_string (session_fnv_write_byte hash b) s

-- `for magnitude > 0 { index--; digits[index] = …; magnitude /= 10 }`: the buffer's free cells are
-- the fuel, its filled part is the list.
pub fill_digits : ℕ → ℕ → Text → Text
fill_digits zero magnitude digits = digits
fill_digits (suc free) magnitude digits = elim (magnitude == 0) [
  | true ↦ digits
  | false ↦ fill_digits free (magnitude / 10) ((b'0' + magnitude % 10) ∷ digits)
]

-- The digits that the buffer of 20 bytes holds in the end.
pub buffer_digits : ℕ → Text
unfolding fill_digits
buffer_digits magnitude = if magnitude == 0 then b'0' ∷ [] else fill_digits 20 magnitude []

-- `value` as -(n + 1) has the magnitude -(value + 1) + 1, which is n + 1.
unfoldable pub session_fnv_write_int64 : ℕ → ℤ → ℕ
unfolding buffer_digits session_fnv_write_string
session_fnv_write_int64 hash (pos n) = session_fnv_write_string hash (buffer_digits n)
session_fnv_write_int64 hash (negsuc n) =
    session_fnv_write_string (session_fnv_write_byte hash b'-') (buffer_digits (n + 1))

unfoldable pub session_hash_seed : Text → ℕ
unfolding session_fnv_write_string
session_hash_seed session =
    session_fnv_write_byte (session_fnv_write_string session_fnv64_offset session) 0

unfoldable pub session_proxy_hash : ℕ → Proxy → ℕ
unfolding session_fnv_write_int64 is_empty
session_proxy_hash seed p =
    if eq_ℤ p.id (pos 0)
    then (if is_empty p.node_key
        then session_fnv_write_string (session_fnv_write_string seed (codes "address:")) p.address
        else session_fnv_write_string (session_fnv_write_string seed (codes "key:")) p.node_key)
    else session_fnv_write_int64 (session_fnv_write_string seed (codes "id:")) p.id

unfoldable pub mix_session_hash : ℕ → ℕ
mix_session_hash value =
    let a = bit_xor value (value / 2 ^ 30) in
    let b = a * 0xbf58476d1ce4e5b9 % u64_mod in
    let c = bit_xor b (b / 2 ^ 27) in
    let d = c * 0x94d049bb133111eb % u64_mod in bit_xor d (d / 2 ^ 31)

unfoldable pub session_proxy_identity : Proxy → Text
unfolding is_empty
session_proxy_identity p =
    if eq_ℤ p.id (pos 0)
    then (if is_empty p.node_key then codes "address:" ++ p.address else codes "key:" ++ p.node_key)
    else codes "id:" ++ decimal p.id

-- The separator of the source is a backslash and `x00`, four characters.
unfoldable pub session_proxy_tie_key : Proxy → Text
unfolding session_proxy_identity
session_proxy_tie_key p =
    session_proxy_identity p
    ++ (codes "\\x00"
        ++ (p.node_key ++ (codes "\\x00" ++ (p.address ++ (codes "\\x00" ++ decimal p.id)))))
