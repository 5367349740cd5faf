-- ===== src/Selector/Hash/Identity.antt =====
-- The hash of a node is the hash of its identity text, though the code builds no text.
use geo_proxy.Common.{
  ℕ, zero, suc, ◌+◌, ◌*◌, ◌/◌, ◌%◌, ◌^◌, ◌≤◌, ◌<◌, ◌≡◌, refl, ap, true, false, [], ◌∷◌, ◌++◌, ◌==◌,
  arith, Bool-cases, inl, inr,
}
use geo_proxy.Common.Int.{ℤ, pos, negsuc, neg_part, pos_part}
use geo_proxy.Common.Key.{Text}
use geo_proxy.GoText.{codes}
use geo_proxy.GoText.Decimal.{digits_before, decimal_ℕ, decimal}
use geo_proxy.Storage.{Proxy}
use geo_proxy.Selector.Hash.{
  session_fnv_write_string, session_fnv_write_byte, fill_digits, buffer_digits,
  session_fnv_write_int64, session_proxy_hash, session_proxy_identity,
}

pub write_string-append :
    (h : ℕ) (s t : Text)
    → session_fnv_write_string h (s ++ t)
      ≡ session_fnv_write_string (session_fnv_write_string h s) t
unfolding session_fnv_write_string
write_string-append h [] t = refl
write_string-append h (b ∷ s) t = write_string-append (session_fnv_write_byte h b) s t

abbrev pow10 : ℕ → ℕ
pow10 zero = 1
pow10 (suc n) = 10 * pow10 n

fill-zero : (free : ℕ) (acc : Text) → fill_digits free 0 acc ≡ acc
unfolding fill_digits
fill-zero zero acc = refl
fill-zero (suc free) acc = refl

last_digit : (m : ℕ) → (m / 10 == 0) ≡ true → m / 10 ≡ 0
last_digit m z = ground arith

-- Enough free cells and enough fuel give the same digits.
fill-digits_before :
    (free fuel m : ℕ) (acc : Text)
    → 0 < m
    → m < pow10 free
    → m < fuel
    → fill_digits free m acc ≡ digits_before fuel m acc
unfolding fill_digits digits_before
fill-digits_before zero fuel m acc p a b = absurd (omega arith)
fill-digits_before (suc free) zero m acc p a b = absurd (omega arith)
fill-digits_before (suc free) (suc fuel) m acc p a b = elim (Bool-cases (m / 10 == 0)) [
  | inl z ↦
      let rest : Text = (b'0' + m % 10) ∷ acc in
      ground (arith, fill-zero free rest, ap (λ k. fill_digits free k rest) (last_digit m z))
  | inr z ↦
      let rest : Text = (b'0' + m % 10) ∷ acc in
      ground (
        arith,
        fill-digits_before free fuel (m / 10) rest (ground arith) (omega arith) (omega arith),
      )
]

buffer-decimal : (n : ℕ) → n < pow10 20 → buffer_digits n ≡ decimal_ℕ n
unfolding buffer_digits decimal_ℕ
buffer-decimal zero h = unfold digits_before in refl
buffer-decimal (suc n) h =
    let e : (suc n == 0) ≡ false = ground arith in
    rw e (fill-digits_before 20 (suc (suc n)) (suc n) [] (omega arith) h (omega arith))

-- The range of Go's int64.
abbrev pub IsInt64 : ℤ → Type 0
IsInt64 z = (pos_part z < 2 ^ 63) × (neg_part z ≤ 2 ^ 63)

write_int64-decimal :
    (h : ℕ) (z : ℤ)
    → IsInt64 z
    → session_fnv_write_int64 h z ≡ session_fnv_write_string h (decimal z)
unfolding session_fnv_write_int64 decimal session_fnv_write_string
write_int64-decimal h (pos n) r = rw (buffer-decimal n (omega arith))
write_int64-decimal h (negsuc n) r =
    let e : n + 1 ≡ suc n = omega arith in rw (e, buffer-decimal (suc n) (omega arith))

-- For every node whose ID is an int64, the hash, which the code computes with no text at hand, is
-- the hash of the node's identity text: "id:" with the decimal ID, else "key:" with the node key,
-- else "address:" with the address. So the buffer of 20 digits is large enough for every ID.
pub session_proxy_hash-identity :
    (seed : ℕ) (p : Proxy)
    → IsInt64 p.id
    → session_proxy_hash seed p ≡ session_fnv_write_string seed (session_proxy_identity p)
unfolding session_proxy_hash session_proxy_identity
session_proxy_hash-identity seed p r = ground (
  arith,
  write_string-append seed (codes "address:") p.address,
  write_string-append seed (codes "key:") p.node_key,
  write_string-append seed (codes "id:") (decimal p.id),
  write_int64-decimal (session_fnv_write_string seed (codes "id:")) p.id r,
)
