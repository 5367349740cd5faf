-- ===== src/GoText/Decimal.antt =====
-- `%d` of Go's fmt.
use geo_proxy.Common.{
  ℕ, zero, suc, ◌+◌, ◌*◌, ◌/◌, ◌%◌, ◌<◌, ◌≡◌, refl, ap, ◌∙◌, true, false, [], ◌∷◌, ◌++◌, ◌==◌, ◌-◌,
  ◌&&◌, leb, if◌then◌else◌, arith, Bool-cases, inl, inr,
}
use geo_proxy.Common.Int.{ℤ, pos, negsuc}
use geo_proxy.Common.Key.{Text}

-- The digits of a number before `acc`. A number below the fuel runs to its end.
unfoldable pub digits_before : ℕ → ℕ → Text → Text
digits_before zero n acc = acc
digits_before (suc fuel) n acc =
    let acc' : Text = (b'0' + n % 10) ∷ acc in
    elim (n / 10 == 0) [ true ↦ acc' | false ↦ digits_before fuel (n / 10) acc' ]

unfoldable pub decimal_ℕ : ℕ → Text
decimal_ℕ n = digits_before (suc n) n []

unfoldable pub decimal : ℤ → Text
decimal (pos n) = decimal_ℕ n
decimal (negsuc n) = b'-' ∷ decimal_ℕ (suc n)

-- The number that the leading digits of a text continue.
pub read_digits : ℕ → Text → ℕ
read_digits v [] = v
read_digits v (b ∷ s) =
    let more = read_digits (v * 10 + (b - b'0')) s in if leb b'0' b && leb b b'9' then more else v

pub read_int : Text → ℤ
unfolding read_digits
read_int [] = pos 0
read_int (b ∷ s) = if b == b'-' then negsuc (read_digits 0 s - 1) else pos (read_digits 0 (b ∷ s))

read-digits_before :
    (fuel n : ℕ) (acc : Text)
    → n < fuel
    → read_digits 0 (digits_before fuel n acc) ≡ read_digits n acc
unfolding read_digits digits_before
read-digits_before zero n acc h = absurd (omega arith)
read-digits_before (suc fuel) n acc h = elim (Bool-cases (n / 10 == 0)) [
  | inl z ↦ let e : n % 10 ≡ n = ground arith in ground (arith, ap (λ k. read_digits k acc) e)
  | inr z ↦
      let e : n / 10 * 10 + n % 10 ≡ n = omega arith in
      ground (
        arith,
        read-digits_before fuel (n / 10) ((b'0' + n % 10) ∷ acc) (ground arith),
        ap (λ k. read_digits k acc) e,
      )
]

digits_before-append :
    (fuel n : ℕ) (acc t : Text) → digits_before fuel n acc ++ t ≡ digits_before fuel n (acc ++ t)
unfolding digits_before
digits_before-append zero n acc t = refl
digits_before-append (suc fuel) n acc t =
    ground (arith, digits_before-append fuel (n / 10) ((b'0' + n % 10) ∷ acc) t)

-- The first digit is no sign.
read_int-digits_before :
    (fuel n : ℕ) (acc : Text)
    → read_int (digits_before (suc fuel) n acc)
      ≡ pos (read_digits 0 (digits_before (suc fuel) n acc))
unfolding digits_before read_int
read_int-digits_before zero n acc = ground arith
read_int-digits_before (suc fuel) n acc =
    ground (arith, read_int-digits_before fuel (n / 10) ((b'0' + n % 10) ∷ acc))

read-decimal_ℕ : (n : ℕ) (t : Text) → read_digits 0 (decimal_ℕ n ++ (b'\\' ∷ t)) ≡ n
unfolding decimal_ℕ
read-decimal_ℕ n t =
    rw (digits_before-append (suc n) n [] (b'\\' ∷ t))
      (read-digits_before (suc n) n (b'\\' ∷ t) (omega arith) ∙ unfold read_digits in refl)

read_int-decimal_ℕ :
    (n : ℕ) (t : Text) → read_int (decimal_ℕ n ++ t) ≡ pos (read_digits 0 (decimal_ℕ n ++ t))
unfolding decimal_ℕ
read_int-decimal_ℕ n t = rw (digits_before-append (suc n) n [] t) (read_int-digits_before n n t)

-- A decimal integer that a backslash follows is read back.
pub read_int-decimal : (z : ℤ) (t : Text) → read_int (decimal z ++ (b'\\' ∷ t)) ≡ z
unfolding decimal
read_int-decimal (pos n) t = read_int-decimal_ℕ n (b'\\' ∷ t) ∙ ap pos (read-decimal_ℕ n t)
read_int-decimal (negsuc n) t = unfold read_int in ground (arith, read-decimal_ℕ (suc n) t)

decimal_runs : decimal (negsuc 1039) ≡ b'-' ∷ b'1' ∷ b'0' ∷ b'4' ∷ b'0' ∷ []
unfolding decimal decimal_ℕ digits_before
decimal_runs = refl
