-- ===== src/Auth/Credentials.antt =====
-- auth/credentials.go. `sha256_hex` is SHA-256 printed in hexadecimal; a comparison in constant time
-- is equality.
use geo_proxy.Common.{◌≡◌, Bool, false, ◌&&◌, not, []}
use geo_proxy.Common.{if◌then◌else◌, length, ◌==◌, arith}
use geo_proxy.Common.Key.{Text, text_eq, text_eq_iff}

verify_plain_password : Text → Text → Text → Text → Bool
verify_plain_password base password expected_base expected_password =
    text_eq base expected_base && text_eq password expected_password

module _ (sha256_hex : Text → Text) where
  verify_password_hash : Text → Text → Text → Text → Bool
  verify_password_hash base password expected_base expected_hash =
      text_eq base expected_base && text_eq (sha256_hex password) expected_hash

  pub verify_password : Text → Text → Text → Text → Text → Bool
  unfolding verify_password_hash verify_plain_password
  verify_password base password expected_base expected_password expected_hash =
      if not (length expected_hash == 0)
      then verify_password_hash base password expected_base expected_hash
      else verify_plain_password base password expected_base expected_password

  -- For a password whose hash is not empty and is shared by no other password that is tried: to keep
  -- its hash in place of the password, whatever plain password is left beside it, changes no answer.
  pub verify_password-hashed :
      (base password expected_base expected_password left : Text)
      → (length (sha256_hex expected_password) == 0) ≡ false
      → (sha256_hex password ≡ sha256_hex expected_password → password ≡ expected_password)
      → verify_password base password expected_base left (sha256_hex expected_password)
        ≡ verify_password base password expected_base expected_password []
  unfolding verify_password
  verify_password-hashed base password expected_base expected_password left solid apart = ground (
    arith,
    solid,
    text_eq_iff (sha256_hex password) (sha256_hex expected_password),
    text_eq_iff password expected_password,
    apart,
    refl_hash password expected_password,
  )
    where
      refl_hash : (p q : Text) → p ≡ q → sha256_hex p ≡ sha256_hex q
      refl_hash p q e = cc
