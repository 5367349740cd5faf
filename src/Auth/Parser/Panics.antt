-- ===== src/Auth/Parser/Panics.antt =====
-- Where the parser of auth/dsl.go panics.
use geo_proxy.Common.{
  ℕ, zero, suc, ◌≤◌, ◌<◌, drop, ◌≡◌, ◌↔◌, refl, Bool, true, ◌⊎◌, not, ◌==◌, none, some, all_of,
  length-append, List, [], ◌∷◌, ◌++◌, Option, arith, inl, inr, length, take,
}
use geo_proxy.Common.Key.{Text}
use geo_proxy.GoText.{Unicode, codes, has_prefix}
use geo_proxy.Auth.{panic, value_end, index, first_marker, split_value}
use geo_proxy.Auth.Parser.{parse_node, parse_node_key, key_value, key_pin, parse_username}

pub length-take : (n : ℕ) (s : Text) → n ≤ length s → length (take n s) ≡ n
length-take zero s h = refl
length-take (suc n) [] h = absurd (omega arith)
length-take (suc n) (b ∷ s) h = omega (arith, length-take n s)

pub first_marker-le : (positions : List (Option ℕ)) (n : ℕ) → first_marker positions n ≤ n
unfolding first_marker
first_marker-le [] n = omega arith
first_marker-le (p ∷ positions) n = ground (arith, first_marker-le positions n)

pub value_end-le : (s : Text) → value_end s ≤ length s
unfolding value_end
value_end-le s =
    first_marker-le
      (index s (codes "-region-")
        ∷ index s (codes "-unlock-")
        ∷ index s (codes "-session-")
        ∷ index s (codes "-node-")
        ∷ [])
      (length s)

-- A position that is not before `n`.
abbrev pub AtLeast : ℕ → Option ℕ → Type 0
AtLeast n none = Unit
AtLeast n (some p) = n ≤ p

abbrev pub no_dash : Text → Bool
no_dash = all_of (λ b. not (b == b'-'))

-- No marker starts inside a text without a dash.
pub index_skip :
    (base s marker : Text)
    → no_dash base ≡ true
    → AtLeast (length base) (index (base ++ s) (b'-' ∷ marker))
unfolding index has_prefix
index_skip [] s marker h = go (index s (b'-' ∷ marker))
  where
    go : (o : Option ℕ) → AtLeast 0 o
    go none = tt
    go (some p) = omega arith
index_skip (b ∷ base) s marker h = ground (arith, index_skip base s marker)

pub index_here :
    (base s marker : Text)
    → no_dash base ≡ true
    → has_prefix s (b'-' ∷ marker) ≡ true
    → index (base ++ s) (b'-' ∷ marker) ≡ some (length base)
unfolding index has_prefix
index_here [] [] marker h p = cc
index_here [] (c ∷ s) marker h p = ground arith
index_here (b ∷ base) s marker h p = ground (arith, index_here base s marker)

pub smallest :
    (n m : ℕ) (p q r t : Option ℕ)
    → AtLeast n p
    → AtLeast n q
    → AtLeast n r
    → AtLeast n t
    → n ≤ m
    → (p ≡ some n) ⊎ (t ≡ some n)
    → first_marker (p ∷ q ∷ r ∷ t ∷ []) m ≡ n
unfolding first_marker
smallest n m p q r t hp hq hr ht hm here = ground arith

pub le-length : (base s : Text) → length base ≤ length (base ++ s)
le-length base s = omega (arith, length-append base s)

-- The value ends where the first marker starts, if only a text without a dash stands before it.
pub value_end_here :
    (base s : Text)
    → no_dash base ≡ true
    → (has_prefix s (codes "-region-") ≡ true) ⊎ (has_prefix s (codes "-node-") ≡ true)
    → value_end (base ++ s) ≡ length base
unfolding value_end
value_end_here base s h here =
    smallest (length base) (length (base ++ s)) _ _ _ _ (index_skip base s (codes "region-") h)
      (index_skip base s (codes "unlock-") h) (index_skip base s (codes "session-") h)
      (index_skip base s (codes "node-") h) (le-length base s)
      (elim here [
        | inl r ↦ inl (index_here base s (codes "region-") h r)
        | inr n ↦ inr (index_here base s (codes "node-") h n)
      ])

pub take-append : (base s : Text) → take (length base) (base ++ s) ≡ base
take-append [] s = refl
take-append (b ∷ base) s = ground (arith, take-append base s)

pub drop-append : (base s : Text) → drop (length base) (base ++ s) ≡ s
drop-append [] s = refl
drop-append (b ∷ base) s = drop-append base s

module _ (u : Unicode) where
  key_value-ne-panic : (enc rest : Text) → ¬ (key_value u enc rest ≡ panic)
  unfolding key_value key_pin
  key_value-ne-panic enc rest e = ground arith

  -- `parse_node` panics exactly on a text that starts with "key-" and whose value ends, by the
  -- first marker in it, before the fourth byte.
  pub parse_node_panic_iff :
      (raw : Text)
      → (parse_node u raw ≡ panic) ↔ ((has_prefix raw (codes "key-") ≡ true) × (value_end raw < 4))
  unfolding parse_node parse_node_key split_value
  parse_node_panic_iff raw = (
    λ e. ground (
      arith,
      value_end-le raw,
      length-take (value_end raw) raw,
      key_value-ne-panic (drop 4 (take (value_end raw) raw)) (drop (value_end raw) raw),
    ),
    λ h. ground (arith, value_end-le raw, length-take (value_end raw) raw),
  )

  key_region_panic : (s : Text) → parse_node u (codes "key-region-" ++ s) ≡ panic
  key_region_panic s = (parse_node_panic_iff (codes "key-region-" ++ s)).1 (
    unfold has_prefix in refl,
    omega (
      arith,
      value_end_here (codes "key") (codes "-region-" ++ s) refl (inl (unfold has_prefix in refl)),
    ),
  )

  -- Every user name panics that is a base without a dash, the text "-node-key-region-", and anything.
  pub parse_username_panic :
      (b : ℕ) (base s : Text)
      → no_dash (b ∷ base) ≡ true
      → parse_username u ((b ∷ base) ++ (codes "-node-key-region-" ++ s)) ≡ panic
  unfolding parse_username
  parse_username_panic b base s h =
      let tail = codes "-node-key-region-" ++ s in
      rw
        (
          value_end_here (b ∷ base) tail h (inr (unfold has_prefix in refl)),
          take-append (b ∷ base) tail,
          drop-append (b ∷ base) tail,
        )
        (unfold has_prefix in rw (key_region_panic s) (ground arith))
