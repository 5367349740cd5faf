-- ===== src/Common/Assoc/Counting.antt =====
-- How many entries of a map with distinct keys pass a test.
use Prim.Native.Nat.{ℕ, suc, ◌+◌}
use mathlib.Core.Path.{◌≡◌, refl}
use mathlib.Core.Logic.{inl, inr}
use mathlib.Core.Bool.{Bool, true, false}
use mathlib.Core.List.{[], ◌∷◌}
use mathlib.Core.Option.{Option, none, some}
use native.Mathlib.Omega.{arith}
use geo_proxy.Common.Tests.{if◌then◌else◌, is_some, Bool-cases}
use geo_proxy.Common.Lists.{length}
use geo_proxy.Common.Key.{Key}
use geo_proxy.Common.Assoc.{Map, lookup, delete, Distinct, lookup-delete, delete-Distinct}

module _ {ℓ κ} {K : Type ℓ} {V : Type κ} where
  abbrev pub count_where : (V → Bool) → Map K V → ℕ
  count_where test [] = 0
  count_where test ((k, v) ∷ m) = (if test v then 1 else 0) + count_where test m

abbrev pub passes {κ} : {V : Type κ} → (V → Bool) → Option V → Bool
passes test none = false
passes test (some v) = test v

module _ {ℓ κ} {K : Type ℓ} {V : Type κ} ⦃key : Key K⦄ where
  pub delete_absent : (k : K) (m : Map K V) → lookup k m ≡ none → delete k m ≡ m
  unfolding lookup delete
  delete_absent k [] h = refl
  delete_absent k ((j, v) ∷ m) h = ground (arith, delete_absent k m)

  -- The entry that is deleted leaves the count, if it passed.
  pub count_where-delete :
      (test : V → Bool) (k : K) (m : Map K V)
      → Distinct m
      → count_where test (delete k m) + (if passes test (lookup k m) then 1 else 0)
        ≡ count_where test m
  unfolding lookup delete
  count_where-delete test k [] d = ground arith
  count_where-delete test k ((j, v) ∷ m) d =
      ground (arith, key.eqb_iff j k, count_where-delete test k m d.1, delete_absent k m)

  pub length-delete :
      (k : K) (m : Map K V)
      → Distinct m
      → is_some (lookup k m) ≡ true
      → length m ≡ suc (length (delete k m))
  unfolding lookup delete
  length-delete k [] d h = ground arith
  length-delete k ((j, v) ∷ m) d h =
      ground (arith, key.eqb_iff j k, length-delete k m d.1, delete_absent k m)

module _ {ℓ ι} {K : Type ℓ} {W : Type ι} ⦃key : Key K⦄ where
  no_keys : (a : Map K W) → ((k : K) → is_some (lookup k a) ≡ false) → length a ≡ 0
  unfolding lookup
  no_keys [] h = refl
  no_keys ((k, w) ∷ a) h = ground (arith, h k, key.eqb_iff k k)

module _ {ℓ κ ι} {K : Type ℓ} {V : Type κ} {W : Type ι} ⦃key : Key K⦄ where
  -- A map whose keys are those of the entries of `b` that pass has as many entries.
  pub length-count_where :
      (test : V → Bool) (a : Map K W) (b : Map K V)
      → Distinct a
      → Distinct b
      → ((k : K) → is_some (lookup k a) ≡ passes test (lookup k b))
      → length a ≡ count_where test b
  unfolding lookup
  length-count_where test a [] da db h = no_keys a h
  length-count_where test a ((j, v) ∷ b) da db h = elim (Bool-cases (test v)) [
    | inl t ↦ ground (
      arith,
      h j,
      key.eqb_iff j j,
      length-delete j a da,
      length-count_where test (delete j a) b (delete-Distinct j a da) db.1
          (λ k. ground (arith, h k, lookup-delete j k a, key.eqb_iff j k)),
    )
    | inr f ↦
        ground
          (arith, length-count_where test a b da db.1 (λ k. ground (arith, h k, key.eqb_iff j k)))
  ]

module _ {ℓ κ} {K : Type ℓ} {V : Type κ} ⦃key : Key K⦄ where
  count_none :
      (f : V → Bool) (a : Map K V)
      → Distinct a
      → ((k : K) → passes f (lookup k a) ≡ false)
      → count_where f a ≡ 0
  unfolding lookup
  count_none f [] d h = refl
  count_none f ((j, v) ∷ a) d h =
      ground (
        arith,
        h j,
        key.eqb_iff j j,
        count_none f a d.1 (λ k. ground (arith, h k, key.eqb_iff j k)),
      )

  -- Two maps of which the same keys pass count alike.
  pub count_where_agree :
      (f g : V → Bool) (a b : Map K V)
      → Distinct a
      → Distinct b
      → ((k : K) → passes f (lookup k a) ≡ passes g (lookup k b))
      → count_where f a ≡ count_where g b
  unfolding lookup
  count_where_agree f g a [] da db h = count_none f a da h
  count_where_agree f g a ((j, v) ∷ b) da db h = ground (
    arith,
    h j,
    key.eqb_iff j j,
    count_where-delete f j a da,
    count_where_agree f g (delete j a) b (delete-Distinct j a da) db.1
        (λ k. ground (arith, h k, lookup-delete j k a, key.eqb_iff j k)),
  )
