-- ===== src/Storage/Table/Keeping.antt =====
-- What the statements of storage/ on one table keep: tests that hold of every row, and keys that no
-- two rows share.
use geo_proxy.Common.{
  ◌≡◌, refl, Bool, true, false, not, List, [], ◌∷◌, ◌++◌, ltb, all_of, distinct, map, arith,
  Bool-cases, inl, inr,
}
use geo_proxy.Storage.Table.{update_where, delete_where, count_rows}

module _ {A : Type 0} where
  pub all_of-append :
      (P : A → Bool) (xs : List A) (x : A)
      → all_of P xs ≡ true
      → P x ≡ true
      → all_of P (xs ++ (x ∷ [])) ≡ true
  all_of-append P [] x h e = ground arith
  all_of-append P (y ∷ xs) x h e = ground (arith, all_of-append P xs x)

  pub distinct-append :
      (same : A → A → Bool) (xs : List A) (x : A)
      → distinct same xs ≡ true
      → all_of (λ y. not (same x y)) xs ≡ true
      → distinct same (xs ++ (x ∷ [])) ≡ true
  distinct-append same [] x h e = refl
  distinct-append same (y ∷ xs) x h e =
      ground (arith, distinct-append same xs x, all_of-append (λ z. not (same z y)) xs x)

  pub all_of-update_where :
      (P : A → Bool) (test : A → Bool) (set : A → A) (xs : List A)
      → ((x : A) → test x ≡ true → P x ≡ true → P (set x) ≡ true)
      → all_of P xs ≡ true
      → all_of P (update_where test set xs) ≡ true
  unfolding update_where
  all_of-update_where P test set [] keep h = refl
  all_of-update_where P test set (x ∷ xs) keep h = elim (Bool-cases (test x)) [
    | inl e ↦ rw e (ground (arith, all_of-update_where P test set xs keep, keep x e))
    | inr e ↦ rw e (ground (arith, all_of-update_where P test set xs keep))
  ]

  -- What an UPDATE makes true of every row.
  pub all_of-updated :
      (P Q : A → Bool) (test : A → Bool) (set : A → A) (xs : List A)
      → ((x : A) → test x ≡ true → P x ≡ true → Q (set x) ≡ true)
      → ((x : A) → test x ≡ false → P x ≡ true → Q x ≡ true)
      → all_of P xs ≡ true
      → all_of Q (update_where test set xs) ≡ true
  unfolding update_where
  all_of-updated P Q test set [] hit miss h = refl
  all_of-updated P Q test set (x ∷ xs) hit miss h = elim (Bool-cases (test x)) [
    | inl e ↦ rw e (ground (arith, all_of-updated P Q test set xs hit miss, hit x e))
    | inr e ↦ rw e (ground (arith, all_of-updated P Q test set xs hit miss, miss x e))
  ]

  pub all_of-delete_where :
      (P : A → Bool) (test : A → Bool) (xs : List A)
      → all_of P xs ≡ true
      → all_of P (delete_where test xs) ≡ true
  unfolding delete_where
  all_of-delete_where P test [] h = refl
  all_of-delete_where P test (x ∷ xs) h = elim (Bool-cases (test x)) [
    | inl e ↦ rw e (ground (arith, all_of-delete_where P test xs))
    | inr e ↦ rw e (ground (arith, all_of-delete_where P test xs))
  ]

  pub all_of-not :
      (test : A → Bool) (xs : List A)
      → ltb 0 (count_rows test xs) ≡ false
      → all_of (λ x. not (test x)) xs ≡ true
  unfolding count_rows
  all_of-not test [] h = refl
  all_of-not test (x ∷ xs) h = elim (Bool-cases (test x)) [
    | inl e ↦ ground (arith, e)
    | inr e ↦ ground (arith, e, all_of-not test xs)
  ]

  pub count_rows-none :
      (test : A → Bool) (xs : List A)
      → all_of (λ x. not (test x)) xs ≡ true
      → count_rows test xs ≡ 0
  unfolding count_rows
  count_rows-none test [] h = refl
  count_rows-none test (x ∷ xs) h = ground (arith, count_rows-none test xs)

  pub all_of-imp :
      (P Q : A → Bool) (xs : List A)
      → ((x : A) → P x ≡ true → Q x ≡ true)
      → all_of P xs ≡ true
      → all_of Q xs ≡ true
  all_of-imp P Q [] imp h = refl
  all_of-imp P Q (x ∷ xs) imp h = ground (arith, imp x, all_of-imp P Q xs imp)

module _ {A K : Type 0} (key : A → K) where
  -- An UPDATE that leaves a column alone leaves that column of the table.
  pub map-update_where :
      (test : A → Bool) (set : A → A) (xs : List A)
      → ((x : A) → key (set x) ≡ key x)
      → map key (update_where test set xs) ≡ map key xs
  unfolding update_where
  map-update_where test set [] keep = refl
  map-update_where test set (x ∷ xs) keep = elim (Bool-cases (test x)) [
    | inl e ↦ rw (e, keep x, map-update_where test set xs keep) refl
    | inr e ↦ rw (e, map-update_where test set xs keep) refl
  ]

  pub all_of-map-delete_where :
      (P : K → Bool) (test : A → Bool) (xs : List A)
      → all_of P (map key xs) ≡ true
      → all_of P (map key (delete_where test xs)) ≡ true
  unfolding delete_where
  all_of-map-delete_where P test [] h = refl
  all_of-map-delete_where P test (x ∷ xs) h = elim (Bool-cases (test x)) [
    | inl e ↦ rw e (ground (arith, all_of-map-delete_where P test xs))
    | inr e ↦ rw e (ground (arith, all_of-map-delete_where P test xs))
  ]

  pub distinct-map-delete_where :
      (same : K → K → Bool) (test : A → Bool) (xs : List A)
      → distinct same (map key xs) ≡ true
      → distinct same (map key (delete_where test xs)) ≡ true
  unfolding delete_where
  distinct-map-delete_where same test [] h = refl
  distinct-map-delete_where same test (x ∷ xs) h = elim (Bool-cases (test x)) [
    | inl e ↦ rw e (ground (arith, distinct-map-delete_where same test xs))
    | inr e ↦ rw e (
        ground (
          arith,
          distinct-map-delete_where same test xs,
          all_of-map-delete_where (λ y. not (same y (key x))) test xs,
        ))
  ]

  pub all_of-map : (P : K → Bool) (xs : List A) → all_of P (map key xs) ≡ all_of (λ x. P (key x)) xs
  all_of-map P [] = refl
  all_of-map P (x ∷ xs) = rw (all_of-map P xs) refl

  pub map-append : (xs : List A) (x : A) → map key (xs ++ (x ∷ [])) ≡ map key xs ++ (key x ∷ [])
  map-append [] x = refl
  map-append (y ∷ xs) x = rw (map-append xs x) refl
