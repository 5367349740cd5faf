-- ===== src/Storage/Sound/Rekey.antt =====
-- A write that gives one row another identity, as `AddManualProxyWithNodeKey` of storage/manual.go
-- does: the row stays the only one with its identity.
use geo_proxy.Common.{
  ◌≡◌, refl, ap, subst, Bool, true, false, ◌&&◌, ◌||◌, not, List, [], ◌∷◌, if◌then◌else◌, all_of,
  distinct, map, select, arith, Bool-cases, inl, inr,
}
use geo_proxy.Common.Int.{ℤ, eq_ℤ, eq_ℤ_iff}
use geo_proxy.Common.Key.{text_eq_iff}
use geo_proxy.Storage.Table.{Row, update_where}
use geo_proxy.Storage.Table.Keeping.{all_of-imp, all_of-map}
use geo_proxy.Storage.Sound.{Identity, identity_of, same_identity, row_id}

same_identity_sym : (i j : Identity) → same_identity i j ≡ same_identity j i
same_identity_sym i j = ground (
  arith,
  text_eq_iff i.address j.address,
  text_eq_iff j.address i.address,
  text_eq_iff i.source j.source,
  text_eq_iff j.source i.source,
  eq_ℤ_iff i.subscription_id j.subscription_id,
  eq_ℤ_iff j.subscription_id i.subscription_id,
)

-- Of the rows, those that pass the test get the key `k`, which no other row has: it stays distinct if
-- at most one row passes.
module _ (test : Row → Bool) (set : Row → Row) (k : Identity) (i : ℤ) where
  abbrev pub fits : Row → Bool
  fits x =
      if test x
      then eq_ℤ x.proxy.id i && same_identity k (identity_of (set x))
      else not (same_identity k (identity_of x))

  same_identity_to : (j : Identity) → same_identity k j ≡ true → j ≡ k
  same_identity_to j e =
      let address : j.address ≡ k.address = ground (arith, text_eq_iff j.address k.address) in
      let source : j.source ≡ k.source = ground (arith, text_eq_iff j.source k.source) in
      let owner : j.subscription_id ≡ k.subscription_id =
        ground (arith, eq_ℤ_iff j.subscription_id k.subscription_id) in
      cc

  -- After the row that passes, no other does.
  none_left :
      (xs : List Row)
      → all_of fits xs ≡ true
      → all_of (λ y. not (eq_ℤ y i)) (map row_id xs) ≡ true
      → (all_of (λ y. not (same_identity y k)) (map identity_of xs) ≡ true)
        × (map identity_of (update_where test set xs) ≡ map identity_of xs)
  unfolding update_where
  none_left [] h away = (refl, refl)
  none_left (x ∷ xs) h away =
      let (e, tail, this, later) : (test x ≡ false)
          × (all_of fits xs ≡ true)
          × (same_identity k (identity_of x) ≡ false)
          × (all_of (λ y. not (eq_ℤ y i)) (map row_id xs) ≡ true) =
        elim (Bool-cases (test x)) [
          | inl hit ↦ ground (arith, hit)
          | inr miss ↦ (miss, ground (arith, miss), ground (arith, miss), ground arith)
        ] in
      let (fresh, same) = none_left xs tail later in
      (rw (same_identity_sym (identity_of x) k, this) fresh, rw (e, same) refl)

  others_differ :
      (x : Row) (xs : List Row)
      → same_identity k (identity_of x) ≡ false
      → all_of fits xs ≡ true
      → all_of (λ y. not (same_identity y (identity_of x))) (map identity_of xs) ≡ true
      → all_of
          (λ y. not (same_identity y (identity_of x)))
          (map identity_of (update_where test set xs))
        ≡ true
  unfolding update_where
  others_differ x [] this h apart = refl
  others_differ x (y ∷ xs) this h apart =
      let tail : all_of fits xs ≡ true = elim (Bool-cases (test y)) [
        | inl hit ↦ ground (arith, hit)
        | inr miss ↦ ground (arith, miss)
      ] in
      let rest = others_differ x xs this tail (ground arith) in
      elim (Bool-cases (test y)) [
        | inl hit ↦
            let e = same_identity_to (identity_of (set y)) (ground (arith, hit)) in
            rw hit (rw (e, this) rest)
        | inr miss ↦ rw miss (ground (arith, rest))
      ]

  pub update_one-distinct :
      (xs : List Row)
      → all_of fits xs ≡ true
      → distinct eq_ℤ (map row_id xs) ≡ true
      → distinct same_identity (map identity_of xs) ≡ true
      → distinct same_identity (map identity_of (update_where test set xs)) ≡ true
  unfolding update_where
  update_one-distinct [] h ids apart = refl
  update_one-distinct (x ∷ xs) h ids apart = elim (Bool-cases (test x)) [
    | inl hit ↦
        let e = same_identity_to (identity_of (set x)) (ground (arith, hit)) in
        let own : x.proxy.id ≡ i = ground (arith, hit, eq_ℤ_iff x.proxy.id i) in
        let (fresh, same) =
          none_left xs (ground (arith, hit))
            (subst (λ j. all_of (λ y. not (eq_ℤ y j)) (map row_id xs) ≡ true) own (ground arith)) in
        rw hit (rw (e, same) (ground (arith, fresh)))
    | inr miss ↦
        let tail : all_of fits xs ≡ true = ground (arith, miss) in
        rw miss (
          ground (
            arith,
            update_one-distinct xs tail,
            others_differ x xs (ground (arith, miss)) tail (ground arith),
          ))
  ]

module _ (test : Row → Bool) (old : Row) where
  found_has :
      (P : ℤ → Bool) (xs : List Row)
      → all_of P (map row_id xs) ≡ true
      → select test xs ≡ old ∷ []
      → P old.proxy.id ≡ true
  found_has P [] h e = ground (arith, e)
  found_has P (x ∷ xs) h e = elim (Bool-cases (test x)) [
    | inl hit ↦ ground (arith, e, hit)
    | inr miss ↦ found_has P xs (ground arith) (ground (arith, miss, e))
  ]

  -- A row with the ID of the only row that passes is that row.
  pub found_alone :
      (xs : List Row)
      → distinct eq_ℤ (map row_id xs) ≡ true
      → select test xs ≡ old ∷ []
      → all_of (λ x. not (eq_ℤ x.proxy.id old.proxy.id) || test x) xs ≡ true
  found_alone [] ids e = refl
  found_alone (x ∷ xs) ids e = elim (Bool-cases (test x)) [
    | inl hit ↦
        let this : x ≡ old = ground (arith, e, hit) in
        let own : x.proxy.id ≡ old.proxy.id = ap row_id this in
        let others =
          all_of-imp (λ y. not (eq_ℤ y.proxy.id x.proxy.id))
            (λ y. not (eq_ℤ y.proxy.id old.proxy.id) || test y) xs
            (λ y apart.
              ground (arith, eq_ℤ_iff y.proxy.id x.proxy.id, eq_ℤ_iff y.proxy.id old.proxy.id))
            (subst (λ b. b ≡ true) (all_of-map row_id (λ y. not (eq_ℤ y x.proxy.id)) xs)
              (ground arith)) in
        ground (arith, hit, others)
    | inr miss ↦
        let there : select test xs ≡ old ∷ [] = ground (arith, miss, e) in
        ground (
          arith,
          found_alone xs (ground arith) there,
          found_has (λ y. not (eq_ℤ y x.proxy.id)) xs (ground arith) there,
          eq_ℤ_iff x.proxy.id old.proxy.id,
          eq_ℤ_iff old.proxy.id x.proxy.id,
        )
  ]
