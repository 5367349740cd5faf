-- ===== src/Storage/Manual/Added.antt =====
-- What `AddProxyWithSource` of storage/proxy_methods.go stores, `GetProxyByIdentity` finds.
use geo_proxy.Common.{
  ◌≡◌, refl, Bool, true, false, ◌&&◌, List, [], ◌∷◌, ◌++◌, if◌then◌else◌, ltb, arith, Bool-cases,
  inl, inr,
}
use geo_proxy.Common.Int.{ℤ, pos, eq_ℤ, eq_ℤ_iff, leb_ℤ}
use geo_proxy.Common.Key.{Text, text_eq, text_eq_iff}
use geo_proxy.Storage.{Proxy}
use geo_proxy.Storage.Table.{
  Row, Database, Reply, done, failed, source_manual, source_subscription, update_where, count_rows,
  first_where,
}
use geo_proxy.Storage.Lookup.{proxy_of, get_proxy_by_identity}
use geo_proxy.Storage.Manual.{
  new_row, has_identity, upsert, with_source, add_owned, add_proxy_with_source,
}

-- The node that a query finds passes the tests.
abbrev pub Finds : (Proxy → Bool) → Reply Proxy → Type 0
Finds P (done p) = P p ≡ true
Finds P (failed e) = ⊥

module _ (P : Proxy → Bool) (test : Row → Bool) (set : Row → Row)
    (keep : (r : Row) → test (set r) ≡ test r)
    (right : (r : Row) → test r ≡ true → P (set r).proxy ≡ true) where
  first_updated :
      (rows : List Row)
      → ltb 0 (count_rows test rows) ≡ true
      → Finds P (proxy_of (first_where test (update_where test set rows)))
  unfolding count_rows first_where update_where proxy_of
  first_updated [] e = ground (arith, e)
  first_updated (r ∷ rows) e = elim (Bool-cases (test r)) [
    | inl h ↦ rw h (rw (keep r, h) (right r h))
    | inr h ↦ rw h (rw h (first_updated rows (ground (arith, h, e))))
  ]

first_added :
    (P : Proxy → Bool) (test : Row → Bool) (new : Row) (rows : List Row)
    → test new ≡ true
    → P new.proxy ≡ true
    → ltb 0 (count_rows test rows) ≡ false
    → Finds P (proxy_of (first_where test (rows ++ (new ∷ []))))
unfolding count_rows first_where proxy_of
first_added P test new [] e p h = rw e p
first_added P test new (r ∷ rows) e p h = elim (Bool-cases (test r)) [
  | inl f ↦ ground (arith, f, h)
  | inr f ↦ rw f (first_added P test new rows e p (ground (arith, f, h)))
]

module _ (address protocol source : Text) where
  abbrev stored : ℤ → Proxy → Bool
  stored owner p =
      text_eq p.address address
      && text_eq p.source source
      && eq_ℤ p.subscription_id owner
      && text_eq p.protocol protocol

  upserted :
      (owner : ℤ) (db : Database)
      → Finds (stored owner) (
          proxy_of (
            first_where
              (has_identity address source owner)
              (upsert
                (with_source protocol)
                (new_row db.next_id db.now address protocol source owner)
                db).proxies))
  unfolding upsert has_identity with_source new_row
  upserted owner db =
      let same = λ (r : Row).
        text_eq r.proxy.address address
        && text_eq r.proxy.source source
        && eq_ℤ r.proxy.subscription_id owner in
      elim (Bool-cases (ltb 0 (count_rows same db.proxies))) [
        | inl there ↦ rw there (
            first_updated (stored owner) same (with_source protocol) (λ r. refl)
              (λ r e. ground (arith, e, text_eq_iff protocol protocol)) db.proxies there)
        | inr fresh ↦ rw fresh (
            first_added (stored owner) same
              (new_row db.next_id db.now address protocol source owner) db.proxies
              (ground (
                arith,
                text_eq_iff address address,
                text_eq_iff source source,
                eq_ℤ_iff owner owner,
              ))
              (ground (
                arith,
                text_eq_iff address address,
                text_eq_iff source source,
                eq_ℤ_iff owner owner,
                text_eq_iff protocol protocol,
              ))
              fresh)
      ]

  -- After a successful add_proxy_with_source, whether it added a row or met an old one, the query for
  -- the address, the source and the subscription finds a node with these and with the protocol (a
  -- manual node has no subscription, whatever the call names).
  pub get_proxy_by_identity-add_proxy_with_source :
      (id : ℤ) (db : Database)
      → (add_proxy_with_source address protocol source id db).0 ≡ done tt
      → Finds (stored (if text_eq source source_manual then pos 0 else id)) (
          get_proxy_by_identity
            (add_proxy_with_source address protocol source id db).1
            address
            source
            id)
  unfolding add_proxy_with_source add_owned get_proxy_by_identity
  get_proxy_by_identity-add_proxy_with_source id db e =
      let owner = if text_eq source source_manual then pos 0 else id in
      elim (Bool-cases (text_eq source source_subscription && leb_ℤ owner (pos 0))) [
        | inl refused ↦ ground (arith, refused, e)
        | inr accepted ↦ rw accepted (unfold has_identity in upserted owner db)
      ]
