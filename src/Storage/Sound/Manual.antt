-- ===== src/Storage/Sound/Manual.antt =====
-- The additions of storage/proxy_methods.go and storage/manual.go keep the invariant of the tables.
use geo_proxy.Common.{
  ℕ, ◌≡◌, refl, Bool, true, false, ◌&&◌, List, [], ◌∷◌, if◌then◌else◌, arith, Bool-cases, inl, inr,
}
use geo_proxy.Common.Int.{ℤ, pos, eq_ℤ, leb_ℤ}
use geo_proxy.Common.Key.{Text, text_eq}
use geo_proxy.GoText.{Unicode}
use geo_proxy.Storage.{Proxy}
use geo_proxy.Storage.Table.{Row, Database, source_manual, source_subscription, required}
use geo_proxy.Storage.Regions.Codes.{LeavesNoUpper, normalize_manual_region-is_code}
use geo_proxy.Storage.Manual.{
  new_row, add_proxy, add_proxies, add_owned, add_proxy_with_source, manual_columns, manual_key,
  add_manual_proxy_exec, add_manual_proxies, with_source,
}
use geo_proxy.Storage.Sound.{IsSound, upsert-IsSound}
use geo_proxy.Storage.Sound.Rows.{same-Kept, with_source-Kept, manual_columns-Kept}

pub required-IsSound : (x : ℕ × Database) → IsSound x.1 → IsSound (required x).1
required-IsSound (n, db) s = s

fresh_row : Text → Text → Text → ℤ → Database → Row
fresh_row address protocol source id db = new_row db.next_id db.now address protocol source id

add_proxy-IsSound :
    (address protocol : Text) (db : Database) → IsSound db → IsSound (add_proxy address protocol db)
unfolding add_proxy fresh_row
add_proxy-IsSound address protocol db s =
    upsert-IsSound (λ r. r) (fresh_row address protocol source_manual (pos 0) db) db same-Kept
      (unfold new_row in refl) (unfold new_row text_eq in refl) (unfold new_row in refl) s

pub add_proxies-IsSound :
    (ps : List Proxy) (db : Database) → IsSound db → IsSound (add_proxies ps db)
unfolding add_proxies
add_proxies-IsSound [] db s = s
add_proxies-IsSound (p ∷ ps) db s =
    add_proxies-IsSound ps _ (add_proxy-IsSound p.address p.protocol db s)

add_owned-IsSound :
    (address protocol source : Text) (id : ℤ) (db : Database)
    → (text_eq source source_manual ≡ true → eq_ℤ id (pos 0) ≡ true)
    → IsSound db
    → IsSound (add_owned address protocol source id db).1
unfolding add_owned fresh_row
add_owned-IsSound address protocol source id db own s =
    elim (Bool-cases (text_eq source source_subscription && leb_ℤ id (pos 0))) [
      | inl e ↦ rw e s
      | inr e ↦ rw e (
          upsert-IsSound (with_source protocol) (fresh_row address protocol source id db) db
            (with_source-Kept protocol) (unfold new_row in refl)
            (unfold new_row in ground (arith, own, e)) (unfold new_row in refl) s)
    ]

own_zero : (b : Bool) (id : ℤ) → b ≡ true → eq_ℤ (if b then pos 0 else id) (pos 0) ≡ true
own_zero true id e = refl
own_zero false id e = ground (arith, e)

pub add_proxy_with_source-IsSound :
    (address protocol source : Text) (id : ℤ) (db : Database)
    → IsSound db
    → IsSound (add_proxy_with_source address protocol source id db).1
unfolding add_proxy_with_source
add_proxy_with_source-IsSound address protocol source id db s =
    add_owned-IsSound address protocol source _ db (own_zero (text_eq source source_manual) id) s

module _ (u : Unicode) (h : LeavesNoUpper u) where
  pub add_manual_proxy_exec-IsSound :
      (address protocol region note username password node_key : Text) (db : Database)
      → IsSound db
      → IsSound (add_manual_proxy_exec u address protocol region note username password node_key db)
  unfolding add_manual_proxy_exec fresh_row
  add_manual_proxy_exec-IsSound address protocol region note username password node_key db s =
      let key = manual_key u protocol address node_key in
      upsert-IsSound (manual_columns u protocol region note username password key)
        (manual_columns u protocol region note username password key
          (fresh_row address protocol source_manual (pos 0) db))
        db (λ r. manual_columns-Kept u h region r protocol note username password key)
        (unfold manual_columns new_row in refl) (unfold manual_columns new_row text_eq in refl)
        (unfold manual_columns in normalize_manual_region-is_code u region h) s

  pub add_manual_proxies-IsSound :
      (rows : List Row) (region note : Text) (db : Database)
      → IsSound db
      → IsSound (add_manual_proxies u rows region note db)
  unfolding add_manual_proxies
  add_manual_proxies-IsSound [] region note db s = s
  add_manual_proxies-IsSound (r ∷ rows) region note db s =
      add_manual_proxies-IsSound rows region note _ (
        add_manual_proxy_exec-IsSound r.proxy.address r.proxy.protocol region note
          r.details.username r.details.password r.proxy.node_key db s)
