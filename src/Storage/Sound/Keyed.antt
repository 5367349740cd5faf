-- ===== src/Storage/Sound/Keyed.antt =====
-- `AddManualProxyWithNodeKey` of storage/manual.go keeps the invariant of the tables.
use geo_proxy.Common.{
  ◌≡◌, refl, subst, Bool, true, ◌&&◌, ◌||◌, not, List, [], ◌∷◌, ltb, all_of, select, arith,
  Bool-cases, inl, inr,
}
use geo_proxy.Common.Int.{pos, eq_ℤ}
use geo_proxy.Common.Key.{Text, text_eq, text_eq_iff}
use geo_proxy.GoText.{Unicode}
use geo_proxy.Storage.Table.{Row, Database, source_manual, update_where, count_rows, update_proxies}
use geo_proxy.Storage.Table.Keeping.{all_of-not, all_of-update_where, map-update_where, all_of-map}
use geo_proxy.Storage.Regions.{normalize_protocol}
use geo_proxy.Storage.Regions.Codes.{LeavesNoUpper, normalize_manual_region-is_code}
use geo_proxy.Storage.Manual.{
  has_identity, reset_route, edit_keyed, add_manual_proxy_with_node_key, relabel,
}
use geo_proxy.Storage.Sound.{
  IsSound, Identity, identity_of, row_id, has_code, owner_fits, update_proxies-IsSound,
}
use geo_proxy.Storage.Sound.Rows.{relabel-Kept}
use geo_proxy.Storage.Sound.Rekey.{fits, update_one-distinct, found_alone}
use geo_proxy.Storage.Sound.Manual.{required-IsSound, add_manual_proxy_exec-IsSound}

abbrev keyed_row : Text → Row → Bool
keyed_row node_key r =
    text_eq r.proxy.source source_manual
    && eq_ℤ r.proxy.subscription_id (pos 0)
    && text_eq r.proxy.node_key node_key

-- The edit of the only manual row with a key, which may move it to another address.
module _ (u : Unicode) (h : LeavesNoUpper u) (address protocol region note node_key : Text)
    (old : Row) where
  abbrev this_row : Row → Bool
  this_row r = eq_ℤ r.proxy.id old.proxy.id && text_eq r.proxy.node_key node_key

  abbrev moved : Identity
  moved = record { address = address; source = source_manual; subscription_id = pos 0 }

  abbrev moving : Row → Row
  moving = reset_route u address protocol region note

  abbrev free_of : Row → Bool
  free_of r =
      not (has_identity address source_manual (pos 0) r && not (eq_ℤ r.proxy.id old.proxy.id))

  fits_row :
      (r : Row)
      → (not (eq_ℤ r.proxy.id old.proxy.id) || keyed_row node_key r) ≡ true
      → free_of r ≡ true
      → fits this_row moving moved old.proxy.id r ≡ true
  unfolding reset_route has_identity
  fits_row r alone free = elim (Bool-cases (this_row r)) [
    | inl e ↦ rw e (ground (arith, text_eq_iff address address))
    | inr e ↦ rw e (ground arith)
  ]

  all_fit :
      (rows : List Row)
      → all_of (λ r. not (eq_ℤ r.proxy.id old.proxy.id) || keyed_row node_key r) rows ≡ true
      → all_of free_of rows ≡ true
      → all_of (fits this_row moving moved old.proxy.id) rows ≡ true
  all_fit [] alone free = refl
  all_fit (r ∷ rows) alone free =
      let first = fits_row r (ground arith) (ground arith) in
      let rest = all_fit rows (ground arith) (ground arith) in rw (first, rest) refl

  move-IsSound :
      (db : Database)
      → select (keyed_row node_key) db.proxies ≡ old ∷ []
      → all_of free_of db.proxies ≡ true
      → IsSound db
      → IsSound (update_proxies this_row moving db).1
  unfolding update_proxies
  move-IsSound db found free s =
      let alone = found_alone (keyed_row node_key) old db.proxies s.ids_distinct found in
      let fit = all_fit db.proxies alone free in
      let ids =
        map-update_where row_id this_row moving db.proxies (λ r. unfold reset_route in refl) in
      record {
        counting = s.counting;
        counting_subscriptions = s.counting_subscriptions;
        ids_distinct = rw ids s.ids_distinct;
        ids_given = rw ids s.ids_given;
        identities_distinct =
            update_one-distinct this_row moving moved old.proxy.id db.proxies fit s.ids_distinct
              s.identities_distinct;
        owners_fit =
            rw (all_of-map identity_of owner_fits (update_where this_row moving db.proxies)) (
              all_of-update_where (λ r. owner_fits (identity_of r)) this_row moving db.proxies
                (λ r t e. unfold reset_route in e)
                (subst (λ b. b ≡ true) (all_of-map identity_of owner_fits db.proxies)
                  s.owners_fit));
        regions_are_codes =
            all_of-update_where has_code this_row moving db.proxies
              (λ r t e. unfold reset_route in normalize_manual_region-is_code u region h)
              s.regions_are_codes;
        subscriptions_distinct = s.subscriptions_distinct;
        subscriptions_given = s.subscriptions_given;
      }

  edit_found-IsSound :
      (db : Database)
      → select (keyed_row node_key) db.proxies ≡ old ∷ []
      → IsSound db
      → IsSound (edit_keyed u address protocol region note node_key (old ∷ []) db).1
  unfolding edit_keyed
  edit_found-IsSound db found s =
      let clash = λ (r : Row).
        has_identity address source_manual (pos 0) r && not (eq_ℤ r.proxy.id old.proxy.id) in
      elim (Bool-cases (
        text_eq old.proxy.address address
        && text_eq old.proxy.protocol (normalize_protocol u protocol))) [
          | inl same ↦ rw same (
              required-IsSound (update_proxies this_row (relabel u region note) db) (
                update_proxies-IsSound this_row (relabel u region note) db
                  (λ r. relabel-Kept u h region r note) s))
          | inr other ↦ elim (Bool-cases (ltb 0 (count_rows clash db.proxies))) [
            | inl taken ↦ rw (other, taken) s
            | inr free ↦
                rw (other, free)
                  (required-IsSound (update_proxies this_row moving db)
                    (move-IsSound db found (all_of-not clash db.proxies free) s))
          ]
        ]

module _ (u : Unicode) (h : LeavesNoUpper u) (address protocol region note : Text) where
  edit_keyed-IsSound :
      (node_key : Text) (rows : List Row) (db : Database)
      → select (keyed_row node_key) db.proxies ≡ rows
      → IsSound db
      → IsSound (edit_keyed u address protocol region note node_key rows db).1
  unfolding edit_keyed
  edit_keyed-IsSound node_key [] db e s =
      add_manual_proxy_exec-IsSound u h address protocol region note [] [] node_key db s
  edit_keyed-IsSound node_key (old ∷ []) db e s =
      edit_found-IsSound u h address protocol region note node_key old db e s
  edit_keyed-IsSound node_key (old ∷ other ∷ rest) db e s = s

  pub add_manual_proxy_with_node_key-IsSound :
      (node_key : Text) (db : Database)
      → IsSound db
      → IsSound (add_manual_proxy_with_node_key u address protocol region note node_key db).1
  unfolding add_manual_proxy_with_node_key
  add_manual_proxy_with_node_key-IsSound [] db s =
      add_manual_proxy_exec-IsSound u h address protocol region note [] [] [] db s
  add_manual_proxy_with_node_key-IsSound (b ∷ node_key) db s =
      edit_keyed-IsSound (b ∷ node_key) _ db refl s
