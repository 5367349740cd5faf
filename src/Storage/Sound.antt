-- ===== src/Storage/Sound.antt =====
-- The invariant of the tables of storage/, and the statements on `proxies` that keep it.
pub mod Rows
pub mod Parents
pub mod Rekey
pub mod Manual
pub mod Keyed
use geo_proxy.Common.{
  ℕ, suc, ◌≡◌, refl, sym, subst, ap, Bool, true, false, ◌&&◌, ◌||◌, not, List, [], ◌∷◌, ◌++◌,
  if◌then◌else◌, ltb, leb, all_of, distinct, map, arith, Bool-cases, inl, inr,
}
use geo_proxy.Common.Int.{ℤ, pos, negsuc, eq_ℤ, ltb_ℤ}
use geo_proxy.Common.Key.{Text, text_eq}
use geo_proxy.Storage.{Proxy}
use geo_proxy.Storage.Table.{
  Row, Subscription, Database, source_manual, source_subscription, update_where, delete_where,
  count_rows, update_proxies, delete_proxies,
}
use geo_proxy.Storage.Table.Keeping.{
  all_of-append, distinct-append, all_of-update_where, all_of-delete_where, all_of-not, all_of-imp,
  map-update_where, all_of-map-delete_where, distinct-map-delete_where, all_of-map, map-append,
}
use geo_proxy.Storage.Regions.Codes.{is_code}
use geo_proxy.Storage.Manual.{has_identity, upsert}

pub record Identity : Type 0 where
  pub address : Text
  pub source : Text
  pub subscription_id : ℤ

abbrev pub identity_of : Row → Identity
identity_of r = record {
  address = r.proxy.address;
  source = r.proxy.source;
  subscription_id = r.proxy.subscription_id;
}

abbrev pub same_identity : Identity → Identity → Bool
same_identity i j =
    text_eq j.address i.address
    && text_eq j.source i.source
    && eq_ℤ j.subscription_id i.subscription_id

abbrev pub row_id : Row → ℤ
row_id r = r.proxy.id

abbrev pub subscription_key : Subscription → ℤ
subscription_key s = s.id

-- A number that a counter gave before it reached `next`.
abbrev pub given_before : ℕ → ℤ → Bool
given_before next id = ltb_ℤ (pos 0) id && ltb_ℤ id (pos next)

-- A node by hand has no subscription, and a node of a subscription has one.
abbrev pub owner_fits : Identity → Bool
owner_fits i =
    if text_eq i.source source_manual
    then eq_ℤ i.subscription_id (pos 0)
    else not (text_eq i.source source_subscription) || ltb_ℤ (pos 0) i.subscription_id

abbrev pub has_code : Row → Bool
has_code r = is_code r.proxy.region

pub record IsSound (db : Database) : Type 0 where
  pub counting : ltb 0 db.next_id ≡ true
  pub counting_subscriptions : ltb 0 db.next_subscription ≡ true
  pub ids_distinct : distinct eq_ℤ (map row_id db.proxies) ≡ true
  pub ids_given : all_of (given_before db.next_id) (map row_id db.proxies) ≡ true
  pub identities_distinct : distinct same_identity (map identity_of db.proxies) ≡ true
  pub owners_fit : all_of owner_fits (map identity_of db.proxies) ≡ true
  pub regions_are_codes : all_of has_code db.proxies ≡ true
  pub subscriptions_distinct : distinct eq_ℤ (map subscription_key db.subscriptions) ≡ true
  pub subscriptions_given :
      all_of (given_before db.next_subscription) (map subscription_key db.subscriptions) ≡ true

-- What an UPDATE leaves of a row.
pub record Kept (r t : Row) : Type 0 where
  pub id : t.proxy.id ≡ r.proxy.id
  pub identity : identity_of t ≡ identity_of r
  pub code : is_code r.proxy.region ≡ true → is_code t.proxy.region ≡ true

pub update_proxies-IsSound :
    (test : Row → Bool) (set : Row → Row) (db : Database)
    → ((r : Row) → Kept r (set r))
    → IsSound db
    → IsSound (update_proxies test set db).1
unfolding update_proxies
update_proxies-IsSound test set db keep s =
    let ids = map-update_where row_id test set db.proxies (λ r. (keep r).id) in
    let identities = map-update_where identity_of test set db.proxies (λ r. (keep r).identity) in
    record {
      counting = s.counting;
      counting_subscriptions = s.counting_subscriptions;
      ids_distinct = rw ids s.ids_distinct;
      ids_given = rw ids s.ids_given;
      identities_distinct = rw identities s.identities_distinct;
      owners_fit = rw identities s.owners_fit;
      regions_are_codes =
          all_of-update_where has_code test set db.proxies (λ r e. (keep r).code)
            s.regions_are_codes;
      subscriptions_distinct = s.subscriptions_distinct;
      subscriptions_given = s.subscriptions_given;
    }

pub delete_proxies-IsSound :
    (test : Row → Bool) (db : Database) → IsSound db → IsSound (delete_proxies test db).1
unfolding delete_proxies
delete_proxies-IsSound test db s = record {
  counting = s.counting;
  counting_subscriptions = s.counting_subscriptions;
  ids_distinct = distinct-map-delete_where row_id eq_ℤ test db.proxies s.ids_distinct;
  ids_given = all_of-map-delete_where row_id _ test db.proxies s.ids_given;
  identities_distinct =
      distinct-map-delete_where identity_of same_identity test db.proxies s.identities_distinct;
  owners_fit = all_of-map-delete_where identity_of owner_fits test db.proxies s.owners_fit;
  regions_are_codes = all_of-delete_where has_code test db.proxies s.regions_are_codes;
  subscriptions_distinct = s.subscriptions_distinct;
  subscriptions_given = s.subscriptions_given;
}

-- The number that a counter gives next is new, and those before it stay given.
module _ (next : ℕ) (ids : List ℤ) (given : all_of (given_before next) ids ≡ true) where
  pub later_number : all_of (λ y. not (eq_ℤ (pos next) y)) ids ≡ true
  later_number = all_of-imp (given_before next) _ ids earlier given
    where
      earlier : (y : ℤ) → given_before next y ≡ true → not (eq_ℤ (pos next) y) ≡ true
      earlier (pos n) e = ground arith
      earlier (negsuc n) e = ground arith

  pub grown_number : all_of (given_before (suc next)) ids ≡ true
  grown_number = all_of-imp (given_before next) _ ids earlier given
    where
      earlier : (y : ℤ) → given_before next y ≡ true → given_before (suc next) y ≡ true
      earlier (pos n) e = ground arith
      earlier (negsuc n) e = ground arith

-- A new row takes the next number, and an identity that no row has.
module _ (new : Row) (db : Database) (s : IsSound db) where
  pub append-IsSound :
      new.proxy.id ≡ pos db.next_id
      → owner_fits (identity_of new) ≡ true
      → is_code new.proxy.region ≡ true
      → ltb 0 (
          count_rows
            (has_identity new.proxy.address new.proxy.source new.proxy.subscription_id)
            db.proxies)
        ≡ false
      → IsSound (record db { proxies = db.proxies ++ (new ∷ []); next_id = suc db.next_id })
  append-IsSound e owner code fresh = record {
    counting = ground (arith, s.counting);
    counting_subscriptions = s.counting_subscriptions;
    ids_distinct =
        rw (map-append row_id db.proxies new, e)
          (distinct-append eq_ℤ (map row_id db.proxies) (pos db.next_id) s.ids_distinct
            (later_number db.next_id (map row_id db.proxies) s.ids_given));
    ids_given =
        rw (map-append row_id db.proxies new, e)
          (all_of-append (given_before (suc db.next_id)) (map row_id db.proxies) (pos db.next_id)
            (grown_number db.next_id (map row_id db.proxies) s.ids_given)
            (ground (arith, s.counting)));
    identities_distinct = rw (map-append identity_of db.proxies new) (
        distinct-append same_identity (map identity_of db.proxies) (identity_of new)
          s.identities_distinct
          (rw (all_of-map identity_of (λ y. not (same_identity (identity_of new) y)) db.proxies)
            (unfold has_identity in all_of-not _ db.proxies fresh)));
    owners_fit = rw (map-append identity_of db.proxies new) (
        all_of-append owner_fits (map identity_of db.proxies) (identity_of new) s.owners_fit owner);
    regions_are_codes = all_of-append has_code db.proxies new s.regions_are_codes code;
    subscriptions_distinct = s.subscriptions_distinct;
    subscriptions_given = s.subscriptions_given;
  }

pub upsert-IsSound :
    (set : Row → Row) (new : Row) (db : Database)
    → ((r : Row) → Kept r (set r))
    → new.proxy.id ≡ pos db.next_id
    → owner_fits (identity_of new) ≡ true
    → is_code new.proxy.region ≡ true
    → IsSound db
    → IsSound (upsert set new db)
unfolding upsert update_proxies
upsert-IsSound set new db keep e owner code s =
    let same = has_identity new.proxy.address new.proxy.source new.proxy.subscription_id in
    elim (Bool-cases (ltb 0 (count_rows same db.proxies))) [
      | inl there ↦ rw there (update_proxies-IsSound same set db keep s)
      | inr fresh ↦ rw fresh (append-IsSound new db s e owner code fresh)
    ]
