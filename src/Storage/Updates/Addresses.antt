-- ===== src/Storage/Updates/Addresses.antt =====
-- The writes of storage/ that name a node by its address alone.
use geo_proxy.Common.{
  ℕ, ◌==◌, ◌≡◌, refl, Bool, true, false, ◌&&◌, List, [], ◌∷◌, if◌then◌else◌, leb, arith, Bool-cases,
  inl, inr,
}
use geo_proxy.Common.Key.{Text, text_eq}
use geo_proxy.Storage.{Proxy}
use geo_proxy.Storage.Table.{
  Row, Database, done, failed, no_rows, ambiguous, update_where, delete_where, count_rows,
  update_proxies, delete_proxies, Reply,
}
use geo_proxy.Storage.Lookup.{select_proxies, only_one, get_proxy_by_address}
use geo_proxy.Storage.Updates.{
  sole_address, lookup_failure, finish_address_only_mutation, delete_proxy,
}

module _ (test : Row → Bool) where
  count_rows-and :
      (b : Bool) (rows : List Row)
      → count_rows (λ r. test r && b) rows ≡ (if b then count_rows test rows else 0)
  unfolding count_rows
  count_rows-and true [] = refl
  count_rows-and false [] = refl
  count_rows-and b (r ∷ rows) = ground (arith, count_rows-and b rows)

  update_where-none :
      (set : Row → Row) (rows : List Row) → update_where (λ r. test r && false) set rows ≡ rows
  unfolding update_where
  update_where-none set [] = refl
  update_where-none set (r ∷ rows) = elim (Bool-cases (test r)) [
    | inl e ↦ rw (e, update_where-none set rows) refl
    | inr e ↦ rw (e, update_where-none set rows) refl
  ]

  update_where-all :
      (set : Row → Row) (rows : List Row)
      → update_where (λ r. test r && true) set rows ≡ update_where test set rows
  unfolding update_where
  update_where-all set [] = refl
  update_where-all set (r ∷ rows) = elim (Bool-cases (test r)) [
    | inl e ↦ rw (e, update_where-all set rows) refl
    | inr e ↦ rw (e, update_where-all set rows) refl
  ]

  delete_where-and :
      (b : Bool) (rows : List Row)
      → delete_where (λ r. test r && b) rows ≡ (if b then delete_where test rows else rows)
  unfolding delete_where
  delete_where-and true [] = refl
  delete_where-and false [] = refl
  delete_where-and true (r ∷ rows) = ground (arith, delete_where-and true rows)
  delete_where-and false (r ∷ rows) = elim (Bool-cases (test r)) [
    | inl e ↦ rw (e, delete_where-and false rows) refl
    | inr e ↦ rw (e, delete_where-and false rows) refl
  ]

  -- What the query for an address answers, by the number of rows with it.
  only_one-none :
      (rows : List Row)
      → count_rows test rows ≡ 0
      → only_one no_rows (select_proxies test rows) ≡ failed no_rows
  unfolding count_rows select_proxies only_one
  only_one-none [] e = refl
  only_one-none (r ∷ rows) e = elim (Bool-cases (test r)) [
    | inl h ↦ ground (arith, h, e)
    | inr h ↦ rw h (only_one-none rows (ground (arith, h, e)))
  ]

  select_proxies-some :
      (p : Proxy) (rows : List Row)
      → leb 1 (count_rows test rows) ≡ true
      → only_one no_rows (p ∷ select_proxies test rows) ≡ failed ambiguous
  unfolding count_rows select_proxies only_one
  select_proxies-some p [] e = ground (arith, e)
  select_proxies-some p (r ∷ rows) e = elim (Bool-cases (test r)) [
    | inl h ↦ rw h refl
    | inr h ↦ rw h (select_proxies-some p rows (ground (arith, h, e)))
  ]

  only_one-many :
      (rows : List Row)
      → leb 2 (count_rows test rows) ≡ true
      → only_one no_rows (select_proxies test rows) ≡ failed ambiguous
  unfolding count_rows select_proxies
  only_one-many [] e = ground (arith, e)
  only_one-many (r ∷ rows) e = elim (Bool-cases (test r)) [
    | inl h ↦ rw h (select_proxies-some r.proxy rows (ground (arith, h, e)))
    | inr h ↦ rw h (only_one-many rows (ground (arith, h, e)))
  ]

abbrev pub Answer : Type 0
Answer = Reply (Unit {0}) × Database

-- The answer of a write by address, from the number of rows with the address and the tables after a
-- change of the only one.
abbrev pub for_rows : ℕ → Database → Database → Answer
for_rows n db changed =
    if n == 1
    then (done tt, changed)
    else if n == 0
    then (failed no_rows, db)
    else (failed ambiguous, db)

module _ (address : Text) (db : Database) where
  abbrev here : Row → Bool
  here r = text_eq r.proxy.address address

  -- A statement answers by whether the address has one row.
  answered :
      (written : Bool → ℕ × Database) (changed : Database)
      → (count_rows here db.proxies ≡ 1 → written true ≡ (1, changed))
      → written false ≡ (0, db)
      → finish_address_only_mutation address (written (count_rows here db.proxies == 1))
        ≡ for_rows (count_rows here db.proxies) db changed
  unfolding finish_address_only_mutation get_proxy_by_address lookup_failure
  answered written changed one none =
      let n = count_rows here db.proxies in
      elim (Bool-cases (n == 1)) [
        | inl only ↦ rw (only, one (ground (arith, only))) refl
        | inr other ↦
            rw (other, none)
              (elim (Bool-cases (n == 0)) [
                | inl nothing ↦
                    rw (nothing, only_one-none here db.proxies (ground (arith, nothing))) refl
                | inr several ↦
                    rw (several, only_one-many here db.proxies (ground (arith, several, other)))
                      refl
              ])
      ]

  -- An update of the row that `sole_address` selects, whatever it sets, and `delete_proxy`: if the
  -- address has one row, the write succeeds, and changes (or deletes) that row and nothing else; with
  -- no such row it fails with "no rows", with several it fails with "ambiguous", and in both cases it
  -- leaves the tables as they were.
  pub finish_address_only_mutation_lem :
      (set : Row → Row)
      → (finish_address_only_mutation address (update_proxies (sole_address db address) set db)
          ≡ for_rows
              (count_rows here db.proxies)
              db
              (record db { proxies = update_where here set db.proxies }))
        × (delete_proxy address db
            ≡ for_rows
                (count_rows here db.proxies)
                db
                (record db { proxies = delete_where here db.proxies }))
  unfolding update_proxies delete_proxies delete_proxy sole_address
  finish_address_only_mutation_lem set = (
    answered
        (λ only. (
          count_rows (λ r. here r && only) db.proxies,
          record db { proxies = update_where (λ r. here r && only) set db.proxies },
        ))
        _
        (λ e.
          rw (count_rows-and here true db.proxies, e, update_where-all here set db.proxies) refl)
        (rw (count_rows-and here false db.proxies, update_where-none here set db.proxies) refl),
    answered
        (λ only. (
          count_rows (λ r. here r && only) db.proxies,
          record db { proxies = delete_where (λ r. here r && only) db.proxies },
        ))
        _
        (λ e.
          rw (count_rows-and here true db.proxies, e, delete_where-and here true db.proxies) refl)
        (rw (count_rows-and here false db.proxies, delete_where-and here false db.proxies) refl),
  )
