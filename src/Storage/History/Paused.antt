-- ===== src/Storage/History/Paused.antt =====
-- A subscription that storage/subscriptions.go pauses: none of its nodes is listed until it is toggled.
use geo_proxy.Common.{
  ℕ, suc, ◌==◌, ◌≡◌, refl, subst, Bool, true, false, ◌&&◌, ◌||◌, not, List, [], ◌∷◌, Option, none,
  some, if◌then◌else◌, all_of, In, map, arith, Bool-cases, inl, inr,
}
use geo_proxy.Common.Int.{ℤ, pos, negsuc, eq_ℤ, eq_ℤ_iff}
use geo_proxy.Common.Key.{Text, text_eq}
use geo_proxy.GoText.{Unicode, codes}
use geo_proxy.Storage.{Proxy}
use geo_proxy.Storage.Table.{
  source_subscription, update_where, count_rows, parent_is, not_paused, is_active, selectable_scope,
  update_proxies, delete_proxies, required, Subscription, Database, done,
}
use geo_proxy.Storage.Table.Keeping.{
  all_of-append, all_of-update_where, all_of-delete_where, all_of-imp, count_rows-none,
}
use geo_proxy.Storage.Regions.{normalize_region}
use geo_proxy.Storage.Regions.Codes.{LeavesNoUpper}
use geo_proxy.Storage.Lookup.{get_by_region, in_region}
use geo_proxy.Storage.Lookup.Listing.{get_by_region_lem}
use geo_proxy.Storage.Updates.{delete_by_subscription_id}
use geo_proxy.Storage.Subscriptions.{
  is_subscription, clashes, new_subscription, insert_subscription, add_subscription,
  add_contributed_subscription, update_subscriptions, update_subscription, or_rolled_back,
  without_subscription, delete_subscription, update_subscription_fetch, update_subscription_attempt,
  update_subscription_success, set_subscription, disable_nodes, toggle_found, toggle_subscription,
  pause_subscription,
}
use geo_proxy.Storage.Sound.{IsSound, given_before, subscription_key}
use geo_proxy.Storage.History.{
  edit, step, run, Edit, Call, contributes, toggles, waits, writes, edits,
}
use geo_proxy.Storage.History.Writes.{write-NodeWrite}

-- The call does not toggle the subscription.
abbrev pub leaves_off : ℤ → Call → Bool
leaves_off id (edits (toggles n)) = not (eq_ℤ n id)
leaves_off id _ = true

module _ (id : ℤ) where
  abbrev off : Subscription → Bool
  off s = not (eq_ℤ s.id id) || text_eq s.status (codes "paused")

  -- No subscription with the ID runs, and none will get it.
  record IsOff (db : Database) : Type 0 where
    pub none_runs : all_of off db.subscriptions ≡ true
    pub given : given_before db.next_subscription id ≡ true

  IsOff-update :
      (test : Subscription → Bool) (set : Subscription → Subscription) (db : Database)
      → ((s : Subscription) → test s ≡ true → off s ≡ true → off (set s) ≡ true)
      → IsOff db
      → IsOff (update_subscriptions test set db).1
  unfolding update_subscriptions
  IsOff-update test set db keep o = record {
    none_runs = all_of-update_where off test set db.subscriptions keep o.none_runs;
    given = o.given;
  }

  IsOff-insert :
      (new : Subscription) (db : Database)
      → new.id ≡ pos db.next_subscription
      → IsOff db
      → IsOff (insert_subscription new db).1
  unfolding insert_subscription
  IsOff-insert new db e o = elim (Bool-cases (clashes new.id new.url new.file_path db)) [
    | inl there ↦ rw there o
    | inr fresh ↦ rw fresh (record {
      none_runs =
          all_of-append off db.subscriptions new o.none_runs
            (ground (arith, eq_ℤ_iff new.id id, e, o.given));
      given = later id o.given;
    })
  ]
    where
      later :
          (z : ℤ)
          → given_before db.next_subscription z ≡ true
          → given_before (suc db.next_subscription) z ≡ true
      later (pos n) g = ground arith
      later (negsuc n) g = ground arith

  if-IsOff :
      {A : Type 0} (b : Bool) (x y : A × Database)
      → IsOff x.1
      → IsOff y.1
      → IsOff (if b then x else y).1
  if-IsOff true x y o p = o
  if-IsOff false x y o p = p

  required-IsOff : (x : ℕ × Database) → IsOff x.1 → IsOff (required x).1
  required-IsOff (n, db) o = o

  or_rolled_back-IsOff :
      (db : Database) (x : ℕ × Database) → IsOff db → IsOff x.1 → IsOff (or_rolled_back db x).1
  unfolding or_rolled_back
  or_rolled_back-IsOff db (n, changed) o p = search if-IsOff

  -- A deletion, and the disabling of nodes.
  delete_subscription-IsOff :
      (n : ℤ) (db : Database) → IsOff db → IsOff (delete_subscription n db).1
  unfolding delete_subscription delete_by_subscription_id delete_proxies without_subscription
  delete_subscription-IsOff n db o = or_rolled_back-IsOff db _ o (record {
    none_runs = all_of-delete_where off (is_subscription n) db.subscriptions o.none_runs;
    given = o.given;
  })

  disable_nodes-IsOff : (n : ℤ) (x : ℕ × Database) → IsOff x.1 → IsOff (disable_nodes n x).1
  unfolding disable_nodes update_proxies
  disable_nodes-IsOff n (k, db) o = record { none_runs = o.none_runs; given = o.given }

  -- Another subscription may get any status, and this one "paused".
  set_other-IsOff :
      (n : ℤ) (status : Text) (db : Database)
      → eq_ℤ n id ≡ false
      → IsOff db
      → IsOff (set_subscription n status db).1
  unfolding set_subscription is_subscription
  set_other-IsOff n status db other o =
      IsOff-update (is_subscription n) _ db
        (λ s e old. ground (arith, eq_ℤ_iff s.id n, eq_ℤ_iff s.id id, eq_ℤ_iff n id)) o

  set_paused-IsOff :
      (n : ℤ) (db : Database) → IsOff db → IsOff (set_subscription n (codes "paused") db).1
  unfolding set_subscription text_eq
  set_paused-IsOff n db o = IsOff-update (is_subscription n) _ db (λ s e old. ground arith) o

  toggle_found-IsOff :
      (n : ℤ) (found : Option Subscription) (db : Database)
      → eq_ℤ n id ≡ false
      → IsOff db
      → IsOff (toggle_found n found db).1
  unfolding toggle_found
  toggle_found-IsOff n none db other o = o
  toggle_found-IsOff n (some s) db other o =
      if-IsOff (is_active s.status) _ _
        (disable_nodes-IsOff n _ (set_other-IsOff n (codes "paused") db other o))
        (set_other-IsOff n (codes "active") db other o)

  new_subscription-IsOff :
      (name url file_path format : Text) (refresh_min : ℤ) (contributed : Bool) (headers : Text)
      (db : Database)
      → IsOff db
      → IsOff
          (insert_subscription
            (new_subscription name url file_path format refresh_min contributed headers db)
            db).1
  new_subscription-IsOff name url file_path format refresh_min contributed headers db o =
      IsOff-insert _ db (unfold new_subscription in refl) o

  ruleset turning_off = (
    if-IsOff, required-IsOff, or_rolled_back-IsOff, delete_subscription-IsOff, disable_nodes-IsOff,
    set_paused-IsOff, toggle_found-IsOff, new_subscription-IsOff, IsOff-update,
  )

  edit-IsOff :
      (db : Database) (e : Edit) → leaves_off id (edits e) ≡ true → IsOff db → IsOff (edit db e)
  unfolding edit add_subscription add_contributed_subscription update_subscription
      update_subscription_fetch update_subscription_attempt update_subscription_success
      toggle_subscription pause_subscription
  edit-IsOff db (contributes n [] m) l o = o
  edit-IsOff db (contributes n (b ∷ url) m) l o = search turning_off
  edit-IsOff db (toggles n) l o = toggle_found-IsOff n _ db (ground (arith, l)) o
  edit-IsOff db _ l o = search turning_off

  all_paused :
      (xs : List Subscription)
      → all_of off
          (update_where (is_subscription id) (λ s. record s { status = codes "paused" }) xs)
        ≡ true
  unfolding update_where is_subscription text_eq
  all_paused [] = refl
  all_paused (s ∷ xs) = elim (Bool-cases (eq_ℤ s.id id)) [
    | inl e ↦ rw e (ground (arith, all_paused xs))
    | inr e ↦ rw e (ground (arith, all_paused xs, e))
  ]

  -- A number that a row has is one of those that were given.
  counted :
      (P : ℤ → Bool) (xs : List Subscription)
      → all_of P (map subscription_key xs) ≡ true
      → (count_rows (is_subscription id) xs == 0) ≡ false
      → P id ≡ true
  unfolding count_rows is_subscription
  counted P [] h e = ground (arith, e)
  counted P (s ∷ xs) h e = elim (Bool-cases (eq_ℤ s.id id)) [
    | inl this ↦
        let same : s.id ≡ id = ground (arith, eq_ℤ_iff s.id id) in
        subst (λ z. P z ≡ true) same (ground arith)
    | inr other ↦ counted P xs (ground arith) (ground (arith, other, e))
  ]

  pause-IsOff :
      (db : Database)
      → IsSound db
      → (pause_subscription id db).0 ≡ done tt
      → IsOff (pause_subscription id db).1
  unfolding pause_subscription or_rolled_back disable_nodes set_subscription update_subscriptions
      update_proxies
  pause-IsOff db s e = elim (Bool-cases (count_rows (is_subscription id) db.subscriptions == 0)) [
    | inl missing ↦ ground (arith, missing, e)
    | inr there ↦ rw there (record {
      none_runs = all_paused db.subscriptions;
      given =
          counted (given_before db.next_subscription) db.subscriptions s.subscriptions_given there;
    })
  ]

  module _ (u : Unicode) (h : LeavesNoUpper u) where
    step-IsOff :
        (db : Database) (c : Call) → leaves_off id c ≡ true → IsOff db → IsOff (step u db c)
    unfolding step
    step-IsOff db (waits d) l o = record { none_runs = o.none_runs; given = o.given }
    step-IsOff db (writes w) l o =
        let k = write-NodeWrite u h db w in
        record { none_runs = rw k.parents o.none_runs; given = rw k.counter o.given }
    step-IsOff db (edits e) l o = edit-IsOff db e l o

    run-IsOff :
        (db : Database) (calls : List Call)
        → all_of (leaves_off id) calls ≡ true
        → IsOff db
        → IsOff (run u db calls)
    unfolding run
    run-IsOff db [] l o = o
    run-IsOff db (c ∷ calls) l o =
        run-IsOff (step u db c) calls (ground (arith, l)) (step-IsOff db c (ground (arith, l)) o)

  -- No node of the subscription passes the condition of a list.
  off_scope :
      (db : Database) (p : Proxy)
      → IsOff db
      → text_eq p.source source_subscription ≡ true
      → eq_ℤ p.subscription_id id ≡ true
      → selectable_scope db p ≡ false
  unfolding selectable_scope parent_is
  off_scope db p o mine this =
      let running = λ (s : Subscription). eq_ℤ s.id p.subscription_id && not_paused s.status in
      let idle =
        all_of-imp off (λ s. not (running s)) db.subscriptions
          (λ s e. ground (
            arith,
            eq_ℤ_iff s.id p.subscription_id,
            eq_ℤ_iff p.subscription_id id,
            eq_ℤ_iff s.id id,
          ))
          o.none_runs in
      rw (mine, count_rows-none running db.subscriptions idle) refl

  in_region_scope :
      (db : Database) (region : Text) (p : Proxy)
      → in_region db region p ≡ true
      → selectable_scope db p ≡ true
  unfolding in_region
  in_region_scope db [] p e = ground (arith, e)
  in_region_scope db (b ∷ region) p e = ground (arith, e)

  -- On tables that keep the invariant, once pause_subscription has succeeded for an ID, and until a
  -- call toggles that subscription: whatever else is written (the subscription deleted, others
  -- added, its nodes enabled or recovered), no node of it is listed for any region.
  pub pause_subscription-unlisted :
      (u : Unicode) (db : Database) (calls : List Call) (region : Text) (excludes : List ℤ)
      (p : Proxy)
      → LeavesNoUpper u
      → IsSound db
      → (pause_subscription id db).0 ≡ done tt
      → all_of (leaves_off id) calls ≡ true
      → In p (get_by_region u (run u (pause_subscription id db).1 calls) region excludes)
      → text_eq p.source source_subscription ≡ true
      → eq_ℤ p.subscription_id id ≡ false
  pause_subscription-unlisted u db calls region excludes p h s paused l listed mine =
      let later = run u (pause_subscription id db).1 calls in
      let o = run-IsOff u h (pause_subscription id db).1 calls l (pause-IsOff db s paused) in
      let member = ((get_by_region_lem u later region excludes).1 p).0 listed in
      elim (Bool-cases (eq_ℤ p.subscription_id id)) [
        | inl this ↦ ground (
          arith,
          off_scope later p o mine this,
          in_region_scope later (normalize_region u region) p member.1,
        )
        | inr other ↦ other
      ]
