-- ===== src/Storage/Table.antt =====
-- The tables of storage/storage.go, and the statements on them. A statement runs at one instant; an
-- error of the database engine itself leaves the tables as they were and is not modelled.
pub mod Keeping
use geo_proxy.Common.{
  ℕ, suc, ◌+◌, ◌≡◌, ◌==◌, Bool, true, false, ◌&&◌, ◌||◌, not, List, [], ◌∷◌, ◌++◌, Option, none,
  some, if◌then◌else◌, ltb, select,
}
use geo_proxy.Common.Int.{ℤ, pos, eq_ℤ, ltb_ℤ}
use geo_proxy.Common.Key.{Text, text_eq}
use geo_proxy.GoText.{codes}
use geo_proxy.Storage.{Proxy}

-- The columns that the selector does not read. A time that is NULL is `none`. The score is a REAL
-- that is only stored and compared: a whole number of some small unit stands for it.
pub record Details : Type 0 where
  pub region_source : Text
  pub note : Text
  pub exit_ip : Text
  pub exit_location : Text
  pub quality_grade : Text
  pub last_used : Option ℕ
  pub last_check : Option ℕ
  pub exit_checked_at : Option ℕ
  pub disabled_at : Option ℕ
  pub created_at : ℕ
  pub ipapiis_score : ℤ
  pub ipapi_flags : Text
  pub ipapi_flags_seen : Bool
  pub starred : Bool
  pub username : Text
  pub password : Text

-- A row of `proxies`.
pub record Row : Type 0 where
  pub proxy : Proxy
  pub details : Details

-- A row of `subscriptions`.
pub record Subscription : Type 0 where
  pub id : ℤ
  pub name : Text
  pub url : Text
  pub file_path : Text
  pub format : Text
  pub refresh_min : ℤ
  pub last_fetch : Option ℕ
  pub last_success : Option ℕ
  pub status : Text
  pub proxy_count : ℤ
  pub created_at : ℕ
  pub contributed : Bool
  pub headers : Text

-- `next_id` and `next_subscription` are the counters of AUTOINCREMENT, `now` is CURRENT_TIMESTAMP.
pub record Database : Type 0 where
  pub proxies : List Row
  pub subscriptions : List Subscription
  pub next_id : ℕ
  pub next_subscription : ℕ
  pub now : ℕ

-- Go's errors, by what the callers can tell apart.
pub data Failure : Type 0 where
  no_rows ambiguous not_unique not_found many_rows invalid : Failure

pub data Reply {ℓ} (A : Type ℓ) : Type ℓ where
  done : A → Reply A
  failed : Failure → Reply A

abbrev pub source_manual : Text
source_manual = codes "manual"

abbrev pub source_subscription : Text
source_subscription = codes "subscription"

abbrev pub is_disabled : Proxy → Bool
is_disabled p = text_eq p.status (codes "disabled")

-- UPDATE … SET … WHERE …
unfoldable pub update_where {ℓ} : {A : Type ℓ} → (A → Bool) → (A → A) → List A → List A
update_where test set [] = []
update_where test set (x ∷ xs) = (if test x then set x else x) ∷ update_where test set xs

-- SELECT COUNT(*) … WHERE …, and the rows affected by a statement with that condition.
unfoldable pub count_rows {ℓ} : {A : Type ℓ} → (A → Bool) → List A → ℕ
count_rows test [] = 0
count_rows test (x ∷ xs) = let n = count_rows test xs in if test x then suc n else n

-- DELETE … WHERE …
unfoldable pub delete_where {ℓ} : {A : Type ℓ} → (A → Bool) → List A → List A
delete_where test [] = []
delete_where test (x ∷ xs) = let rest = delete_where test xs in if test x then rest else x ∷ rest

-- SELECT … WHERE … LIMIT 1
unfoldable pub first_where {ℓ} : {A : Type ℓ} → (A → Bool) → List A → Option A
first_where test [] = none
first_where test (x ∷ xs) = let rest = first_where test xs in if test x then some x else rest

unfoldable pub require_rows_affected : ℕ → Reply (Unit {0})
require_rows_affected n = if n == 0 then failed no_rows else done tt

-- The parent subscription is there, and its status passes the test.
unfoldable pub parent_is : (Text → Bool) → Database → Proxy → Bool
unfolding count_rows
parent_is test db p = ltb 0 (
    count_rows (λ (s : Subscription). eq_ℤ s.id p.subscription_id && test s.status)
      db.subscriptions)

abbrev pub not_paused : Text → Bool
not_paused status = not (text_eq status (codes "paused"))

abbrev pub is_active : Text → Bool
is_active status = text_eq status (codes "active")

-- `selectableSubscriptionScopeSQL`
unfoldable pub selectable_scope : Database → Proxy → Bool
selectable_scope db p = not (text_eq p.source source_subscription) || parent_is not_paused db p

-- The same with a parent that must be active.
unfoldable pub active_scope : Database → Proxy → Bool
active_scope db p = not (text_eq p.source source_subscription) || parent_is is_active db p

-- status IN ('active', 'degraded') AND user_paused = 0 AND fail_count < 3
unfoldable pub usable : Proxy → Bool
usable p =
    (text_eq p.status (codes "active") || text_eq p.status (codes "degraded"))
    && not p.user_paused
    && ltb_ℤ p.fail_count (pos 3)

-- An UPDATE of `proxies`, with the number of rows that it affects.
unfoldable pub update_proxies : (Row → Bool) → (Row → Row) → Database → ℕ × Database
unfolding update_where count_rows
update_proxies test set db =
    (count_rows test db.proxies, record db { proxies = update_where test set db.proxies })

unfoldable pub delete_proxies : (Row → Bool) → Database → ℕ × Database
unfolding delete_where count_rows
delete_proxies test db =
    (count_rows test db.proxies, record db { proxies = delete_where test db.proxies })

-- The affected rows become the reply of a write.
abbrev pub required : ℕ × Database → Reply (Unit {0}) × Database
required (n, db) = (require_rows_affected n, db)
