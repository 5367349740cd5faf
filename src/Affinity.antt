-- ===== src/Affinity.antt =====
-- affinity/store.go: the session bindings, their reverse index, and the cooldown of the proxies.
-- An operation runs under the store's mutex, at the instant `now` of the store's clock.
pub mod Consistency
pub mod Loops
pub mod Occupancy
pub mod History
pub mod Sticky
pub mod Sweeping
pub mod Unseen
pub mod Questions
pub mod Alike
pub mod Cooldowns
pub mod Collector
pub mod View
use geo_proxy.Common.{
  ℕ, ◌+◌, ◌≡◌, Bool, true, false, ◌&&◌, not, List, [], ◌∷◌, Option, none, some, if◌then◌else◌,
  length, ltb, leb,
}
use geo_proxy.Common.Int.{ℤ, pos, pos_part, neg_part, sub_ℕ, leb_ℤ, ltb_ℤ, eq_ℤ}
use geo_proxy.Common.Key.{Text, text_key, int_key}
use geo_proxy.Common.Assoc.{Map, lookup, assign, delete}

pub record Binding : Type 0 where
  pub proxy_id : ℤ
  pub node_address : Text
  pub region : Text
  pub last_active : ℕ

abbrev pub Sessions : Type 0
Sessions = Map Text (Unit {0})

-- `now` is what the clock of `NewWithClock` reads.
pub record Store : Type 0 where
  pub bindings : Map Text Binding
  pub reverse : Map ℤ Sessions
  pub cooldown : Map ℤ ℕ
  pub ttl : ℤ
  pub now : ℕ

pub record SessionBinding : Type 0 where
  pub session_id : Text
  pub binding : Binding
  pub open binding use *

unfoldable pub new_with_clock : ℤ → ℕ → Store
new_with_clock ttl now = record { bindings = []; reverse = []; cooldown = []; ttl = ttl; now = now }

unfoldable pub expired : Store → Binding → Bool
expired s binding = ltb_ℤ (pos 0) s.ttl && leb_ℤ s.ttl (sub_ℕ s.now binding.last_active)

-- The set at a proxy; a missing entry is the nil set.
abbrev set_or_nil : Option Sessions → Sessions
set_or_nil none = []
set_or_nil (some set) = set

unfoldable pub sessions_of : Store → ℤ → Sessions
sessions_of s proxy_id = set_or_nil (lookup proxy_id s.reverse)

unfoldable pub attach_reverse : Text → ℤ → Store → Store
unfolding sessions_of
attach_reverse session_id proxy_id s = record s {
  reverse = assign proxy_id (assign session_id tt (sessions_of s proxy_id)) s.reverse;
}

-- An emptied set leaves the index.
put_or_drop : ℤ → Sessions → Map ℤ Sessions → Map ℤ Sessions
put_or_drop proxy_id [] reverse = delete proxy_id reverse
put_or_drop proxy_id (x ∷ set) reverse = assign proxy_id (x ∷ set) reverse

detach_found : Text → ℤ → Option Sessions → Map ℤ Sessions → Map ℤ Sessions
unfolding put_or_drop
detach_found session_id proxy_id none reverse = reverse
detach_found session_id proxy_id (some set) reverse =
    put_or_drop proxy_id (delete session_id set) reverse

unfoldable pub detach_reverse : Text → ℤ → Store → Store
unfolding detach_found
detach_reverse session_id proxy_id s = record s {
  reverse = detach_found session_id proxy_id (lookup proxy_id s.reverse) s.reverse;
}

pub remove_binding : Text → Binding → Store → Store
unfolding detach_reverse
remove_binding session_id binding s =
    detach_reverse session_id binding.proxy_id
      (record s { bindings = delete session_id s.bindings })

get_found : Text → Option Binding → Store → Option Binding × Store
unfolding remove_binding
get_found session_id none s = (none, s)
get_found session_id (some binding) s =
    if expired s binding
    then (none, remove_binding session_id binding s)
    else (let fresh = record binding { last_active = s.now } in
        (some fresh, record s { bindings = assign session_id fresh s.bindings }))

unfoldable pub get : Text → Store → Option Binding × Store
unfolding get_found
get session_id s = get_found session_id (lookup session_id s.bindings) s

detach_old : Text → Option Binding → Store → Store
unfolding detach_reverse
detach_old session_id none s = s
detach_old session_id (some old) s = detach_reverse session_id old.proxy_id s

unfoldable pub set_proxy : Text → ℤ → Text → Text → Store → Store
unfolding detach_old attach_reverse
set_proxy session_id proxy_id node_address region s =
    let detached = detach_old session_id (lookup session_id s.bindings) s in
    attach_reverse session_id proxy_id (record detached {
      bindings =
          assign session_id
            (record {
              proxy_id = proxy_id;
              node_address = node_address;
              region = region;
              last_active = s.now;
            })
            detached.bindings;
    })

pub set : Text → Text → Text → Store → Store
unfolding set_proxy
set session_id node_address region s = set_proxy session_id (pos 0) node_address region s

remove_found : Text → Option Binding → Store → Store
unfolding remove_binding
remove_found session_id none s = s
remove_found session_id (some binding) s = remove_binding session_id binding s

pub remove : Text → Store → Store
unfolding remove_found
remove session_id s = remove_found session_id (lookup session_id s.bindings) s

remove_if_found : Text → ℤ → Option Binding → Store → Bool × Store
unfolding remove_binding
remove_if_found session_id expected none s = (false, s)
remove_if_found session_id expected (some binding) s =
    if expired s binding
    then (false, remove_binding session_id binding s)
    else if not (eq_ℤ binding.proxy_id expected)
    then (false, s)
    else (true, remove_binding session_id binding s)

pub remove_if_proxy_id : Text → ℤ → Store → Bool × Store
unfolding remove_if_found
remove_if_proxy_id session_id expected s =
    remove_if_found session_id expected (lookup session_id s.bindings) s

pub set_cooldown : ℤ → ℕ → Store → Store
set_cooldown proxy_id until s = record s { cooldown = assign proxy_id until s.cooldown }

in_cooldown_found : ℤ → Option ℕ → Store → Bool × Store
in_cooldown_found proxy_id none s = (false, s)
in_cooldown_found proxy_id (some until) s =
    if not (ltb s.now until)
    then (false, record s { cooldown = delete proxy_id s.cooldown })
    else (true, s)

pub in_cooldown : ℤ → Store → Bool × Store
unfolding in_cooldown_found
in_cooldown proxy_id s = in_cooldown_found proxy_id (lookup proxy_id s.cooldown) s

cooldown_remaining_found : ℤ → Option ℕ → Store → ℤ × Store
cooldown_remaining_found proxy_id none s = (pos 0, s)
cooldown_remaining_found proxy_id (some until) s =
    let rem = sub_ℕ until s.now in
    if leb_ℤ rem (pos 0)
    then (pos 0, record s { cooldown = delete proxy_id s.cooldown })
    else (rem, s)

pub cooldown_remaining : ℤ → Store → ℤ × Store
unfolding cooldown_remaining_found
cooldown_remaining proxy_id s = cooldown_remaining_found proxy_id (lookup proxy_id s.cooldown) s

-- `delete(sessions, sessionID)` on the set of the index: an emptied set stays until the loop ends.
pub drop_stale : ℤ → Text → Store → Store
drop_stale proxy_id session_id s = record s {
  reverse = assign proxy_id (delete session_id (sessions_of s proxy_id)) s.reverse;
}

pub prune_found : ℤ → Text → Option Binding → Store → Store
unfolding drop_stale remove_binding
prune_found proxy_id session_id none s = drop_stale proxy_id session_id s
prune_found proxy_id session_id (some binding) s =
    if not (eq_ℤ binding.proxy_id proxy_id)
    then drop_stale proxy_id session_id s
    else if expired s binding
    then remove_binding session_id binding s
    else s

-- The loop over the sessions of the set, in the order that the map gives.
pub prune : ℤ → Sessions → Store → Store
unfolding prune_found
prune proxy_id [] s = s
prune proxy_id ((session_id, _) ∷ rest) s =
    prune proxy_id rest (prune_found proxy_id session_id (lookup session_id s.bindings) s)

count_pruned : ℤ → Sessions → Store → ℕ × Store
count_pruned proxy_id [] s = (0, record s { reverse = delete proxy_id s.reverse })
count_pruned proxy_id (x ∷ set) s = (length (x ∷ set), s)

count_found : ℤ → Option Sessions → Store → ℕ × Store
unfolding prune count_pruned sessions_of
count_found proxy_id none s = (0, s)
count_found proxy_id (some []) s = (0, s)
count_found proxy_id (some (x ∷ set)) s =
    let pruned = prune proxy_id (x ∷ set) s in
    count_pruned proxy_id (sessions_of pruned proxy_id) pruned

pub count_by_proxy : ℤ → Store → ℕ × Store
unfolding count_found
count_by_proxy proxy_id s = count_found proxy_id (lookup proxy_id s.reverse) s

pub remove_if_expired : Text → Binding → Store → Store
unfolding remove_binding
remove_if_expired session_id binding s =
    if expired s binding then remove_binding session_id binding s else s

-- The loop over the bindings that `collectExpired` starts with.
pub sweep : Map Text Binding → Store → Store
unfolding remove_if_expired
sweep [] s = s
sweep ((session_id, binding) ∷ rest) s = sweep rest (remove_if_expired session_id binding s)

pub running : ℕ → Map ℤ ℕ → Map ℤ ℕ
running now [] = []
running now ((proxy_id, until) ∷ rest) =
    let kept = running now rest in if not (ltb now until) then kept else (proxy_id, until) ∷ kept

pub collect_expired : Store → Store
unfolding sweep running
collect_expired s =
    let swept = sweep s.bindings s in record swept { cooldown = running s.now swept.cooldown }

list_bindings : Store → Map Text Binding → List SessionBinding
list_bindings s [] = []
list_bindings s ((session_id, b) ∷ rest) =
    let listed = list_bindings s rest in
    if expired s b then listed else record { session_id = session_id; binding = b } ∷ listed

pub list : Store → List SessionBinding
unfolding list_bindings
list s = list_bindings s s.bindings

count_bindings : Store → Map Text Binding → ℕ → ℕ
count_bindings s [] n = n
count_bindings s ((session_id, b) ∷ rest) n =
    count_bindings s rest (if not (expired s b) then n + 1 else n)

pub count : Store → ℕ
unfolding count_bindings
count s = count_bindings s s.bindings 0

pub set_ttl : ℤ → Store → Store
set_ttl ttl s = record s { ttl = ttl }

-- ttl - now.Sub(LastActive), cut off at 0
pub remaining_ttl : SessionBinding → Store → ℤ
remaining_ttl b s =
    if leb_ℤ s.ttl (pos 0)
    then pos 0
    else let remaining = sub_ℕ (pos_part s.ttl + b.last_active) (neg_part s.ttl + s.now) in
      if ltb_ℤ remaining (pos 0) then pos 0 else remaining
