-- ===== src/Examples.antt =====
-- Concrete data at which the theorems are applied: a store with one node and a few sessions.
mod Sessions
mod Choices
mod Requests
mod Usernames
mod Keys
mod Database
use geo_proxy.Common.{
  ℕ, ◌+◌, ◌*◌, ◌^◌, ◌≡◌, refl, ◌==◌, subst, sym, Bool, true, false, List, [], ◌∷◌, Option, none,
  some, inl, inr, if◌then◌else◌, ltb, arith, Bool-cases,
}
use geo_proxy.Common.Int.{ℤ, pos, eq_ℤ, eq_ℤ_iff, ltb_ℤ}
use geo_proxy.Common.Key.{Text, text_eq}
use geo_proxy.GoText.{ascii_only, codes}
use geo_proxy.Storage.{Proxy}
use geo_proxy.Auth.{ParsedUsername}
use geo_proxy.Affinity.{Store, new_with_clock}
use geo_proxy.Affinity.History.{Call, sets, waits, run}
use geo_proxy.Selector.{NodeStore, Limits, Runtime, excluded, normalize_region, region_mismatch}
use geo_proxy.Selector.Score.{Float64}
use geo_proxy.Common.{In}
use geo_proxy.Selector.Resolve.{parent_runs}
use geo_proxy.Selector.Resolve.Serves.{Lawful}

abbrev pub plain_runtime : Runtime
plain_runtime = record { unicode = ascii_only; unmarshal = λ s. none }

-- Whole numbers in place of floats, with a logarithm of 0: every score is 0.
abbrev pub counting_floats : Float64
counting_floats = record {
  Carrier = ℕ;
  of_uint64 = λ n. n;
  ratio = λ a b. a;
  add = λ a b. a + b;
  mul = λ a b. a;
  div = λ a b. a;
  neg = λ a. a;
  log = λ a. 0;
  ltb = ltb;
  eqb = λ a b. a == b;
}

abbrev pub node_at : ℕ → Proxy
node_at n = record {
  id = pos n;
  address = codes "10.0.0.1:1080";
  protocol = codes "http";
  region = codes "us";
  latency = pos 40;
  use_count = pos 0;
  success_count = pos 0;
  fail_count = pos 0;
  status = codes "active";
  user_paused = false;
  source = [];
  subscription_id = pos 0;
  cf_blocked = pos 0;
  dual_protocol = false;
  ai_reachability = [];
  node_key = codes "k1";
}

abbrev listed_in : Text → List ℤ → List Proxy
listed_in region excludes =
    if excluded (pos 1) excludes
    then []
    else if region_mismatch plain_runtime (codes "us") region
    then []
    else node_at 1 ∷ []

abbrev pub one_node : NodeStore
one_node = record {
  get_by_region = λ region excludes. some (listed_in region excludes);
  get_proxy_by_id = λ n. if eq_ℤ n (pos 1) then some (node_at 1) else none;
  get_proxy_by_address = λ a. if text_eq a (codes "10.0.0.1:1080") then some (node_at 1) else none;
  get_proxy_by_node_key = λ k. none;
  is_subscription_paused = λ n. some false;
}

abbrev pub one_session_each : Option Limits
one_session_each = some (record { max_sessions_per_proxy = pos 1; proxy_cooldown_minutes = pos 5 })

unwrap : (ps qs : List Proxy) (x : Proxy) → some ps ≡ some qs → In x qs → In x ps
unwrap ps qs x e m = ground (arith, e)

node_is :
    (b c : Bool) (x : Proxy)
    → In x (if b then [] else if c then [] else node_at 1 ∷ [])
    → (x ≡ node_at 1) × (b ≡ false) × (c ≡ false)
node_is false false x (inl e) = (e, refl, refl)
node_is false false x (inr m) = elim m [ ]
node_is false true x m = elim m [ ]
node_is true c x m = elim m [ ]

listed_in-lawful :
    (region : Text) (excludes : List ℤ) (x : Proxy)
    → In x (listed_in region excludes)
    → (excluded x.id excludes ≡ false)
      × (region_mismatch plain_runtime x.region region ≡ false)
      × (parent_runs plain_runtime counting_floats one_node one_session_each x ≡ true)
unfolding parent_runs
listed_in-lawful region excludes x m =
    let (e, out, near) = node_is _ _ x m in rw (e, out, near) (refl, refl, refl)

pub one_node-Lawful : Lawful plain_runtime counting_floats one_node one_session_each
one_node-Lawful = record {
  listed = λ region excludes ps x e m.
      listed_in-lawful (normalize_region plain_runtime region) excludes x (unwrap _ _ x e m);
  by_id = λ n x e. ground (arith, eq_ℤ_iff n (pos 1));
}

abbrev pub route : Text → Text → ParsedUsername
route session node = record {
  base = codes "u";
  region = codes "us";
  session = session;
  unlock = [];
  node = node;
}

-- Two sessions at node 1 and one at node 2, the first of them set two hours before the others.
abbrev pub calls : List Call
calls =
    sets (codes "a") (pos 1) [] (codes "us")
    ∷ waits (7200 * 10 ^ 9)
    ∷ sets (codes "b") (pos 1) [] (codes "us")
    ∷ sets (codes "c") (pos 2) [] []
    ∷ []

abbrev pub hour : ℤ
hour = pos (3600 * 10 ^ 9)

abbrev pub later_store : Store
later_store = run (new_with_clock hour 1) calls
