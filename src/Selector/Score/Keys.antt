-- ===== src/Selector/Score/Keys.antt =====
-- The choice among the nodes of a database, whose IDs are distinct, does not depend on their order.
use geo_proxy.Common.{
  ◌≡◌, sym, ap, ◌∙◌, ◌↔◌, List, [], ◌∷◌, Option, if◌then◌else◌, arith, Bool-cases, inl, inr, drop,
  ◌==◌,
}
use geo_proxy.Common.Int.{ℤ, pos, eq_ℤ, eq_ℤ_iff}
use geo_proxy.Common.Key.{Text}
use geo_proxy.GoText.Decimal.{read_int, read_int-decimal}
use geo_proxy.Storage.{Proxy}
use geo_proxy.Affinity.{Store}
use geo_proxy.Selector.Hash.{session_hash_seed, session_proxy_tie_key}
use geo_proxy.Selector.Score.{
  Float64, session_rendezvous_score, active_binding_count, pick_session_candidate,
}
use geo_proxy.Common.{In}
use geo_proxy.Selector.Score.Choice.{IsRanked, pick_loop_order}

-- The ID that a tie key starts with, if it starts with one.
key_id : Text → ℤ
key_id [] = pos 0
key_id (b ∷ s) = if b == b'i' then read_int (drop 2 s) else pos 0

key_id-tie_key : (p : Proxy) → key_id (session_proxy_tie_key p) ≡ p.id
unfolding key_id session_proxy_tie_key
key_id-tie_key p = elim (Bool-cases (eq_ℤ p.id (pos 0))) [
  | inl e ↦ rw e (ground (arith, eq_ℤ_iff p.id (pos 0)))
  | inr e ↦ rw e (read_int-decimal p.id _)
]

pub tie_key-id : (p q : Proxy) → session_proxy_tie_key p ≡ session_proxy_tie_key q → p.id ≡ q.id
tie_key-id p q e = sym (key_id-tie_key p) ∙ ap key_id e ∙ key_id-tie_key q

-- For candidates whose IDs are distinct, and floats by which no score is NaN, the node that is
-- chosen for a session depends on the set of the candidates and on the bindings, and not on the
-- order in which the candidates are listed.
pub pick_session_candidate_order :
    (f : Float64) (session : Text) (sessions : Option Store) (p q : Proxy) (ps qs : List Proxy)
    → IsRanked f.ltb f.eqb (λ x.
      session_rendezvous_score f (session_hash_seed session) x (active_binding_count sessions x.id))
    → ((x : Proxy) → In x (p ∷ ps) ↔ In x (q ∷ qs))
    → ((x y : Proxy) → In x (p ∷ ps) → In y (p ∷ ps) → x.id ≡ y.id → x ≡ y)
    → pick_session_candidate f p ps session sessions
      ≡ pick_session_candidate f q qs session sessions
unfolding pick_session_candidate
pick_session_candidate_order f session sessions p q ps qs ranked same distinct =
    pick_loop_order f.ltb f.eqb _ session_proxy_tie_key ranked p q ps qs same
      (λ x y mx my e. distinct x y mx my (tie_key-id x y e))
