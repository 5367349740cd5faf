-- ===== src/Examples/Choices.antt =====
-- The choice of selector/selector.go for a session, at concrete nodes.
use geo_proxy.Common.{◌≡◌, refl, sym, [], ◌∷◌, none, some, inl, inr, arith}
use geo_proxy.Common.Int.{pos}
use geo_proxy.GoText.{codes}
use geo_proxy.Storage.{Proxy}
use geo_proxy.Selector.Hash.{
  session_hash_seed, session_proxy_hash, session_fnv_write_string, session_proxy_identity,
  session_proxy_tie_key,
}
use geo_proxy.Selector.Hash.Identity.{session_proxy_hash-identity}
use geo_proxy.Selector.Score.{
  session_rendezvous_score, active_binding_count, pick_loop, pick_session_candidate,
}
use geo_proxy.Common.{In}
use geo_proxy.Selector.Score.Choice.{IsRanked, IsBest, pick_loop-IsBest}
use geo_proxy.Selector.Score.Keys.{pick_session_candidate_order}
use geo_proxy.Examples.{counting_floats, node_at, later_store}

session_proxy_hash-identity_example :
    session_proxy_hash 7 (node_at 3)
    ≡ session_fnv_write_string 7 (session_proxy_identity (node_at 3))
session_proxy_hash-identity_example =
    session_proxy_hash-identity 7 (node_at 3) (omega arith, omega arith)

counted : IsRanked counting_floats.ltb counting_floats.eqb (λ x.
    session_rendezvous_score counting_floats
      (session_hash_seed (codes "s"))
      x
      (active_binding_count (some later_store) x.id))
counted = record {
  rank = λ x.
      session_rendezvous_score counting_floats (session_hash_seed (codes "s")) x
        (active_binding_count (some later_store) x.id);
  lt_rank = λ p q. refl;
  eq_rank = λ p q. refl;
}

swapped : (x : Proxy) → In x (node_at 1 ∷ node_at 2 ∷ []) → In x (node_at 2 ∷ node_at 1 ∷ [])
swapped x (inl e) = inr (inl e)
swapped x (inr (inl e)) = inl e
swapped x (inr (inr m)) = elim m [ ]

swapped_back : (x : Proxy) → In x (node_at 2 ∷ node_at 1 ∷ []) → In x (node_at 1 ∷ node_at 2 ∷ [])
swapped_back x (inl e) = inr (inl e)
swapped_back x (inr (inl e)) = inl e
swapped_back x (inr (inr m)) = elim m [ ]

one_is_not_two : pos 1 ≡ pos 2 → ⊥
one_is_not_two e = ground (arith, e)

two_ids :
    (x y : Proxy)
    → In x (node_at 1 ∷ node_at 2 ∷ [])
    → In y (node_at 1 ∷ node_at 2 ∷ [])
    → x.id ≡ y.id
    → x ≡ y
two_ids x y (inl e) (inl f) h = rw (e, f) refl
two_ids x y (inl e) (inr (inl f)) h = absurd (one_is_not_two (rw (e, f) at h))
two_ids x y (inr (inl e)) (inl f) h = absurd (one_is_not_two (sym (rw (e, f) at h)))
two_ids x y (inr (inl e)) (inr (inl f)) h = rw (e, f) refl
two_ids x y (inl e) (inr (inr m)) h = elim m [ ]
two_ids x y (inr (inl e)) (inr (inr m)) h = elim m [ ]
two_ids x y (inr (inr m)) _ h = elim m [ ]

pick_session_candidate_order_example :
    pick_session_candidate counting_floats
      (node_at 1)
      (node_at 2 ∷ [])
      (codes "s")
      (some later_store)
    ≡ pick_session_candidate counting_floats
        (node_at 2)
        (node_at 1 ∷ [])
        (codes "s")
        (some later_store)
pick_session_candidate_order_example =
    pick_session_candidate_order counting_floats (codes "s") (some later_store) (node_at 1)
      (node_at 2) (node_at 2 ∷ []) (node_at 1 ∷ []) counted (λ x. (swapped x, swapped_back x))
      two_ids

pick_loop-IsBest_example :
    IsBest (counted.rank) session_proxy_tie_key (node_at 1 ∷ node_at 2 ∷ []) (
      pick_loop counting_floats.ltb counting_floats.eqb
        (λ x.
          session_rendezvous_score counting_floats
            (session_hash_seed (codes "s"))
            x
            (active_binding_count (some later_store) x.id))
        session_proxy_tie_key
        (node_at 1)
        (session_rendezvous_score counting_floats
          (session_hash_seed (codes "s"))
          (node_at 1)
          (active_binding_count (some later_store) (pos 1)))
        none
        (node_at 2 ∷ []))
pick_loop-IsBest_example =
    pick_loop-IsBest counting_floats.ltb counting_floats.eqb
      (λ x.
        session_rendezvous_score counting_floats (session_hash_seed (codes "s")) x
          (active_binding_count (some later_store) x.id))
      session_proxy_tie_key counted (node_at 1) (node_at 2 ∷ [])
