-- ===== src/Affinity/Occupancy.antt =====
-- `CountByProxy`, `List` and `Count` of affinity/store.go against one count of the bindings.
use geo_proxy.Common.{
  ℕ, ◌≡◌, refl, Bool, ◌&&◌, not, [], ◌∷◌, Option, none, some, length, arith, Bool-cases, inl, inr,
}
use geo_proxy.Common.Int.{ℤ, eq_ℤ, eq_ℤ_iff}
use geo_proxy.Common.Key.{text_key, int_key}
use geo_proxy.Common.Assoc.{lookup, delete, lookup-delete}
use geo_proxy.Common.Assoc.Counting.{count_where, length-count_where}
use geo_proxy.Affinity.{
  Binding, Sessions, Store, expired, sessions_of, prune, count_pruned, count_by_proxy,
}
use geo_proxy.Affinity.Consistency.{IsConsistent}
use geo_proxy.Affinity.Loops.{Pruned, ToVisit, prune_lem}

-- The bindings of a proxy that have not expired.
abbrev pub occupies : Store → ℤ → Binding → Bool
occupies s p b = eq_ℤ b.proxy_id p && not (expired s b)

abbrev pub occupancy : Store → ℤ → ℕ
occupancy s p = count_where (occupies s p) s.bindings

visit_all : (p : ℤ) (s : Store) → IsConsistent s → ToVisit p (sessions_of s p) s
visit_all p s c = record {
  in_set = λ i m. ground (arith, c.linked i p);
  all_expired = λ i b e same x. ground (arith, c.linked i p, eq_ℤ_iff b.proxy_id p);
}

-- After the prune the set holds exactly the sessions that were live.
set-occupancy :
    (p : ℤ) (s t : Store) → IsConsistent s → Pruned p s t → length (sessions_of t p) ≡ occupancy s p
set-occupancy p s t c r =
    length-count_where (occupies s p) (sessions_of t p) s.bindings (r.consistent.sets_distinct p)
      c.bindings_distinct (λ i. ground (arith, r.consistent.linked i p, r.at_key i))

unset-IsConsistent :
    (p : ℤ) (s : Store)
    → sessions_of s p ≡ []
    → IsConsistent s
    → IsConsistent (record s { reverse = delete p s.reverse })
unfolding sessions_of
unset-IsConsistent p s e c = record {
  linked = λ i q. ground (arith, lookup-delete p q s.reverse, eq_ℤ_iff p q, c.linked i q);
  bindings_distinct = c.bindings_distinct;
  sets_distinct = λ q.
      rw lookup-delete
        (elim (Bool-cases (eq_ℤ p q)) [ inl x ↦ rw x tt | inr x ↦ rw x (c.sets_distinct q) ]);
}

abbrev Counts : ℤ → Store → ℕ × Store → Type 0
Counts p s r = (r.0 ≡ occupancy s p) × Pruned p s r.1

count_pruned-Counts :
    (p : ℤ) (s t : Store) (set : Sessions)
    → IsConsistent s
    → Pruned p s t
    → sessions_of t p ≡ set
    → Counts p s (count_pruned p set t)
unfolding count_pruned
count_pruned-Counts p s t [] c r e = (
  ground (arith, set-occupancy p s t c r),
  record {
    consistent = unset-IsConsistent p t e r.consistent;
    now_kept = r.now_kept;
    ttl_kept = r.ttl_kept;
    cooldown_kept = r.cooldown_kept;
    at_key = r.at_key;
  },
)
count_pruned-Counts p s t (x ∷ set) c r e = (ground (arith, set-occupancy p s t c r), r)

-- A proxy with no set has no session.
no_set-Counts : (p : ℤ) (s : Store) → sessions_of s p ≡ [] → IsConsistent s → Counts p s (0, s)
unfolding prune
no_set-Counts p s e c = (ground (arith, set-occupancy p s s c same), same)
  where
    same : Pruned p s s
    same = prune_lem p [] s tt (rw e at (visit_all p s c)) c

pub count_by_proxy-Counts : (p : ℤ) (s : Store) → IsConsistent s → Counts p s (count_by_proxy p s)
unfolding count_by_proxy sessions_of
count_by_proxy-Counts p s c = go (lookup p s.reverse) refl
  where
    go : (o : Option Sessions) → lookup p s.reverse ≡ o → Counts p s (count_by_proxy p s)
    go none e = rw (e, count_by_proxy) (no_set-Counts p s (rw e) c)
    go (some []) e = rw (e, count_by_proxy) (no_set-Counts p s (rw e) c)
    go (some (x ∷ set)) e =
        let here : sessions_of s p ≡ x ∷ set = rw e in
        rw (e, count_by_proxy)
          (count_pruned-Counts p s (prune p (x ∷ set) s) _ c
            (prune_lem p (x ∷ set) s (rw here at (c.sets_distinct p)) (rw here at (visit_all p s c))
              c)
            refl)
