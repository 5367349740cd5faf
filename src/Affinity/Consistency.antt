-- ===== src/Affinity/Consistency.antt =====
-- The reverse index of affinity/store.go agrees with the bindings.
use geo_proxy.Common.{
  ℕ, ◌≡◌, refl, Bool, true, false, Bool-cases, [], ◌∷◌, Option, none, some, if◌then◌else◌, is_some,
  arith, Option-cases, inl, inr,
}
use geo_proxy.Common.Int.{ℤ, eq_ℤ, eq_ℤ_iff}
use geo_proxy.Common.Key.{Text, text_eq, text_eq_iff, text_key, int_key}
use geo_proxy.Common.Assoc.{
  Map, lookup, assign, delete, Distinct, lookup-assign, lookup-delete, assign-Distinct,
  delete-Distinct,
}
use geo_proxy.Affinity.{
  Binding, Sessions, Store, new_with_clock, expired, sessions_of, set_or_nil, attach_reverse,
  put_or_drop, detach_reverse, remove_binding, get, set_proxy, set, remove, remove_if_proxy_id,
  drop_stale,
}

-- The session stands in the set of the proxy.
abbrev pub holds : Store → Text → ℤ → Bool
holds s session_id proxy_id = is_some (lookup session_id (sessions_of s proxy_id))

abbrev pub binds : Option Binding → ℤ → Bool
binds none proxy_id = false
binds (some b) proxy_id = eq_ℤ b.proxy_id proxy_id

pub record IsConsistent (s : Store) : Type 0 where
  pub linked : (i : Text) (p : ℤ) → holds s i p ≡ binds (lookup i s.bindings) p
  pub bindings_distinct : Distinct s.bindings
  pub sets_distinct : (p : ℤ) → Distinct (sessions_of s p)

pub new_with_clock-IsConsistent : (ttl : ℤ) (now : ℕ) → IsConsistent (new_with_clock ttl now)
unfolding new_with_clock sessions_of lookup
new_with_clock-IsConsistent ttl now = record {
  linked = λ i p. refl;
  bindings_distinct = tt;
  sets_distinct = λ p. tt;
}

sessions_of-attach :
    (i : Text) (p q : ℤ) (s : Store)
    → sessions_of (attach_reverse i p s) q
      ≡ (if eq_ℤ p q then assign i tt (sessions_of s p) else sessions_of s q)
unfolding attach_reverse
sessions_of-attach i p q s =
    ground (arith, lookup-assign p q (assign i tt (sessions_of s p)) s.reverse)

put_or_drop_set :
    (p q : ℤ) (set : Sessions) (r : Map ℤ Sessions)
    → set_or_nil (lookup q (put_or_drop p set r))
      ≡ (if eq_ℤ p q then set else set_or_nil (lookup q r))
unfolding put_or_drop
put_or_drop_set p q [] r = ground (arith, lookup-delete p q r)
put_or_drop_set p q (x ∷ set) r = ground (arith, lookup-assign p q (x ∷ set) r)

sessions_of-detach :
    (i : Text) (p q : ℤ) (s : Store)
    → sessions_of (detach_reverse i p s) q
      ≡ (if eq_ℤ p q then delete i (sessions_of s p) else sessions_of s q)
unfolding detach_reverse sessions_of delete
sessions_of-detach i p q s = elim (Option-cases (lookup p s.reverse)) [
  | inl e ↦ ground (arith, eq_ℤ_iff p q)
  | inr (old, e) ↦ ground (arith, put_or_drop_set p q (delete i old) s.reverse)
]

holds-attach :
    (i j : Text) (p q : ℤ) (s : Store)
    → holds (attach_reverse i p s) j q
      ≡ (if eq_ℤ p q then (if text_eq i j then true else holds s j p) else holds s j q)
holds-attach i j p q s =
    ground (arith, sessions_of-attach i p q s, lookup-assign i j tt (sessions_of s p))

holds-detach :
    (i j : Text) (p q : ℤ) (s : Store)
    → holds (detach_reverse i p s) j q
      ≡ (if eq_ℤ p q then (if text_eq i j then false else holds s j p) else holds s j q)
holds-detach i j p q s =
    ground (arith, sessions_of-detach i p q s, lookup-delete i j (sessions_of s p))

attach-sets :
    (i : Text) (p q : ℤ) (s : Store)
    → Distinct (sessions_of s p)
    → Distinct (sessions_of s q)
    → Distinct (sessions_of (attach_reverse i p s) q)
attach-sets i p q s dp dq = rw sessions_of-attach (elim (Bool-cases (eq_ℤ p q)) [
  | inl e ↦ rw e (assign-Distinct i tt (sessions_of s p) dp)
  | inr e ↦ rw e dq
])

detach-sets :
    (i : Text) (p q : ℤ) (s : Store)
    → Distinct (sessions_of s p)
    → Distinct (sessions_of s q)
    → Distinct (sessions_of (detach_reverse i p s) q)
detach-sets i p q s dp dq = rw sessions_of-detach (elim (Bool-cases (eq_ℤ p q)) [
  | inl e ↦ rw e (delete-Distinct i (sessions_of s p) dp)
  | inr e ↦ rw e dq
])

-- Dropping a binding with its entry in the index.
pub remove_binding-IsConsistent :
    (i : Text) (b : Binding) (s : Store)
    → lookup i s.bindings ≡ some b
    → IsConsistent s
    → IsConsistent (remove_binding i b s)
unfolding remove_binding sessions_of
remove_binding-IsConsistent i b s e c = record {
  linked = λ j q. ground (
    arith,
    holds-detach i j b.proxy_id q (record s { bindings = delete i s.bindings }),
    lookup-delete i j s.bindings,
    text_eq_iff i j,
    eq_ℤ_iff b.proxy_id q,
    c.linked j q,
  );
  bindings_distinct = unfold detach_reverse in delete-Distinct i s.bindings c.bindings_distinct;
  sets_distinct = λ q.
      detach-sets i b.proxy_id q (record s { bindings = delete i s.bindings })
        (c.sets_distinct b.proxy_id) (c.sets_distinct q);
}

-- Binding a session that no set holds.
bind_free-IsConsistent :
    (i : Text) (b : Binding) (s : Store)
    → ((p : ℤ) → holds s i p ≡ false)
    → ((j : Text) (p : ℤ) → text_eq i j ≡ false → holds s j p ≡ binds (lookup j s.bindings) p)
    → Distinct s.bindings
    → ((p : ℤ) → Distinct (sessions_of s p))
    → IsConsistent (attach_reverse i b.proxy_id (record s { bindings = assign i b s.bindings }))
unfolding sessions_of attach_reverse
bind_free-IsConsistent i b s free others db ds = record {
  linked = λ j q. ground (
    arith,
    holds-attach i j b.proxy_id q (record s { bindings = assign i b s.bindings }),
    lookup-assign i j b s.bindings,
    text_eq_iff i j,
    eq_ℤ_iff b.proxy_id q,
    free q,
    others j q,
  );
  bindings_distinct = assign-Distinct i b s.bindings db;
  sets_distinct = λ q.
      attach-sets i b.proxy_id q (record s { bindings = assign i b s.bindings }) (ds b.proxy_id)
        (ds q);
}

pub set_proxy-IsConsistent :
    (i : Text) (p : ℤ) (a r : Text) (s : Store)
    → IsConsistent s
    → IsConsistent (set_proxy i p a r s)
unfolding set_proxy
set_proxy-IsConsistent i p a r s c = elim (Option-cases (lookup i s.bindings)) [
  | inl e ↦
      rw (e, set_proxy)
        (bind_free-IsConsistent i _ s (λ q. ground (arith, c.linked i q)) (λ j q _. c.linked j q)
          c.bindings_distinct c.sets_distinct)
  | inr (old, e) ↦
      rw (e, set_proxy)
        (bind_free-IsConsistent i _ (detach_reverse i old.proxy_id s)
          (λ q. ground (
            arith,
            holds-detach i i old.proxy_id q s,
            text_eq_iff i i,
            c.linked i q,
            eq_ℤ_iff old.proxy_id q,
          ))
          (λ j q ne.
            ground
              (arith, holds-detach i j old.proxy_id q s, c.linked j q, eq_ℤ_iff old.proxy_id q))
          (unfold detach_reverse in c.bindings_distinct)
          (λ q. detach-sets i old.proxy_id q s (c.sets_distinct old.proxy_id) (c.sets_distinct q)))
]

-- Refreshing a binding in place.
refresh-IsConsistent :
    (i : Text) (b fresh : Binding) (s : Store)
    → lookup i s.bindings ≡ some b
    → fresh.proxy_id ≡ b.proxy_id
    → IsConsistent s
    → IsConsistent (record s { bindings = assign i fresh s.bindings })
unfolding sessions_of
refresh-IsConsistent i b fresh s e same c = record {
  linked = λ j q. ground (arith, lookup-assign i j fresh s.bindings, text_eq_iff i j, c.linked j q);
  bindings_distinct = assign-Distinct i fresh s.bindings c.bindings_distinct;
  sets_distinct = c.sets_distinct;
}

pub get-IsConsistent : (i : Text) (s : Store) → IsConsistent s → IsConsistent (get i s).1
unfolding get
get-IsConsistent i s c = elim (Option-cases (lookup i s.bindings)) [
  | inl e ↦ rw (e, get) c
  | inr (b, e) ↦ elim (Bool-cases (expired s b)) [
    | inl x ↦ rw (e, get, x) (remove_binding-IsConsistent i b s e c)
    | inr x ↦ rw (e, get, x) (refresh-IsConsistent i b _ s e refl c)
  ]
]

pub remove-IsConsistent : (i : Text) (s : Store) → IsConsistent s → IsConsistent (remove i s)
unfolding remove
remove-IsConsistent i s c = elim (Option-cases (lookup i s.bindings)) [
  | inl e ↦ rw (e, remove) c
  | inr (b, e) ↦ rw (e, remove) (remove_binding-IsConsistent i b s e c)
]

pub remove_if_proxy_id-IsConsistent :
    (i : Text) (p : ℤ) (s : Store) → IsConsistent s → IsConsistent (remove_if_proxy_id i p s).1
unfolding remove_if_proxy_id
remove_if_proxy_id-IsConsistent i p s c = elim (Option-cases (lookup i s.bindings)) [
  | inl e ↦ rw (e, remove_if_proxy_id) c
  | inr (b, e) ↦
      let gone = remove_binding-IsConsistent i b s e c in
      elim (Bool-cases (expired s b)) [
        | inl x ↦ rw (e, remove_if_proxy_id, x) gone
        | inr x ↦ elim (Bool-cases (eq_ℤ b.proxy_id p)) [
          | inl y ↦ rw (e, remove_if_proxy_id, x, y) gone
          | inr y ↦ rw (e, remove_if_proxy_id, x, y) c
        ]
      ]
]

-- Only the bindings and the index matter.
pub same-IsConsistent :
    (s t : Store)
    → t.bindings ≡ s.bindings
    → t.reverse ≡ s.reverse
    → IsConsistent s
    → IsConsistent t
unfolding sessions_of
same-IsConsistent s t b r c = record {
  linked = λ i p. ground (arith, c.linked i p);
  bindings_distinct = rw b c.bindings_distinct;
  sets_distinct = λ p. rw r (c.sets_distinct p);
}

pub drop_stale-IsConsistent :
    (p : ℤ) (i : Text) (s : Store)
    → binds (lookup i s.bindings) p ≡ false
    → IsConsistent s
    → IsConsistent (drop_stale p i s)
unfolding drop_stale sessions_of
drop_stale-IsConsistent p i s free c = record {
  linked = λ j q. ground (
    arith,
    lookup-assign p q (delete i (sessions_of s p)) s.reverse,
    lookup-delete i j (sessions_of s p),
    text_eq_iff i j,
    eq_ℤ_iff p q,
    c.linked j q,
  );
  bindings_distinct = c.bindings_distinct;
  sets_distinct = λ q. rw lookup-assign (elim (Bool-cases (eq_ℤ p q)) [
    | inl e ↦ rw e (delete-Distinct i (sessions_of s p) (c.sets_distinct p))
    | inr e ↦ rw e (c.sets_distinct q)
  ]);
}
