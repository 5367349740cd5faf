-- ===== src/Affinity/Loops.antt =====
-- The loops of `collectExpired` and `countByProxyLocked` in affinity/store.go.
use geo_proxy.Common.{
  ◌≡◌, refl, true, [], ◌∷◌, Option, none, some, if◌then◌else◌, is_some, arith, Bool-cases,
  Option-cases, inl, inr,
}
use geo_proxy.Common.Int.{ℤ, eq_ℤ, eq_ℤ_iff}
use geo_proxy.Common.Key.{Text, text_eq, text_eq_iff, text_key, int_key}
use geo_proxy.Common.Assoc.{Map, lookup, Distinct, lookup-delete}
use geo_proxy.Affinity.{
  Binding, Sessions, Store, expired, detach_reverse, remove_binding, prune, sweep,
}
use geo_proxy.Affinity.Consistency.{IsConsistent, binds, remove_binding-IsConsistent}

-- What a removal of the expired bindings leaves at a key.
abbrev pub live : Store → Option Binding → Option Binding
live s none = none
live s (some b) = if expired s b then none else some b

-- `m` holds bindings of `s`, each as it stands there.
abbrev pub IsPart : Map Text Binding → Store → Type 0
IsPart m s = (i : Text) (b : Binding) → lookup i m ≡ some b → lookup i s.bindings ≡ some b

pub record Swept (m : Map Text Binding) (s t : Store) : Type 0 where
  pub consistent : IsConsistent t
  pub now_kept : t.now ≡ s.now
  pub ttl_kept : t.ttl ≡ s.ttl
  pub cooldown_kept : t.cooldown ≡ s.cooldown
  pub at_key :
      (i : Text)
      → lookup i t.bindings
        ≡ (if is_some (lookup i m) then live s (lookup i s.bindings) else lookup i s.bindings)

pub expired-same :
    (s t : Store) (b : Binding) → t.now ≡ s.now → t.ttl ≡ s.ttl → expired t b ≡ expired s b
unfolding expired
expired-same s t b n l = rw (n, l)

pub live-same :
    (s t : Store) (o : Option Binding) → t.now ≡ s.now → t.ttl ≡ s.ttl → live t o ≡ live s o
live-same s t none n l = refl
live-same s t (some b) n l = rw (expired-same s t b n l)

-- The binding under a key, after another was removed.
lookup-remove_binding :
    (k i : Text) (b : Binding) (s : Store)
    → lookup i (remove_binding k b s).bindings ≡ (if text_eq k i then none else lookup i s.bindings)
unfolding remove_binding detach_reverse
lookup-remove_binding k i b s = lookup-delete k i s.bindings

pub sweep_lem :
    (m : Map Text Binding) (s : Store)
    → Distinct m
    → IsPart m s
    → IsConsistent s
    → Swept m s (sweep m s)
unfolding sweep lookup
sweep_lem [] s d part c = record {
  consistent = c;
  now_kept = refl;
  ttl_kept = refl;
  cooldown_kept = refl;
  at_key = λ i. refl;
}
sweep_lem ((k, b) ∷ m) s d part c = elim (Bool-cases (expired s b)) [
  | inl x ↦
      let here = part k b (ground (arith, text_eq_iff k k)) in
      let gone = remove_binding k b s in
      let rest =
        sweep_lem m gone d.1
          (λ i v e. ground (arith, lookup-remove_binding k i b s, text_eq_iff k i, part i v))
          (remove_binding-IsConsistent k b s here c) in
      rw (x, sweep)
        (record {
          consistent = rest.consistent;
          now_kept = unfold remove_binding detach_reverse in rest.now_kept;
          ttl_kept = unfold remove_binding detach_reverse in rest.ttl_kept;
          cooldown_kept = unfold remove_binding detach_reverse in rest.cooldown_kept;
          at_key = λ i. ground (
            arith,
            rest.at_key i,
            lookup-remove_binding k i b s,
            text_eq_iff k i,
            live-same s gone (lookup i s.bindings),
            here,
          );
        })
  | inr x ↦
      let here = part k b (ground (arith, text_eq_iff k k)) in
      let rest = sweep_lem m s d.1 (λ i v e. ground (arith, text_eq_iff k i, part i v)) c in
      rw (x, sweep)
        (record {
          consistent = rest.consistent;
          now_kept = rest.now_kept;
          ttl_kept = rest.ttl_kept;
          cooldown_kept = rest.cooldown_kept;
          at_key = λ i. ground (arith, rest.at_key i, text_eq_iff k i, here);
        })
]

-- The sessions that are still to be visited are in the set, and every expired one is among them.
pub record ToVisit (p : ℤ) (set : Sessions) (s : Store) : Type 0 where
  pub in_set : (i : Text) → is_some (lookup i set) ≡ true → binds (lookup i s.bindings) p ≡ true
  pub all_expired :
      (i : Text) (b : Binding)
      → lookup i s.bindings ≡ some b
      → b.proxy_id ≡ p
      → expired s b ≡ true
      → is_some (lookup i set) ≡ true

-- What a prune of the sessions of a proxy leaves at a key.
abbrev pub pruned : ℤ → Store → Option Binding → Option Binding
pruned p s none = none
pruned p s (some b) = if eq_ℤ b.proxy_id p then (if expired s b then none else some b) else some b

pub record Pruned (p : ℤ) (s t : Store) : Type 0 where
  pub consistent : IsConsistent t
  pub now_kept : t.now ≡ s.now
  pub ttl_kept : t.ttl ≡ s.ttl
  pub cooldown_kept : t.cooldown ≡ s.cooldown
  pub at_key : (i : Text) → lookup i t.bindings ≡ pruned p s (lookup i s.bindings)

pruned-same :
    (p : ℤ) (s t : Store) (o : Option Binding)
    → t.now ≡ s.now
    → t.ttl ≡ s.ttl
    → pruned p t o ≡ pruned p s o
pruned-same p s t none n l = refl
pruned-same p s t (some b) n l = rw (expired-same s t b n l)

nothing_pruned :
    (p : ℤ) (s : Store)
    → ToVisit p [] s
    → (i : Text) → lookup i s.bindings ≡ pruned p s (lookup i s.bindings)
unfolding lookup
nothing_pruned p s v i = elim (Option-cases (lookup i s.bindings)) [
  | inl e ↦ rw e
  | inr (b, e) ↦ ground (arith, v.all_expired i b e, eq_ℤ_iff b.proxy_id p)
]

pub prune_lem :
    (p : ℤ) (set : Sessions) (s : Store)
    → Distinct set
    → ToVisit p set s
    → IsConsistent s
    → Pruned p s (prune p set s)
unfolding prune lookup
prune_lem p [] s d v c = record {
  consistent = c;
  now_kept = refl;
  ttl_kept = refl;
  cooldown_kept = refl;
  at_key = nothing_pruned p s v;
}
prune_lem p ((k, u) ∷ set) s d v c = elim (Option-cases (lookup k s.bindings)) [
  | inl e ↦ absurd (unbound e)
  | inr (b, e) ↦ elim (Bool-cases (expired s b)) [
    | inl x ↦
        let gone = remove_binding k b s in
        let rest =
          prune_lem p set gone d.1
            (record {
              in_set =
                  λ i m. ground (arith, lookup-remove_binding k i b s, text_eq_iff k i, v.in_set i);
              all_expired = λ i w l same y. ground (
                arith,
                lookup-remove_binding k i b s,
                text_eq_iff k i,
                v.all_expired i w,
                expired-same s gone w,
              );
            })
            (remove_binding-IsConsistent k b s e c) in
        rw (e, prune, bound b e, x)
          (record {
            consistent = rest.consistent;
            now_kept = unfold remove_binding detach_reverse in rest.now_kept;
            ttl_kept = unfold remove_binding detach_reverse in rest.ttl_kept;
            cooldown_kept = unfold remove_binding detach_reverse in rest.cooldown_kept;
            at_key = λ i. ground (
              arith,
              rest.at_key i,
              lookup-remove_binding k i b s,
              text_eq_iff k i,
              pruned-same p s gone (lookup i s.bindings),
              bound b e,
            );
          })
    | inr x ↦
        rw (e, prune, bound b e, x)
          (prune_lem p set s d.1
            (record {
              in_set = λ i m. ground (arith, text_eq_iff k i, v.in_set i);
              all_expired = λ i w l same y. ground (arith, text_eq_iff k i, v.all_expired i w, e);
            })
            c)
  ]
]
  where
    unbound : lookup k s.bindings ≡ none → ⊥
    unbound e = ground (arith, v.in_set k, text_eq_iff k k, e)

    bound : (b : Binding) → lookup k s.bindings ≡ some b → eq_ℤ b.proxy_id p ≡ true
    bound b e = ground (arith, v.in_set k, text_eq_iff k k, e)
