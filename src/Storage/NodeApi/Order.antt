-- ===== src/Storage/NodeApi/Order.antt =====
-- The order of the pages of storage/node_api_query.go, and what a cursor leaves of a sorted list.
use geo_proxy.Common.{
  ◌≡◌, refl, Bool, true, false, ◌&&◌, not, List, [], ◌∷◌, if◌then◌else◌, all_of, distinct, select,
  arith, Bool-cases, inl, inr,
}
use geo_proxy.Common.Int.{ℤ, pos, negsuc, eq_ℤ, ltb_ℤ}
use geo_proxy.Storage.{Proxy}
use geo_proxy.Storage.Table.{Row}
use geo_proxy.Storage.Lookup.{select_proxies}
use geo_proxy.Storage.NodeApi.{precedes, insert_node, sort_nodes}

pub precedes_asym : (p q : Proxy) → precedes p q ≡ true → precedes q p ≡ false
unfolding precedes
precedes_asym p q e = ground arith

precedes_cotrans :
    (p q r : Proxy) → precedes q p ≡ false → precedes r q ≡ false → precedes r p ≡ false
unfolding precedes
precedes_cotrans p q r a b = ground arith

ids_apart : (a b : ℤ) → eq_ℤ a b ≡ false → ltb_ℤ b a ≡ false → ltb_ℤ a b ≡ true
ids_apart (pos a) (pos b) e f = ground arith
ids_apart (pos a) (negsuc b) e f = ground arith
ids_apart (negsuc a) (pos b) e f = ground arith
ids_apart (negsuc a) (negsuc b) e f = ground arith

pub precedes_total :
    (p q : Proxy) → eq_ℤ p.id q.id ≡ false → precedes q p ≡ false → precedes p q ≡ true
unfolding precedes
precedes_total p q e f = ground (arith, ids_apart p.id q.id e)

-- No node stands after one that it precedes; and no two nodes share an ID.
abbrev pub in_order : List Proxy → Bool
in_order = distinct precedes

abbrev pub no_twins : List Proxy → Bool
no_twins = distinct (λ p q. eq_ℤ p.id q.id)

all_of-insert_node :
    (P : Proxy → Bool) (p : Proxy) (ps : List Proxy)
    → P p ≡ true
    → all_of P ps ≡ true
    → all_of P (insert_node p ps) ≡ true
unfolding insert_node
all_of-insert_node P p [] e h = ground arith
all_of-insert_node P p (q ∷ ps) e h = ground (arith, all_of-insert_node P p ps e)

all_of-later :
    (p q : Proxy) (ps : List Proxy)
    → precedes q p ≡ false
    → all_of (λ y. not (precedes y q)) ps ≡ true
    → all_of (λ y. not (precedes y p)) ps ≡ true
all_of-later p q [] e h = refl
all_of-later p q (r ∷ ps) e h = ground (arith, precedes_cotrans p q r e, all_of-later p q ps e)

insert_node-in_order :
    (p : Proxy) (ps : List Proxy) → in_order ps ≡ true → in_order (insert_node p ps) ≡ true
unfolding insert_node
insert_node-in_order p [] h = refl
insert_node-in_order p (q ∷ ps) h = elim (Bool-cases (precedes q p)) [
  | inl e ↦ rw e (
      ground (
        arith,
        insert_node-in_order p ps,
        all_of-insert_node (λ y. not (precedes y q)) p ps (ground (arith, precedes_asym q p e)),
      ))
  | inr e ↦ rw e (ground (arith, e, all_of-later p q ps e))
]

pub sort_nodes-in_order : (ps : List Proxy) → in_order (sort_nodes ps) ≡ true
unfolding sort_nodes
sort_nodes-in_order [] = refl
sort_nodes-in_order (p ∷ ps) = insert_node-in_order p (sort_nodes ps) (sort_nodes-in_order ps)

all_of-sort_nodes :
    (P : Proxy → Bool) (ps : List Proxy) → all_of P ps ≡ true → all_of P (sort_nodes ps) ≡ true
unfolding sort_nodes
all_of-sort_nodes P [] h = refl
all_of-sort_nodes P (p ∷ ps) h =
    all_of-insert_node P p (sort_nodes ps) (ground arith) (all_of-sort_nodes P ps (ground arith))

pub eq_ℤ_sym : (a b : ℤ) → eq_ℤ a b ≡ eq_ℤ b a
eq_ℤ_sym (pos a) (pos b) = ground arith
eq_ℤ_sym (pos a) (negsuc b) = refl
eq_ℤ_sym (negsuc a) (pos b) = refl
eq_ℤ_sym (negsuc a) (negsuc b) = ground arith

insert_node-no_twins :
    (p : Proxy) (ps : List Proxy)
    → all_of (λ y. not (eq_ℤ y.id p.id)) ps ≡ true
    → no_twins ps ≡ true
    → no_twins (insert_node p ps) ≡ true
unfolding insert_node
insert_node-no_twins p [] e h = refl
insert_node-no_twins p (q ∷ ps) e h = elim (Bool-cases (precedes q p)) [
  | inl b ↦ rw b (
      ground (
        arith,
        insert_node-no_twins p ps,
        all_of-insert_node (λ y. not (eq_ℤ y.id q.id)) p ps (ground (arith, eq_ℤ_sym p.id q.id)),
      ))
  | inr b ↦ rw b (ground arith)
]

pub sort_nodes-no_twins : (ps : List Proxy) → no_twins ps ≡ true → no_twins (sort_nodes ps) ≡ true
unfolding sort_nodes
sort_nodes-no_twins [] h = refl
sort_nodes-no_twins (p ∷ ps) h =
    insert_node-no_twins p (sort_nodes ps) (all_of-sort_nodes _ ps (ground arith))
      (sort_nodes-no_twins ps (ground arith))

-- A condition on the nodes goes before or after the sorting.
insert_first :
    (p : Proxy) (ps : List Proxy)
    → all_of (λ y. not (precedes y p)) ps ≡ true
    → insert_node p ps ≡ p ∷ ps
unfolding insert_node
insert_first p [] h = refl
insert_first p (q ∷ ps) h = ground arith

module _ (Q : Proxy → Bool) where
  all_of-select :
      (P : Proxy → Bool) (ps : List Proxy) → all_of P ps ≡ true → all_of P (select Q ps) ≡ true
  all_of-select P [] h = refl
  all_of-select P (p ∷ ps) h = elim (Bool-cases (Q p)) [
    | inl e ↦ rw e (ground (arith, all_of-select P ps))
    | inr e ↦ rw e (ground (arith, all_of-select P ps))
  ]

  select-insert_node :
      (p : Proxy) (ps : List Proxy)
      → in_order ps ≡ true
      → select Q (insert_node p ps) ≡ (if Q p then insert_node p (select Q ps) else select Q ps)
  unfolding insert_node
  select-insert_node p [] h = ground arith
  select-insert_node p (q ∷ ps) h = elim (Bool-cases (precedes q p)) [
    | inl b ↦ elim (Bool-cases (Q q)) [
      | inl e ↦ rw (b, e) (ground (arith, select-insert_node p ps, b))
      | inr e ↦ rw (b, e) (select-insert_node p ps (ground arith))
    ]
    | inr b ↦ elim (Bool-cases (Q q)) [
      | inl e ↦ rw (b, e) (rw b refl)
      | inr e ↦
          rw (b, e)
            (rw
              (insert_first p (select Q ps)
                (all_of-select _ ps (all_of-later p q ps b (ground arith))))
              refl)
    ]
  ]

  pub select-sort_nodes : (ps : List Proxy) → select Q (sort_nodes ps) ≡ sort_nodes (select Q ps)
  unfolding sort_nodes
  select-sort_nodes [] = refl
  select-sort_nodes (p ∷ ps) = elim (Bool-cases (Q p)) [
    | inl e ↦
        rw (select-insert_node p (sort_nodes ps) (sort_nodes-in_order ps), e, select-sort_nodes ps)
          refl
    | inr e ↦
        rw (select-insert_node p (sort_nodes ps) (sort_nodes-in_order ps), e, select-sort_nodes ps)
          refl
  ]

  pub select_proxies-and :
      (test : Row → Bool) (rows : List Row)
      → select_proxies (λ r. test r && Q r.proxy) rows ≡ select Q (select_proxies test rows)
  unfolding select_proxies
  select_proxies-and test [] = refl
  select_proxies-and test (r ∷ rows) = elim (Bool-cases (test r)) [
    | inl e ↦ rw (e, select_proxies-and test rows) refl
    | inr e ↦ rw (e, select_proxies-and test rows) refl
  ]
