-- ===== src/Storage/NodeApi/Pages.antt =====
-- The batches of `listNodesForAPIWithAI` in storage/node_api_query.go read every node once, in order.
use geo_proxy.Common.{
  ℕ, zero, suc, ◌+◌, ◌≡◌, refl, sym, subst, ap, ◌∙◌, Bool, true, false, not, List, [], ◌∷◌, ◌++◌,
  Option, none, some, ltb, all_of, select, length, take, drop, arith, Bool-cases, inl, inr,
}
use geo_proxy.Common.Int.{eq_ℤ}
use geo_proxy.Storage.{Proxy}
use geo_proxy.Storage.NodeApi.{precedes, after, Scan, keep_node, scan_node, scan_batch}
use geo_proxy.Storage.NodeApi.Order.{in_order, no_twins, precedes_asym, precedes_total, eq_ℤ_sym}

pub select_all : (P : Proxy → Bool) (ps : List Proxy) → all_of P ps ≡ true → select P ps ≡ ps
select_all P [] h = refl
select_all P (p ∷ ps) h = ground (arith, select_all P ps)

all_of-at :
    (P : Proxy → Bool) (xs : List Proxy) (p : Proxy) (ys : List Proxy)
    → all_of P (xs ++ (p ∷ ys)) ≡ true
    → P p ≡ true
all_of-at P [] p ys h = ground arith
all_of-at P (x ∷ xs) p ys h = all_of-at P xs p ys (ground arith)

later_ones :
    (p : Proxy) (ys : List Proxy)
    → all_of (λ y. not (precedes y p)) ys ≡ true
    → all_of (λ y. not (eq_ℤ y.id p.id)) ys ≡ true
    → all_of (precedes p) ys ≡ true
later_ones p [] h e = refl
later_ones p (y ∷ ys) h e = ground (arith, precedes_total p y, eq_ℤ_sym y.id p.id, later_ones p ys)

-- The cursor at a node leaves those after it.
select_after :
    (xs : List Proxy) (p : Proxy) (ys : List Proxy)
    → in_order (xs ++ (p ∷ ys)) ≡ true
    → no_twins (xs ++ (p ∷ ys)) ≡ true
    → select (precedes p) (xs ++ (p ∷ ys)) ≡ ys
select_after [] p ys h t =
    let own : precedes p p ≡ false = elim (Bool-cases (precedes p p)) [
      | inl e ↦ precedes_asym p p e
      | inr e ↦ e
    ] in
    rw own (select_all (precedes p) ys (later_ones p ys (ground arith) (ground arith)))
select_after (x ∷ xs) p ys h t =
    let earlier = all_of-at (λ y. not (precedes y x)) xs p ys (ground arith) in
    let skip : precedes p x ≡ false = ground (arith, earlier) in
    rw skip (select_after xs p ys (ground arith) (ground arith))

-- What is left of the sorted list after the cursor.
abbrev pub Left : List Proxy → Option Proxy → List Proxy → Type 0
Left all none ys = all ≡ ys
Left all (some p) ys = (xs : List Proxy) × (all ≡ xs ++ (p ∷ ys))

append_one :
    (xs : List Proxy) (p : Proxy) (ys : List Proxy) → xs ++ (p ∷ ys) ≡ (xs ++ (p ∷ [])) ++ ys
append_one [] p ys = refl
append_one (x ∷ xs) p ys = rw (append_one xs p ys) refl

Left-next :
    (all : List Proxy) (c : Option Proxy) (y : Proxy) (ys : List Proxy)
    → Left all c (y ∷ ys)
    → Left all (some y) ys
Left-next all none y ys e = ([], e)
Left-next all (some p) y ys (xs, e) = (xs ++ (p ∷ []), e ∙ append_one xs p (y ∷ ys))

pub select-Left :
    (all : List Proxy) (c : Option Proxy) (ys : List Proxy)
    → in_order all ≡ true
    → no_twins all ≡ true
    → Left all c ys
    → select (after c) all ≡ ys
unfolding after
select-Left all none ys h t e = select_all (λ p. true) all (go all) ∙ e
  where
    go : (ps : List Proxy) → all_of (λ p. true) ps ≡ true
    go [] = refl
    go (p ∷ ps) = go ps
select-Left all (some p) ys h t (xs, e) =
    rw e (
      select_after xs p ys (subst (λ l. in_order l ≡ true) e h)
        (subst (λ l. no_twins l ≡ true) e t))

module _ (reachable : Proxy → Bool) (limit offset : ℕ) where
  scan_node-cursor : (p : Proxy) (s : Scan) → (scan_node reachable limit offset p s).cursor ≡ some p
  unfolding scan_node keep_node
  scan_node-cursor p s = ground arith

  pub Left-scan_batch :
      (all : List Proxy) (n : ℕ) (ys : List Proxy) (s : Scan)
      → Left all s.cursor ys
      → Left all (scan_batch reachable limit offset (take n ys) s).cursor (drop n ys)
  unfolding scan_batch
  Left-scan_batch all zero ys s l = l
  Left-scan_batch all (suc n) [] s l = l
  Left-scan_batch all (suc n) (y ∷ ys) s l =
      Left-scan_batch all n ys (scan_node reachable limit offset y s)
        (subst (λ c. Left all c ys) (sym (scan_node-cursor y s)) (Left-next all s.cursor y ys l))

  pub scan_batch-take :
      (n : ℕ) (ys : List Proxy) (s : Scan)
      → scan_batch reachable limit offset
          (drop n ys)
          (scan_batch reachable limit offset (take n ys) s)
        ≡ scan_batch reachable limit offset ys s
  unfolding scan_batch
  scan_batch-take zero ys s = refl
  scan_batch-take (suc n) [] s = refl
  scan_batch-take (suc n) (y ∷ ys) s = scan_batch-take n ys (scan_node reachable limit offset y s)

pub short_take : (n : ℕ) (ys : List Proxy) → ltb (length (take n ys)) n ≡ true → take n ys ≡ ys
short_take zero ys e = ground (arith, e)
short_take (suc n) [] e = refl
short_take (suc n) (y ∷ ys) e = ap (λ t. y ∷ t) (short_take n ys (ground (arith, e)))

pub long_take :
    (n : ℕ) (ys : List Proxy)
    → ltb (length (take n ys)) n ≡ false
    → length ys ≡ n + length (drop n ys)
long_take zero ys e = omega arith
long_take (suc n) [] e = ground (arith, e)
long_take (suc n) (y ∷ ys) e = ground (arith, long_take n ys)
