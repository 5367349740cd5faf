-- ===== src/Storage/NodeApi/Reference.antt =====
-- The loop of `listNodesForAPIWithAI` in storage/node_api_query.go: it ends, and what it leaves.
use geo_proxy.Common.{
  ℕ, zero, suc, ◌+◌, ◌-◌, ◌≡◌, refl, sym, subst, ap, ◌∙◌, Bool, true, false, ◌&&◌, List, [], ◌∷◌,
  ◌++◌, Option, some, ltb, leb, select, length, take, drop, arith, Bool-cases, inl, inr,
}
use geo_proxy.Storage.{Proxy}
use geo_proxy.Storage.Table.{Row}
use geo_proxy.Storage.Lookup.{select_proxies}
use geo_proxy.Storage.NodeApi.{
  sort_nodes, after, keep_node, scan_node, scan_batch, scan_batches, Scan,
}
use geo_proxy.Storage.NodeApi.Order.{
  no_twins, sort_nodes-in_order, sort_nodes-no_twins, select-sort_nodes, select_proxies-and,
}
use geo_proxy.Storage.NodeApi.Pages.{
  Left, Left-scan_batch, scan_batch-take, short_take, long_take, select-Left,
}

module _ (reachable : Proxy → Bool) (limit offset : ℕ) where
  -- With as much fuel as there are nodes left, the loop ends, and has scanned them all in order.
  module _ (test : Row → Bool) (k : ℕ) (rows : List Row)
      (twins : no_twins (select_proxies test rows) ≡ true) where
    abbrev all_nodes : List Proxy
    all_nodes = sort_nodes (select_proxies test rows)

    query :
        (c : Option Proxy) (ys : List Proxy)
        → Left all_nodes c ys
        → sort_nodes (select_proxies (λ r. test r && after c r.proxy) rows) ≡ ys
    query c ys l = rw (select_proxies-and (after c) test rows) (
        sym (select-sort_nodes (after c) (select_proxies test rows))
        ∙ select-Left all_nodes c ys (sort_nodes-in_order _) (sort_nodes-no_twins _ twins) l)

    pub scan_batches-all :
        (fuel : ℕ) (ys : List Proxy) (s : Scan)
        → Left all_nodes s.cursor ys
        → leb (length ys) fuel ≡ true
        → scan_batches reachable limit offset test (suc k) rows (suc fuel) s
          ≡ some (scan_batch reachable limit offset ys s)
    unfolding scan_batches
    scan_batches-all zero ys s l e = elim (Bool-cases (ltb (length (take (suc k) ys)) (suc k))) [
      | inl short ↦
          rw (query s.cursor ys l, short)
            (ap (λ t. some (scan_batch reachable limit offset t s)) (short_take (suc k) ys short))
      | inr long ↦ ground (arith, long_take (suc k) ys long, e)
    ]
    scan_batches-all (suc fuel) ys s l e =
        elim (Bool-cases (ltb (length (take (suc k) ys)) (suc k))) [
          | inl short ↦
              rw (query s.cursor ys l, short)
                (ap (λ t. some (scan_batch reachable limit offset t s))
                  (short_take (suc k) ys short))
          | inr long ↦
              rw (query s.cursor ys l, long)
                (scan_batches-all fuel (drop (suc k) ys) _
                    (Left-scan_batch reachable limit offset all_nodes (suc k) ys s l)
                    (ground (arith, long_take (suc k) ys long, e))
                  ∙ ap some (scan_batch-take reachable limit offset (suc k) ys s))
        ]

  append_nil : (xs : List Proxy) → xs ++ [] ≡ xs
  append_nil [] = refl
  append_nil (x ∷ xs) = ap (λ t. x ∷ t) (append_nil xs)

  append_snoc :
      (xs : List Proxy) (p : Proxy) (ys : List Proxy) → (xs ++ (p ∷ [])) ++ ys ≡ xs ++ (p ∷ ys)
  append_snoc [] p ys = refl
  append_snoc (x ∷ xs) p ys = ap (λ t. x ∷ t) (append_snoc xs p ys)

  length_snoc : (xs : List Proxy) (p : Proxy) → length (xs ++ (p ∷ [])) ≡ suc (length xs)
  length_snoc [] p = refl
  length_snoc (x ∷ xs) p = ap suc (length_snoc xs p)

  -- What is added to a page of length `n`, when `skipped` nodes were skipped.
  abbrev added : ℕ → ℕ → List Proxy → List Proxy
  added n skipped good = take (limit - n) (drop (offset - skipped) good)

  added_skip :
      (n skipped : ℕ) (p : Proxy) (good : List Proxy)
      → ltb skipped offset ≡ true
      → added n skipped (p ∷ good) ≡ added n (suc skipped) good
  added_skip n skipped p good e =
      let less : offset - skipped ≡ suc (offset - suc skipped) = ground (arith, e) in rw less refl

  added_take :
      (n skipped : ℕ) (p : Proxy) (good : List Proxy)
      → ltb skipped offset ≡ false
      → ltb n limit ≡ true
      → added n skipped (p ∷ good) ≡ p ∷ added (suc n) skipped good
  added_take n skipped p good e f =
      let none_left : offset - skipped ≡ 0 = ground (arith, e) in
      let room : limit - n ≡ suc (limit - suc n) = ground (arith, f) in rw (none_left, room) refl

  added_full : (n skipped : ℕ) (good : List Proxy) → ltb n limit ≡ false → added n skipped good ≡ []
  added_full n skipped good f = let full : limit - n ≡ 0 = ground (arith, f) in rw full refl

  abbrev Scanned : Scan → List Proxy → Scan → Type 0
  Scanned s good t =
      (t.total ≡ s.total + length good) × (t.page ≡ s.page ++ added (length s.page) s.skipped good)

  one_node :
      (p : Proxy) (good : List Proxy) (s t : Scan)
      → Scanned (keep_node reachable limit offset p s) good t
      → Scanned s (p ∷ good) t
  unfolding keep_node
  one_node p good s t h = elim (Bool-cases (ltb s.skipped offset)) [
    | inl skip ↦
        let h2 = rw skip at h in
        (
          ground (arith, h2.0),
          h2.1 ∙ ap (λ x. s.page ++ x) (sym (added_skip (length s.page) s.skipped p good skip)),
        )
    | inr kept ↦ elim (Bool-cases (ltb (length s.page) limit)) [
      | inl room ↦
          let h2 = rw (kept, room) at h in
          (
            ground (arith, h2.0),
            h2.1
                ∙ append_snoc s.page p _
                ∙ ap (λ n. s.page ++ (p ∷ added n s.skipped good)) (length_snoc s.page p)
                ∙ ap (λ x. s.page ++ x)
                    (sym (added_take (length s.page) s.skipped p good kept room)),
          )
      | inr full ↦
          let h2 = rw (kept, full) at h in
          (
            ground (arith, h2.0),
            h2.1
                ∙ ap (λ x. s.page ++ x)
                    (added_full (length s.page) s.skipped good full
                      ∙ sym (added_full (length s.page) s.skipped (p ∷ good) full)),
          )
    ]
  ]

  added_none : (n skipped : ℕ) → added n skipped [] ≡ []
  added_none n skipped = ap (take (limit - n)) (dropped (offset - skipped)) ∙ taken (limit - n)
    where
      dropped : (m : ℕ) → drop {A = Proxy} m [] ≡ []
      dropped zero = refl
      dropped (suc m) = refl

      taken : (m : ℕ) → take {A = Proxy} m [] ≡ []
      taken zero = refl
      taken (suc m) = refl

  scan_node_kept :
      (p : Proxy) (s : Scan)
      → reachable p ≡ true
      → scan_node reachable limit offset p s
        ≡ keep_node reachable limit offset p (record s { cursor = some p })
  unfolding scan_node
  scan_node_kept p s e = rw e refl

  scan_node_left :
      (p : Proxy) (s : Scan)
      → reachable p ≡ false
      → scan_node reachable limit offset p s ≡ record s { cursor = some p }
  unfolding scan_node
  scan_node_left p s e = rw e refl

  -- What one pass over the nodes leaves.
  pub scan_batch_lem :
      (ps : List Proxy) (s : Scan)
      → Scanned s (select reachable ps) (scan_batch reachable limit offset ps s)
  unfolding scan_batch
  scan_batch_lem [] s =
      (ground arith, sym (append_nil s.page) ∙ ap (λ x. s.page ++ x) (sym (added_none _ s.skipped)))
  scan_batch_lem (p ∷ ps) s = elim (Bool-cases (reachable p)) [
    | inl e ↦
        let t = keep_node reachable limit offset p (record s { cursor = some p }) in
        subst (λ x. Scanned s (select reachable (p ∷ ps)) (scan_batch reachable limit offset ps x))
          (sym (scan_node_kept p s e))
          (rw e (
            one_node p (select reachable ps) (record s { cursor = some p })
              (scan_batch reachable limit offset ps t) (scan_batch_lem ps t)))
    | inr e ↦
        subst (λ x. Scanned s (select reachable (p ∷ ps)) (scan_batch reachable limit offset ps x))
          (sym (scan_node_left p s e)) (rw e (scan_batch_lem ps (record s { cursor = some p })))
  ]
