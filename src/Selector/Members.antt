-- ===== src/Selector/Members.antt =====
-- Where a node that a filter or a choice of the selector returns comes from.
use geo_proxy.Common.{
  ◌≡◌, refl, Bool, true, false, ◌⊎◌, inl, inr, List, [], ◌∷◌, Option, none, some, if◌then◌else◌,
  select, Bool-cases,
}
use geo_proxy.Common.Key.{Text}
use geo_proxy.GoText.{text_ltb}
use geo_proxy.Storage.{Proxy}
use geo_proxy.Affinity.{Store}
use geo_proxy.Selector.{
  Runtime, proxy_available, available_proxies, proxy_matches_unlock, filter_by_unlock,
}
use geo_proxy.Selector.Score.{Float64, best_key, pick_loop, pick_session_candidate}
use geo_proxy.Common.{In}

pub In-select :
    (test : Proxy → Bool) (x : Proxy) (ps : List Proxy)
    → In x (select test ps)
    → In x ps × (test x ≡ true)
In-select test x [] m = absurd m
In-select test x (p ∷ ps) m = elim (Bool-cases (test p)) [
  | inl t ↦ elim (here t) [ inl e ↦ (inl e, rw e t) | inr n ↦ later (In-select test x ps n) ]
  | inr f ↦ later (In-select test x ps (rw f at m))
]
  where
    here : test p ≡ true → In x (p ∷ select test ps)
    here t = rw t at m

    later : In x ps × (test x ≡ true) → In x (p ∷ ps) × (test x ≡ true)
    later r = (inr r.0, r.1)

In-if : (b : Bool) (x y : Proxy) (ps : List Proxy) → In x ps → In y ps → In (if b then x else y) ps
In-if true x y ps mx my = mx
In-if false x y ps mx my = my

module _ {S : Type 0} (ltb' eqb' : S → S → Bool) (score : Proxy → S) (tie_key : Proxy → Text) where
  -- The winner of a shorter list is in the longer one.
  In-skip :
      (x p q : Proxy) (ps : List Proxy) → (In x (p ∷ ps)) ⊎ (In x (q ∷ ps)) → In x (p ∷ q ∷ ps)
  In-skip x p q ps (inl (inl e)) = inl e
  In-skip x p q ps (inl (inr m)) = inr (inr m)
  In-skip x p q ps (inr m) = inr m

  pub pick_loop-In :
      (picked : Proxy) (s : S) (key : Option Text) (rest : List Proxy)
      → In (pick_loop ltb' eqb' score tie_key picked s key rest) (picked ∷ rest)
  unfolding pick_loop
  pick_loop-In picked s key [] = inl refl
  pick_loop-In picked s key (p ∷ rest) =
      In-if (ltb' (score p) s) _ _ all
        (In-skip _ picked p rest (inr (pick_loop-In p (score p) none rest)))
        (In-if (eqb' (score p) s) _ _ all
          (In-if (text_ltb (tie_key p) (best_key ltb' eqb' score tie_key picked key)) _ _ all
            (In-skip _ picked p rest (inr (pick_loop-In p s (some (tie_key p)) rest)))
            (In-skip _ picked p rest (
              inl
                (pick_loop-In picked s (some (best_key ltb' eqb' score tie_key picked key)) rest))))
          (In-skip _ picked p rest (inl (pick_loop-In picked s key rest))))
    where
      all : List Proxy
      all = picked ∷ p ∷ rest

pub In-filter_by_unlock :
    (rt : Runtime) (unlock : List Text) (x : Proxy) (ps : List Proxy)
    → In x (filter_by_unlock rt (available_proxies ps) unlock)
    → In x ps × (proxy_available x ≡ true) × (proxy_matches_unlock rt x unlock ≡ true)
unfolding filter_by_unlock available_proxies
In-filter_by_unlock rt [] x ps m =
    let r = In-select proxy_available x ps m in (r.0, r.1, unfold proxy_matches_unlock in refl)
In-filter_by_unlock rt (u ∷ unlock) x ps m =
    let q = In-select _ x (select proxy_available ps) m in
    let r = In-select proxy_available x ps q.0 in (r.0, r.1, q.1)

pub pick_session_candidate-In :
    (f : Float64) (p : Proxy) (ps : List Proxy) (session : Text) (s : Option Store)
    → In (pick_session_candidate f p ps session s) (p ∷ ps)
unfolding pick_session_candidate
pick_session_candidate-In f p ps session s = pick_loop-In f.ltb f.eqb _ _ p _ none ps
