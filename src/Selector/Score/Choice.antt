-- ===== src/Selector/Score/Choice.antt =====
-- Which candidate the loop of `pickSessionCandidateWithAffinity` chooses.
use geo_proxy.Common.{
  ℕ, ◌≡◌, refl, Bool, true, false, ◌&&◌, ◌||◌, inl, inr, ◌↔◌, List, [], ◌∷◌, Option, none, some,
  ltb, In, ◌==◌, arith, Bool-cases,
}
use geo_proxy.Common.Key.{Text}
use geo_proxy.GoText.{text_ltb}
use geo_proxy.GoText.Order.{text_ltb_irrefl, text_ltb_trans, text_ltb_total}
use geo_proxy.Storage.{Proxy}
use geo_proxy.Selector.Score.{pick_loop, best_key}

-- No score is NaN: the two comparisons are those of a rank.
pub record IsRanked {S : Type 0} (ltb' eqb' : S → S → Bool) (score : Proxy → S) : Type 0 where
  pub rank : Proxy → ℕ
  pub lt_rank : (p q : Proxy) → ltb' (score p) (score q) ≡ ltb (rank p) (rank q)
  pub eq_rank : (p q : Proxy) → eqb' (score p) (score q) ≡ (rank p == rank q)

module _ (rank : Proxy → ℕ) (tie_key : Proxy → Text) where
  -- A lower score, or the same score and a smaller tie key.
  abbrev pub beats : Proxy → Proxy → Bool
  beats p q = ltb (rank p) (rank q) || ((rank p == rank q) && text_ltb (tie_key p) (tie_key q))

  unbeaten_trans : (p q r : Proxy) → beats q p ≡ false → beats p r ≡ false → beats q r ≡ false
  unbeaten_trans p q r a b = ground (
    arith,
    text_ltb_trans (tie_key q) (tie_key r) (tie_key p),
    text_ltb_total (tie_key p) (tie_key r),
  )

  beats_asym : (p q : Proxy) → beats p q ≡ true → beats q p ≡ false
  beats_asym p q a =
      ground
        (arith, text_ltb_trans (tie_key p) (tie_key q) (tie_key p), text_ltb_irrefl (tie_key p))

  beats_irrefl : (p : Proxy) → beats p p ≡ false
  beats_irrefl p = ground (arith, text_ltb_irrefl (tie_key p))

  -- `r` is one of the candidates, and none of them beats it.
  pub record IsBest (candidates : List Proxy) (r : Proxy) : Type 0 where
    pub member : In r candidates
    pub unbeaten : (x : Proxy) → In x candidates → beats x r ≡ false

  IsBest-one : (p : Proxy) → IsBest (p ∷ []) p
  IsBest-one p = record {
    member = inl refl;
    unbeaten = λ x. elim [ inl e ↦ rw e (beats_irrefl p) | inr n ↦ absurd n ];
  }

  -- The winner of the rest takes the place of a candidate that does not beat the rest's first.
  IsBest-won :
      (p q : Proxy) (rest : List Proxy) (r : Proxy)
      → beats q p ≡ false
      → IsBest (p ∷ rest) r
      → IsBest (q ∷ p ∷ rest) r
  IsBest-won p q rest r a b = record {
    member = inr b.member;
    unbeaten = λ x. elim [
      | inl e ↦ rw e (unbeaten_trans p q r a (b.unbeaten p (inl refl)))
      | inr m ↦ b.unbeaten x m
    ];
  }

  IsBest-lost :
      (p q : Proxy) (rest : List Proxy) (r : Proxy)
      → beats p q ≡ false
      → IsBest (q ∷ rest) r
      → IsBest (q ∷ p ∷ rest) r
  IsBest-lost p q rest r a b = record {
    member = elim b.member [ inl e ↦ inl e | inr m ↦ inr (inr m) ];
    unbeaten = λ x. elim [
      | inl e ↦ b.unbeaten x (inl e)
      | inr (inl e) ↦ rw e (unbeaten_trans q p r a (b.unbeaten q (inl refl)))
      | inr (inr m) ↦ b.unbeaten x (inr m)
    ];
  }

module _ {S : Type 0} (ltb' eqb' : S → S → Bool) (score : Proxy → S) (tie_key : Proxy → Text)
    (ranked : IsRanked ltb' eqb' score) where
  -- The kept key, if there is one, is that of the best.
  abbrev KeyOf : Proxy → Option Text → Type 0
  KeyOf picked none = Unit
  KeyOf picked (some key) = key ≡ tie_key picked

  best_key_lem :
      (picked : Proxy) (key : Option Text)
      → KeyOf picked key
      → best_key ltb' eqb' score tie_key picked key ≡ tie_key picked
  unfolding best_key
  best_key_lem picked none k = refl
  best_key_lem picked (some key) k = k

  -- The kept score compares as that of the best, also after an equal score of another took over.
  abbrev ScoreOf : Proxy → S → Type 0
  ScoreOf picked s =
      (x : Proxy)
      → (ltb' (score x) s ≡ ltb (ranked.rank x) (ranked.rank picked))
        × (eqb' (score x) s ≡ (ranked.rank x == ranked.rank picked))

  ScoreOf-own : (p : Proxy) → ScoreOf p (score p)
  ScoreOf-own p x = (ranked.lt_rank x p, ranked.eq_rank x p)

  loop-IsBest :
      (picked : Proxy) (s : S) (key : Option Text) (rest : List Proxy)
      → ScoreOf picked s
      → KeyOf picked key
      → IsBest ranked.rank tie_key
          (picked ∷ rest)
          (pick_loop ltb' eqb' score tie_key picked s key rest)
  unfolding pick_loop
  loop-IsBest picked s key [] e k = IsBest-one ranked.rank tie_key picked
  loop-IsBest picked s key (p ∷ rest) e k = elim (Bool-cases (ltb' (score p) s)) [
    | inl less ↦ rw less (
        IsBest-won ranked.rank tie_key p picked rest _ (ground (arith, (e p).0))
          (loop-IsBest p (score p) none rest (ScoreOf-own p) tt))
    | inr not_less ↦ elim (Bool-cases (eqb' (score p) s)) [
      | inr differs ↦
          rw (not_less, differs)
            (IsBest-lost ranked.rank tie_key p picked rest _ (ground (arith, (e p).0, (e p).1))
              (loop-IsBest picked s key rest e k))
      | inl same ↦
          let keys = best_key_lem picked key k in
          elim (Bool-cases (text_ltb (tie_key p) (best_key ltb' eqb' score tie_key picked key))) [
            | inl smaller ↦
                rw (not_less, same, smaller)
                  (IsBest-won ranked.rank tie_key p picked rest _
                    (first_beaten p picked (ground (arith, (e p).1)) (rw keys at smaller))
                    (loop-IsBest p s (some (tie_key p)) rest
                      (λ x. ground (arith, (e x).0, (e x).1, (e p).1)) refl))
            | inr not_smaller ↦
                rw (not_less, same, not_smaller)
                  (IsBest-lost ranked.rank tie_key p picked rest _ (ground (arith, (e p).1, keys))
                    (loop-IsBest picked s _ rest e keys))
          ]
    ]
  ]
    where
      first_beaten :
          (p q : Proxy)
          → ranked.rank p ≡ ranked.rank q
          → text_ltb (tie_key p) (tie_key q) ≡ true
          → beats ranked.rank tie_key q p ≡ false
      first_beaten p q r t = beats_asym ranked.rank tie_key p q (ground arith)

  -- The loop chooses a candidate that no other beats: of the lowest score, and of the smallest tie
  -- key among those.
  pub pick_loop-IsBest :
      (first : Proxy) (rest : List Proxy)
      → IsBest ranked.rank tie_key
          (first ∷ rest)
          (pick_loop ltb' eqb' score tie_key first (score first) none rest)
  pick_loop-IsBest first rest = loop-IsBest first (score first) none rest (ScoreOf-own first) tt

  -- If no score is NaN and distinct candidates have distinct tie keys, the choice depends on which
  -- candidates there are, and not on their order or on repetitions.
  pub pick_loop_order :
      (p q : Proxy) (ps qs : List Proxy)
      → ((x : Proxy) → In x (p ∷ ps) ↔ In x (q ∷ qs))
      → ((x y : Proxy) → In x (p ∷ ps) → In y (p ∷ ps) → tie_key x ≡ tie_key y → x ≡ y)
      → pick_loop ltb' eqb' score tie_key p (score p) none ps
        ≡ pick_loop ltb' eqb' score tie_key q (score q) none qs
  pick_loop_order p q ps qs same distinct =
      let b = pick_loop-IsBest p ps in
      let c = pick_loop-IsBest q qs in
      let x = pick_loop ltb' eqb' score tie_key p (score p) none ps in
      let y = pick_loop ltb' eqb' score tie_key q (score q) none qs in
      distinct x y b.member ((same y).1 c.member) (
        ground (
          arith,
          b.unbeaten y ((same y).1 c.member),
          c.unbeaten x ((same x).0 b.member),
          text_ltb_total (tie_key x) (tie_key y),
        ))
