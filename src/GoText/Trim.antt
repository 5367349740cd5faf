-- ===== src/GoText/Trim.antt =====
-- `strings.ToLower(strings.TrimSpace(s))` changes nothing the second time, for a text that is ASCII.
use geo_proxy.Common.{
  ℕ, ◌≡◌, refl, ap, ◌∙◌, Bool, true, false, [], ◌∷◌, ◌++◌, ltb, map, all_of, arith, Bool-cases, inl,
  inr,
}
use mathlib.Core.List.{reverse, reverse-cons, reverse-append, reverse-reverse}
use geo_proxy.Common.Key.{Text}
use geo_proxy.GoText.{Unicode, is_ascii, is_space, trim_left, trim_space, to_lower, lower_byte}

trim_left-append :
    (s : Text) (b : ℕ) → is_space b ≡ false → trim_left (s ++ (b ∷ [])) ≡ trim_left s ++ (b ∷ [])
unfolding trim_left
trim_left-append [] b e = rw e refl
trim_left-append (a ∷ s) b e = elim (Bool-cases (is_space a)) [
  | inl h ↦ rw h (trim_left-append s b e)
  | inr h ↦ rw h refl
]

trim_left-trim_left : (s : Text) → trim_left (trim_left s) ≡ trim_left s
unfolding trim_left
trim_left-trim_left [] = refl
trim_left-trim_left (a ∷ s) = elim (Bool-cases (is_space a)) [
  | inl h ↦ rw h (trim_left-trim_left s)
  | inr h ↦ rw h (rw h refl)
]

-- Spaces cut off at the end leave the start as it is.
trim_end : Text → Text
trim_end s = reverse (trim_left (reverse s))

clean_start : (s : Text) → trim_left (trim_end (trim_left s)) ≡ trim_end (trim_left s)
unfolding trim_left trim_end
clean_start [] = refl
clean_start (b ∷ s) = elim (Bool-cases (is_space b)) [
  | inl h ↦ rw h (clean_start s)
  | inr h ↦
      rw
        (
          h,
          reverse-cons b s,
          trim_left-append (reverse s) b h,
          reverse-append (trim_left (reverse s)) (b ∷ []),
          h,
        )
        refl
]

trim_end-trim_end : (s : Text) → trim_end (trim_end s) ≡ trim_end s
unfolding trim_end
trim_end-trim_end s =
    rw (reverse-reverse (trim_left (reverse s)), trim_left-trim_left (reverse s)) refl

trimmed : Text → Text
trimmed s = trim_end (trim_left s)

trimmed-trimmed : (s : Text) → trimmed (trimmed s) ≡ trimmed s
unfolding trimmed
trimmed-trimmed s = ap trim_end (clean_start s) ∙ trim_end-trim_end (trim_left s)

module _ (f : ℕ → ℕ) (same : (b : ℕ) → is_space (f b) ≡ is_space b) where
  trim_left-map : (s : Text) → trim_left (map f s) ≡ map f (trim_left s)
  unfolding trim_left
  trim_left-map [] = refl
  trim_left-map (b ∷ s) = elim (Bool-cases (is_space b)) [
    | inl h ↦ rw (same b, h) (trim_left-map s)
    | inr h ↦ rw (same b, h) refl
  ]

  map_snoc : (s : Text) (b : ℕ) → map f (s ++ (b ∷ [])) ≡ map f s ++ (f b ∷ [])
  map_snoc [] b = refl
  map_snoc (a ∷ s) b = ap (λ t. f a ∷ t) (map_snoc s b)

  reverse-map : (s : Text) → reverse (map f s) ≡ map f (reverse s)
  reverse-map [] = refl
  reverse-map (b ∷ s) =
      rw (reverse-cons (f b) (map f s), reverse-map s, reverse-cons b s, map_snoc (reverse s) b)
        refl

  trimmed-map : (s : Text) → trimmed (map f s) ≡ map f (trimmed s)
  unfolding trimmed trim_end
  trimmed-map s =
      rw
        (
          trim_left-map s,
          reverse-map (trim_left s),
          trim_left-map (reverse (trim_left s)),
          reverse-map (trim_left (reverse (trim_left s))),
        )
        refl

module _ (P : ℕ → Bool) where
  all_of-trim_left : (s : Text) → all_of P s ≡ true → all_of P (trim_left s) ≡ true
  unfolding trim_left
  all_of-trim_left [] h = refl
  all_of-trim_left (b ∷ s) h = elim (Bool-cases (is_space b)) [
    | inl e ↦ rw e (all_of-trim_left s (ground arith))
    | inr e ↦ rw e h
  ]

  all_of-snoc :
      (s : Text) (b : ℕ) → all_of P s ≡ true → P b ≡ true → all_of P (s ++ (b ∷ [])) ≡ true
  all_of-snoc [] b h e = ground arith
  all_of-snoc (a ∷ s) b h e = ground (arith, all_of-snoc s b)

  all_of-reverse : (s : Text) → all_of P s ≡ true → all_of P (reverse s) ≡ true
  all_of-reverse [] h = refl
  all_of-reverse (b ∷ s) h =
      rw (reverse-cons b s)
        (all_of-snoc (reverse s) b (all_of-reverse s (ground arith)) (ground arith))

  all_of-trimmed : (s : Text) → all_of P s ≡ true → all_of P (trimmed s) ≡ true
  unfolding trimmed trim_end
  all_of-trimmed s h =
      all_of-reverse _ (all_of-trim_left _ (all_of-reverse _ (all_of-trim_left s h)))

lower_byte-is_space : (b : ℕ) → is_space (lower_byte b) ≡ is_space b
unfolding is_space lower_byte
lower_byte-is_space b = ground arith

pub lower_byte-ascii : (s : Text) → is_ascii (map lower_byte s) ≡ is_ascii s
unfolding is_ascii lower_byte
lower_byte-ascii [] = refl
lower_byte-ascii (b ∷ s) = ground (arith, lower_byte-ascii s)

pub lower_twice : (s : Text) → map lower_byte (map lower_byte s) ≡ map lower_byte s
unfolding lower_byte
lower_twice [] = refl
lower_twice (b ∷ s) =
    let e : lower_byte (lower_byte b) ≡ lower_byte b = ground arith in rw (e, lower_twice s) refl

trim_space-ascii : (u : Unicode) (s : Text) → is_ascii s ≡ true → trim_space u s ≡ trimmed s
unfolding trim_space trimmed trim_end
trim_space-ascii u s h = rw h refl

to_lower-ascii : (u : Unicode) (s : Text) → is_ascii s ≡ true → to_lower u s ≡ map lower_byte s
unfolding to_lower
to_lower-ascii u s h = rw h refl

pub normalize_ascii :
    (u : Unicode) (s : Text)
    → is_ascii s ≡ true
    → to_lower u (trim_space u (to_lower u (trim_space u s))) ≡ to_lower u (trim_space u s)
normalize_ascii u s h =
    let t = trimmed s in
    let ascii : is_ascii t ≡ true =
      unfold is_ascii in all_of-trimmed (λ b. ltb b 128) s (unfold is_ascii in h) in
    let lower : is_ascii (map lower_byte t) ≡ true = lower_byte-ascii t ∙ ascii in
    let once : trimmed (map lower_byte t) ≡ map lower_byte t =
      trimmed-map lower_byte lower_byte-is_space t ∙ ap (map lower_byte) (trimmed-trimmed s) in
    rw
      (
        trim_space-ascii u s h,
        to_lower-ascii u t ascii,
        trim_space-ascii u (map lower_byte t) lower,
        once,
        to_lower-ascii u (map lower_byte t) lower,
        lower_twice t,
      )
      refl
