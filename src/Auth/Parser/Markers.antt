-- ===== src/Auth/Parser/Markers.antt =====
-- Where a value of auth/dsl.go ends: at a marker, or at the end of the text.
use geo_proxy.Common.{
  ℕ, zero, suc, ◌<◌, drop, take, ◌≡◌, refl, sym, subst, ap, ◌∙◌, Bool, true, ◌||◌, ◌⊎◌, none, some,
  length, [], ◌∷◌, ◌++◌, Option, arith, inl, inr, Bool-cases, ltb,
}
use geo_proxy.Common.Key.{Text}
use geo_proxy.GoText.{codes, has_prefix}
use geo_proxy.Auth.{value_end, earlier, index, first_marker}

-- A marker of the language stands at the start.
abbrev pub starts_marker : Text → Bool
starts_marker s =
    has_prefix s (codes "-region-")
    || has_prefix s (codes "-unlock-")
    || has_prefix s (codes "-session-")
    || has_prefix s (codes "-node-")

-- A pin of a key, which is cut off by a marker right after "key".
abbrev pub CutKey : Text → Type 0
CutKey s =
    (pre : Text) × (rest : Text) × (s ≡ pre ++ (codes "-node-key" ++ rest))
    × (starts_marker rest ≡ true)

pub append_assoc : (a b c : Text) → (a ++ b) ++ c ≡ a ++ (b ++ c)
append_assoc [] b c = refl
append_assoc (x ∷ a) b c = ap (λ t. x ∷ t) (append_assoc a b c)

pub CutKey-append : (p s : Text) → CutKey s → CutKey (p ++ s)
CutKey-append p s (pre, rest, e, m) =
    (p ++ pre, rest, ap (λ t. p ++ t) e ∙ sym (append_assoc p pre (codes "-node-key" ++ rest)), m)

pub take-drop : (n : ℕ) (s : Text) → s ≡ take n s ++ drop n s
take-drop zero s = refl
take-drop (suc n) [] = refl
take-drop (suc n) (b ∷ s) = ap (λ t. b ∷ t) (take-drop n s)

pub has_prefix_lem : (s m : Text) → has_prefix s m ≡ true → s ≡ m ++ drop (length m) s
unfolding has_prefix
has_prefix_lem s [] e = refl
has_prefix_lem [] (c ∷ m) e = ground (arith, e)
has_prefix_lem (b ∷ s) (c ∷ m) e = ground (arith, has_prefix_lem s m)

-- The marker stands at the position, if there is one.
abbrev At : Text → Text → Option ℕ → Type 0
At s m none = Unit
At s m (some n) = has_prefix (drop n s) m ≡ true

index-At : (s m : Text) → At s m (index s m)
unfolding index
index-At [] m = elim (Bool-cases (has_prefix [] m)) [ inl e ↦ rw e e | inr e ↦ rw e tt ]
index-At (b ∷ s) m = elim (Bool-cases (has_prefix (b ∷ s) m)) [
  | inl e ↦ rw e e
  | inr e ↦ rw e (shift (index s m) (index-At s m))
]
  where
    shift :
        (o : Option ℕ)
        → At s m o
        → At (b ∷ s) m (elim o as (λ o. Option ℕ) [ none ↦ none | some i ↦ some (suc i) ])
    shift none a = tt
    shift (some n) a = a

-- At the end of the text, or at a marker.
abbrev Ends : Text → ℕ → Type 0
Ends s n = (n ≡ length s) ⊎ (starts_marker (drop n s) ≡ true)

abbrev Marks : Text → Option ℕ → Type 0
Marks s none = Unit
Marks s (some n) = starts_marker (drop n s) ≡ true

Marks-At :
    (s m : Text) (o : Option ℕ)
    → ((t : Text) → has_prefix t m ≡ true → starts_marker t ≡ true)
    → At s m o
    → Marks s o
Marks-At s m none marker a = tt
Marks-At s m (some n) marker a = marker (drop n s) a

earlier-Ends : (s : Text) (o : Option ℕ) (n : ℕ) → Marks s o → Ends s n → Ends s (earlier o n)
unfolding earlier
earlier-Ends s none n m e = e
earlier-Ends s (some p) n m e = elim (Bool-cases (ltb p n)) [
  | inl h ↦ rw h (inr m)
  | inr h ↦ rw h e
]

value_end-Ends : (s : Text) → Ends s (value_end s)
unfolding value_end first_marker
value_end-Ends s =
    earlier-Ends s (index s (codes "-region-")) _
      (Marks-At s (codes "-region-") _ (λ t e. ground (arith, e)) (index-At s (codes "-region-")))
      (earlier-Ends s (index s (codes "-unlock-")) _
        (Marks-At s (codes "-unlock-") _ (λ t e. ground (arith, e)) (index-At s (codes "-unlock-")))
        (earlier-Ends s (index s (codes "-session-")) _
          (Marks-At s (codes "-session-") _ (λ t e. ground (arith, e))
            (index-At s (codes "-session-")))
          (earlier-Ends s (index s (codes "-node-")) _
            (Marks-At s (codes "-node-") _ (λ t e. ground (arith, e)) (index-At s (codes "-node-")))
            (inl refl))))

-- A value that starts with "key-" and ends before its fourth byte ends right after "key".
cut_at_three :
    (t : Text) (n : ℕ) → n < 4 → starts_marker (drop n (codes "key-" ++ t)) ≡ true → n ≡ 3
unfolding has_prefix
cut_at_three t zero h m = absurd (ground (arith, m))
cut_at_three t (suc zero) h m = absurd (ground (arith, m))
cut_at_three t (suc (suc zero)) h m = absurd (ground (arith, m))
cut_at_three t (suc (suc (suc zero))) h m = refl
cut_at_three t (suc (suc (suc (suc n)))) h m = absurd (omega (arith, h))

pub key_cut : (t : Text) → value_end (codes "key-" ++ t) < 4 → starts_marker (codes "-" ++ t) ≡ true
key_cut t e = elim (value_end-Ends (codes "key-" ++ t)) [
  | inl end ↦ absurd (omega (arith, e, end))
  | inr m ↦
      subst (λ n. starts_marker (drop n (codes "key-" ++ t)) ≡ true)
        (cut_at_three t (value_end (codes "key-" ++ t)) e m) m
]
