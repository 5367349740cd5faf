-- ===== src/Auth/Parser/Safety.antt =====
-- The only user names on which the parser of auth/dsl.go panics.
use geo_proxy.Common.{
  ℕ, ◌<◌, drop, take, ◌≡◌, refl, sym, subst, ap, ◌∙◌, Bool, true, false, length, List, [], ◌∷◌,
  ◌++◌, arith, inl, inr, Bool-cases, if◌then◌else◌, not, ltb, ◌==◌,
}
use geo_proxy.Common.Key.{Text}
use geo_proxy.GoText.{Unicode, codes, has_prefix}
use geo_proxy.Auth.{
  ParsedUsername, Parse, ok, err, panic, ◌>>=◌, value_end, split_value, parse_region, parse_session,
  normalize_unlock_token, add_new, DslError, empty_session, long_session, bad_session, empty_unlock,
  max_session_length, is_session_id, fields_from,
}
use geo_proxy.Auth.Parser.{
  parse_node, parse_unlock, take_region, take_unlock, take_node, take_session, add_tokens,
  add_parts, not_empty, finish, suffixes, after_base, only_base, parse_username,
}
use geo_proxy.Auth.Parser.Markers.{
  CutKey, append_assoc, CutKey-append, take-drop, has_prefix_lem, key_cut,
}
use geo_proxy.Auth.Parser.Panics.{parse_node_panic_iff}

-- What has been parsed, and what is left of the text.
abbrev Left : Type 0
Left = ParsedUsername × Text

-- What a step leaves is the end of what it was given, and it does not panic.
abbrev Leaves : Text → Parse Left → Type 0
Leaves s (ok (parsed, rest)) = (p : Text) × (s ≡ p ++ rest)
Leaves s (err e) = Unit
Leaves s panic = ⊥

-- The same of the reading of one value.
abbrev Rest : {A : Type 0} → Text → Parse (A × Text) → Type 0
Rest s (ok (value, rest)) = (p : Text) × (s ≡ p ++ rest)
Rest s (err e) = Unit
Rest s panic = ⊥

or_error-Rest :
    {A : Type 0} (b : Bool) (x : DslError) (value : A) (n : ℕ) (s : Text)
    → Rest s (if b then err x else ok (value, drop n s))
or_error-Rest true x value n s = tt
or_error-Rest false x value n s = (take n s, take-drop n s)

or_error-again :
    {A : Type 0} (b : Bool) (x : DslError) (s : Text) (r : Parse (A × Text))
    → Rest s r
    → Rest s (if b then err x else r)
or_error-again true x s r h = tt
or_error-again false x s r h = h

read-Leaves :
    {A : Type 0} (s m : Text) (r : Parse (A × Text)) (set : A → ParsedUsername)
    → has_prefix s m ≡ true
    → Rest (drop (length m) s) r
    → Leaves s (r >>= λ x. ok (set x.0, x.1))
read-Leaves s m (ok (value, rest)) set h (p, split) =
    (m ++ p, has_prefix_lem s m h ∙ ap (λ t. m ++ t) split ∙ sym (append_assoc m p rest))
read-Leaves s m (err x) set h r = tt
read-Leaves s m panic set h r = r

module _ (u : Unicode) where
  parse_node-CutKey :
      (s : Text) → has_prefix s (codes "-node-") ≡ true → parse_node u (drop 6 s) ≡ panic → CutKey s
  parse_node-CutKey s h e =
      let (k, early) = (parse_node_panic_iff u (drop 6 s)).0 e in
      let t = drop 4 (drop 6 s) in
      let whole : drop 6 s ≡ codes "key-" ++ t = has_prefix_lem (drop 6 s) (codes "key-") k in
      (
        [],
        codes "-" ++ t,
        has_prefix_lem s (codes "-node-") h ∙ ap (λ x. codes "-node-" ++ x) whole,
        key_cut t (subst (λ x. value_end x < 4) whole early),
      )

  bind-CutKey :
      (s : Text) (r : Parse Left) (k : Left → Parse ParsedUsername)
      → Leaves s r
      → ((x : Left) → k x ≡ panic → CutKey x.1)
      → (r >>= k) ≡ panic
      → CutKey s
  bind-CutKey s (ok (parsed, rest)) k (p, split) next e =
      subst CutKey (sym split) (CutKey-append p rest (next (parsed, rest) e))
  bind-CutKey s (err x) k l next e = absurd (ground (arith, e))
  bind-CutKey s panic k l next e = absurd l

  parse_region-Rest : (s : Text) → Rest s (parse_region u s)
  unfolding parse_region split_value
  parse_region-Rest s = or_error-Rest _ _ _ _ s

  parse_session-Rest : (s : Text) → Rest s (parse_session u s)
  unfolding parse_session split_value
  parse_session-Rest s =
      let value = (split_value s).0 in
      or_error-again {A = Text} (length value == 0) empty_session s _ (
        or_error-again {A = Text} (ltb max_session_length (length value)) long_session s _ (
          or_error-Rest {A = Text} (not (is_session_id u value)) bad_session value (value_end s) s))

  normalize-total : (token : Text) → ¬ (normalize_unlock_token u token ≡ panic)
  unfolding normalize_unlock_token
  normalize-total token e = ground arith

  next-total :
      (r : Parse (List Text)) (next : List Text → Parse (List Text))
      → ¬ (r ≡ panic)
      → ((norm : List Text) → ¬ (next norm ≡ panic))
      → ¬ (
          (elim r as (λ r. Parse (List Text)) [
            | err x ↦ err x
            | panic ↦ panic
            | ok norm ↦ next norm
          ])
          ≡ panic)
  next-total (ok norm) next t n h = n norm h
  next-total (err x) next t n h = ground (arith, h)
  next-total panic next t n h = t refl

  add_tokens-total : (out tokens : List Text) → ¬ (add_tokens u out tokens ≡ panic)
  unfolding add_tokens
  add_tokens-total out [] e = ground (arith, e)
  add_tokens-total out (token ∷ tokens) e =
      next-total (normalize_unlock_token u token) (λ norm. add_tokens u (add_new out norm) tokens)
        (normalize-total token) (λ norm. add_tokens-total (add_new out norm) tokens) e

  not_empty-Rest :
      (r : Parse (List Text)) (n : ℕ) (s : Text)
      → ¬ (r ≡ panic)
      → Rest s (r >>= λ out. not_empty u out (drop n s))
  unfolding not_empty
  not_empty-Rest (ok []) n s t = tt
  not_empty-Rest (ok (x ∷ out)) n s t = (take n s, take-drop n s)
  not_empty-Rest (err x) n s t = tt
  not_empty-Rest panic n s t = t refl

  add_parts-Rest : (parts : List Text) (n : ℕ) (s : Text) → Rest s (add_parts u parts (drop n s))
  unfolding add_parts
  add_parts-Rest [] n s = tt
  add_parts-Rest (part ∷ parts) n s = not_empty-Rest _ n s (add_tokens-total [] (part ∷ parts))

  parse_unlock-Rest : (s : Text) → Rest s (parse_unlock u s)
  unfolding parse_unlock split_value
  parse_unlock-Rest s =
      let value = (split_value s).0 in
      or_error-again {A = List Text} (length value == 0) empty_unlock s
        (add_parts u (fields_from [] value) (drop (value_end s) s))
        (add_parts-Rest (fields_from [] value) (value_end s) s)

  take_region-Leaves : (x : Left) → Leaves x.1 (take_region u x)
  unfolding take_region
  take_region-Leaves (parsed, s) = elim (Bool-cases (has_prefix s (codes "-region-"))) [
    | inl e ↦ rw e (
        read-Leaves s (codes "-region-") (parse_region u (drop 8 s))
          (λ v. record parsed { region = v }) e (parse_region-Rest (drop 8 s)))
    | inr e ↦ rw e ([], refl)
  ]

  take_unlock-Leaves : (x : Left) → Leaves x.1 (take_unlock u x)
  unfolding take_unlock
  take_unlock-Leaves (parsed, s) = elim (Bool-cases (has_prefix s (codes "-unlock-"))) [
    | inl e ↦ rw e (
        read-Leaves s (codes "-unlock-") (parse_unlock u (drop 8 s))
          (λ v. record parsed { unlock = v }) e (parse_unlock-Rest (drop 8 s)))
    | inr e ↦ rw e ([], refl)
  ]

  take_session-Leaves : (x : Left) → Leaves x.1 (take_session u x)
  unfolding take_session
  take_session-Leaves (parsed, s) = elim (Bool-cases (has_prefix s (codes "-session-"))) [
    | inl e ↦ rw e (
        read-Leaves s (codes "-session-") (parse_session u (drop 9 s))
          (λ v. record parsed { session = v }) e (parse_session-Rest (drop 9 s)))
    | inr e ↦ rw e ([], refl)
  ]

  after_node-total : (x : Left) → ¬ ((take_session u x >>= finish u) ≡ panic)
  after_node-total x = go (take_session u x) (take_session-Leaves x)
    where
      go : (r : Parse Left) → Leaves x.1 r → ¬ ((r >>= finish u) ≡ panic)
      go (ok (parsed, [])) l e = unfold finish in cc
      go (ok (parsed, b ∷ rest)) l e = unfold finish in cc
      go (err y) l e = cc
      go panic l e = l

  take_node-CutKey :
      (x : Left) → (take_node u x >>= λ c. take_session u c >>= finish u) ≡ panic → CutKey x.1
  unfolding take_node
  take_node-CutKey (parsed, s) e = elim (Bool-cases (has_prefix s (codes "-node-"))) [
    | inl h ↦ go (parse_node u (drop 6 s)) refl h (rw h at e)
    | inr h ↦ absurd (after_node-total (parsed, s) (rw h at e))
  ]
    where
      go :
          (r : Parse (Text × Text))
          → parse_node u (drop 6 s) ≡ r
          → has_prefix s (codes "-node-") ≡ true
          → ((r >>= λ y. ok (record parsed { node = y.0 }, y.1)) >>= λ c.
              take_session u c >>= finish u)
            ≡ panic
          → CutKey s
      go (ok y) is p h = absurd (after_node-total (record parsed { node = y.0 }, y.1) h)
      go (err y) is p h = absurd (ground (arith, h))
      go panic is p h = parse_node-CutKey s p is

  suffixes-CutKey : (x : Left) → suffixes u x ≡ panic → CutKey x.1
  unfolding suffixes
  suffixes-CutKey x e =
      bind-CutKey x.1 (take_region u x) _ (take_region-Leaves x)
        (λ a. bind-CutKey a.1 (take_unlock u a) _ (take_unlock-Leaves a) take_node-CutKey) e

  after_base-CutKey : (x : Left) → after_base u x ≡ panic → CutKey x.1
  unfolding after_base
  after_base-CutKey (parsed, []) e = absurd (ground (arith, e))
  after_base-CutKey (parsed, b ∷ rest) e = suffixes-CutKey (parsed, b ∷ rest) e

  -- A user name on which the parser panics holds a pin of a key that is cut off: the text "-node-key",
  -- and then a marker ("-region-", "-unlock-", "-session-" or "-node-").
  pub parse_username-CutKey : (raw : Text) → parse_username u raw ≡ panic → CutKey raw
  unfolding parse_username
  parse_username-CutKey [] e = absurd (ground (arith, e))
  parse_username-CutKey (b ∷ s) e =
      let raw = b ∷ s in
      let n = value_end raw in
      elim (Bool-cases (n == 0)) [
        | inl h ↦ absurd (ground (arith, h, e))
        | inr h ↦
            let past = after_base-CutKey (only_base u (take n raw), drop n raw) (rw h at e) in
            subst CutKey (sym (take-drop n raw)) (CutKey-append (take n raw) (drop n raw) past)
      ]
