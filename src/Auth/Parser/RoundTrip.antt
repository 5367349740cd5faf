-- ===== src/Auth/Parser/RoundTrip.antt =====
-- User names of auth/dsl.go that are put together from a base, a region and a session.
use geo_proxy.Common.{
  ℕ, ◌≤◌, ◌≡◌, refl, true, [], ◌∷◌, ◌++◌, Option, none, some, length, take, drop, arith, inl,
}
use geo_proxy.Common.Key.{Text}
use geo_proxy.GoText.{Unicode, codes, has_prefix, is_ascii, to_lower}
use geo_proxy.GoText.Utf8.{runes-is_ascii}
use geo_proxy.Auth.{
  ok, value_end, index, first_marker, split_value, is_ascii_alpha, is_alpha, parse_region,
  is_session_id, parse_session,
}
use geo_proxy.Auth.Parser.{parse_username}
use geo_proxy.Auth.Parser.Panics.{
  AtLeast, no_dash, index_skip, index_here, le-length, value_end_here, take-append, drop-append,
}

no_index : (s marker : Text) → no_dash s ≡ true → index s (b'-' ∷ marker) ≡ none
unfolding index has_prefix
no_index [] marker h = refl
no_index (b ∷ s) marker h = ground (arith, no_index s marker)

first_none : (n : ℕ) → first_marker (none ∷ none ∷ none ∷ none ∷ []) n ≡ n
unfolding first_marker
first_none n = refl

value_end_all : (s : Text) → no_dash s ≡ true → value_end s ≡ length s
unfolding value_end
value_end_all s h =
    rw
      (
        no_index s (codes "region-") h,
        no_index s (codes "unlock-") h,
        no_index s (codes "session-") h,
        no_index s (codes "node-") h,
      )
      (first_none (length s))

third_first :
    (n m : ℕ) (p q t : Option ℕ)
    → AtLeast n p
    → AtLeast n q
    → AtLeast n t
    → n ≤ m
    → first_marker (p ∷ q ∷ some n ∷ t ∷ []) m ≡ n
unfolding first_marker
third_first n m p q t hp hq ht hm = ground arith

value_end-session :
    (base s : Text)
    → no_dash base ≡ true
    → has_prefix s (codes "-session-") ≡ true
    → value_end (base ++ s) ≡ length base
unfolding value_end
value_end-session base s h e = rw (index_here base s (codes "session-") h e) (
    third_first (length base) (length (base ++ s)) _ _ _ (index_skip base s (codes "region-") h)
      (index_skip base s (codes "unlock-") h) (index_skip base s (codes "node-") h)
      (le-length base s))

parse_region-session :
    (u : Unicode) (x y : ℕ) (rest : Text)
    → is_ascii_alpha x ≡ true
    → is_ascii_alpha y ≡ true
    → has_prefix rest (codes "-session-") ≡ true
    → parse_region u (x ∷ y ∷ rest) ≡ ok (to_lower u (x ∷ y ∷ []), rest)
unfolding parse_region split_value is_alpha is_ascii_alpha is_ascii
parse_region-session u x y rest hx hy e =
    let letters : Text = x ∷ y ∷ [] in
    let dashless : no_dash letters ≡ true = ground arith in
    let plain : is_ascii letters ≡ true = ground arith in
    rw (value_end-session letters rest dashless e, runes-is_ascii letters plain) (ground arith)

take_all : (s : Text) → take (length s) s ≡ s
take_all [] = refl
take_all (b ∷ s) = ground (arith, take_all s)

drop_all : (s : Text) → drop (length s) s ≡ []
drop_all [] = refl
drop_all (b ∷ s) = drop_all s

parse_session_all :
    (u : Unicode) (b : ℕ) (s : Text)
    → no_dash (b ∷ s) ≡ true
    → length (b ∷ s) ≤ 64
    → is_session_id u (b ∷ s) ≡ true
    → parse_session u (b ∷ s) ≡ ok (b ∷ s, [])
unfolding parse_session split_value
parse_session_all u b s h n w =
    rw (value_end_all (b ∷ s) h, take_all (b ∷ s), drop_all (b ∷ s), w) (ground (arith, take_all s))

-- A base and a session without a dash, a region of two letters, and a session of at most 64
-- characters that the parser allows: the name made of them parses back to them, the region in lower
-- case.
pub parse_username_route :
    (u : Unicode) (b : ℕ) (base : Text) (x y c : ℕ) (s : Text)
    → no_dash (b ∷ base) ≡ true
    → is_ascii_alpha x ≡ true
    → is_ascii_alpha y ≡ true
    → no_dash (c ∷ s) ≡ true
    → length (c ∷ s) ≤ 64
    → is_session_id u (c ∷ s) ≡ true
    → parse_username u
        ((b ∷ base) ++ (codes "-region-" ++ (x ∷ y ∷ (codes "-session-" ++ (c ∷ s)))))
      ≡ ok (record {
        base = b ∷ base;
        region = to_lower u (x ∷ y ∷ []);
        session = c ∷ s;
        unlock = [];
        node = [];
      })
unfolding parse_username
parse_username_route u b base x y c s h hx hy hs n w =
    let rest = codes "-session-" ++ (c ∷ s) in
    let tail = codes "-region-" ++ (x ∷ y ∷ rest) in
    let here : has_prefix rest (codes "-session-") ≡ true = unfold has_prefix in refl in
    rw
      (
        value_end_here (b ∷ base) tail h (inl (unfold has_prefix in refl)),
        take-append (b ∷ base) tail,
        drop-append (b ∷ base) tail,
      )
      (unfold has_prefix in
        rw
          (
            parse_region-session u x y rest hx hy (unfold has_prefix in refl),
            parse_session_all u c s hs n w,
          )
          (ground arith))
