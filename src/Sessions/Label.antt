-- ===== src/Sessions/Label.antt =====
-- The label of webui/sessions.go is a route that auth/dsl.go reads.
use geo_proxy.Common.{ℕ, ◌≡◌, ◌≤◌, true, [], ◌∷◌, ◌++◌, length, arith}
use geo_proxy.Common.Key.{Text, text_eq}
use geo_proxy.GoText.{Unicode, codes, to_lower, trim_space}
use geo_proxy.Selector.{is_empty}
use geo_proxy.Auth.{ok, is_ascii_alpha, is_session_id}
use geo_proxy.Auth.Parser.{parse_username}
use geo_proxy.Auth.Parser.Panics.{no_dash}
use geo_proxy.Auth.Parser.RoundTrip.{parse_username_route}
use geo_proxy.Sessions.{session_route_label}

label_of :
    (u : Unicode) (x y c : ℕ) (s : Text)
    → to_lower u (x ∷ y ∷ []) ≡ x ∷ y ∷ []
    → trim_space u (x ∷ y ∷ []) ≡ x ∷ y ∷ []
    → trim_space u (c ∷ s) ≡ c ∷ s
    → session_route_label u (x ∷ y ∷ []) (c ∷ s)
      ≡ codes "region-" ++ (x ∷ y ∷ (codes "-session-" ++ (c ∷ s)))
unfolding session_route_label is_empty text_eq
label_of u x y c s lower tight trimmed = rw (trimmed, tight, lower) (ground arith)

-- For a region of two lower-case letters and a session without a dash that the parser allows, as the
-- store holds them (no space around them): a base without a dash, a dash and the label parse to the
-- base, the region and the session.
pub parse_username-session_route_label :
    (u : Unicode) (b : ℕ) (base : Text) (x y c : ℕ) (s : Text)
    → no_dash (b ∷ base) ≡ true
    → is_ascii_alpha x ≡ true
    → is_ascii_alpha y ≡ true
    → to_lower u (x ∷ y ∷ []) ≡ x ∷ y ∷ []
    → trim_space u (x ∷ y ∷ []) ≡ x ∷ y ∷ []
    → trim_space u (c ∷ s) ≡ c ∷ s
    → no_dash (c ∷ s) ≡ true
    → length (c ∷ s) ≤ 64
    → is_session_id u (c ∷ s) ≡ true
    → parse_username u ((b ∷ base) ++ (codes "-" ++ session_route_label u (x ∷ y ∷ []) (c ∷ s)))
      ≡ ok
          (record { base = b ∷ base; region = x ∷ y ∷ []; session = c ∷ s; unlock = []; node = [] })
parse_username-session_route_label u b base x y c s h hx hy lower tight trimmed hs n w =
    rw (label_of u x y c s lower tight trimmed)
      (rw lower at (parse_username_route u b base x y c s h hx hy hs n w))
