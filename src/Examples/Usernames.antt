-- ===== src/Examples/Usernames.antt =====
-- User names of auth/dsl.go: what the parser makes of them, with the theorems applied to some.
use geo_proxy.Common.{◌≡◌, refl, arith, [], ◌∷◌, ◌++◌}
use geo_proxy.Common.Key.{text_eq}
use geo_proxy.GoText.{ascii_only, codes, has_prefix, to_lower, trim_space}
use geo_proxy.GoText.Utf8.{runes}
use geo_proxy.GoText.Base64.{decode, of_char}
use geo_proxy.Sessions.{session_route_label}
use geo_proxy.Sessions.Label.{parse_username-session_route_label}
use geo_proxy.Auth.{
  is_ascii_alpha, is_session_id, bad_region, bad_suffix, ok, err, panic, value_end, parse_region,
  fields_from, normalize_unlock_token, add_new, is_digit, is_word, parse_session, split_value,
}
use geo_proxy.Auth.Parser.{parse_node, parse_username, parse_unlock, add_tokens}
use geo_proxy.Auth.Parser.Markers.{CutKey}
use geo_proxy.Auth.Parser.Safety.{parse_username-CutKey}
use geo_proxy.Auth.Parser.Panics.{parse_username_panic}

full_name :
    parse_username ascii_only (codes "bob-region-US-unlock-gpt,cf-node-10.0.0.1:80-session-s_1")
    ≡ ok (record {
      base = codes "bob";
      region = codes "us";
      session = codes "s_1";
      unlock = codes "openai" ∷ codes "cf" ∷ [];
      node = codes "10.0.0.1:80";
    })
unfolding parse_username value_end has_prefix parse_region runes parse_unlock fields_from add_tokens
    normalize_unlock_token text_eq to_lower trim_space add_new parse_node is_digit parse_session
full_name = refl

long_region : parse_username ascii_only (codes "bob-region-usa") ≡ err bad_region
unfolding parse_username value_end has_prefix parse_region
long_region = refl

swapped_suffixes :
    parse_username ascii_only (codes "bob-session-s-region-us")
    ≡ err (bad_suffix (codes "-region-us"))
unfolding parse_username value_end has_prefix parse_session runes
swapped_suffixes = refl

key_pin_of_one :
    parse_username ascii_only (codes "bob-node-key-azE")
    ≡ ok (record {
      base = codes "bob";
      region = [];
      session = [];
      unlock = [];
      node = codes "key-k1";
    })
unfolding parse_username value_end has_prefix parse_node split_value runes is_word decode of_char
key_pin_of_one = refl

parse_username-CutKey_example : CutKey ((b'u' ∷ []) ++ (codes "-node-key-region-" ++ codes "us"))
parse_username-CutKey_example =
    parse_username-CutKey ascii_only ((b'u' ∷ []) ++ (codes "-node-key-region-" ++ codes "us"))
      (parse_username_panic ascii_only b'u' [] (codes "us") refl)

parse_username_panic_example :
    parse_username ascii_only ((b'u' ∷ []) ++ (codes "-node-key-region-" ++ codes "us")) ≡ panic
parse_username_panic_example = parse_username_panic ascii_only b'u' [] (codes "us") refl

parse_username-session_route_label_example :
    parse_username ascii_only (
      (b'b' ∷ [])
      ++ (codes "-" ++ session_route_label ascii_only (b'u' ∷ b's' ∷ []) (b's' ∷ b'1' ∷ [])))
    ≡ ok (record {
      base = codes "b";
      region = codes "us";
      session = codes "s1";
      unlock = [];
      node = [];
    })
parse_username-session_route_label_example =
    parse_username-session_route_label ascii_only b'b' [] b'u' b's' b's' (b'1' ∷ []) refl
      (unfold is_ascii_alpha in refl) (unfold is_ascii_alpha in refl) (unfold to_lower in refl)
      (unfold trim_space in refl) (unfold trim_space in refl) refl (omega arith)
      (unfold is_session_id runes is_word is_digit in refl)
