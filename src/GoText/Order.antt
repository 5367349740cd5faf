-- ===== src/GoText/Order.antt =====
-- The order `<` on strings is a strict total order.
use geo_proxy.Common.{◌≡◌, refl, true, false, ◌⊎◌, inl, inr, [], ◌∷◌, arith}
use geo_proxy.Common.Key.{Text}
use geo_proxy.GoText.{text_ltb}

pub text_ltb_irrefl : (s : Text) → text_ltb s s ≡ false
unfolding text_ltb
text_ltb_irrefl [] = refl
text_ltb_irrefl (a ∷ s) = ground (arith, text_ltb_irrefl s)

pub text_ltb_trans :
    (s t u : Text) → text_ltb s t ≡ true → text_ltb t u ≡ true → text_ltb s u ≡ true
unfolding text_ltb
text_ltb_trans s t [] p q = ground arith
text_ltb_trans s [] (c ∷ u) p q = ground arith
text_ltb_trans [] (b ∷ t) (c ∷ u) p q = refl
text_ltb_trans (a ∷ s) (b ∷ t) (c ∷ u) p q = ground (arith, text_ltb_trans s t u)

pub text_ltb_total : (s t : Text) → (text_ltb s t ≡ true) ⊎ (s ≡ t) ⊎ (text_ltb t s ≡ true)
unfolding text_ltb
text_ltb_total [] [] = inr (inl refl)
text_ltb_total [] (b ∷ t) = inl refl
text_ltb_total (a ∷ s) [] = inr (inr refl)
text_ltb_total (a ∷ s) (b ∷ t) = ground (arith, text_ltb_total s t)
