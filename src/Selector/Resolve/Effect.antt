-- ===== src/Selector/Resolve/Effect.antt =====
-- How `Resolve` of selector/selector.go changes the session store, on every branch.
use geo_proxy.Common.{◌≡◌, ◌∙◌, true, false, Option, inl, inr, arith, Bool-cases}
use geo_proxy.Common.Int.{ℤ, pos, ltb_ℤ, leb_ℤ, eq_ℤ_iff}
use geo_proxy.Common.Key.{Text, text_eq}
use geo_proxy.Storage.{Proxy}
use geo_proxy.Auth.{ParsedUsername}
use geo_proxy.Affinity.{Store, set_proxy, remove}
use geo_proxy.Affinity.Consistency.{IsConsistent}
use geo_proxy.Affinity.Occupancy.{occupancy}
use geo_proxy.Affinity.View.{seen, Follows, Follows-trans, Quiet, occupancy-Quiet}
use geo_proxy.Affinity.View.Effects.{
  set_proxy-Follows, seen-set_proxy, remove-Follows, seen-remove, occupancy-remove,
  occupancy-set_proxy, set_cooldown-Quiet,
}
use geo_proxy.Selector.{NodeStore, Limits, Runtime}
use geo_proxy.Selector.Score.{Float64}
use geo_proxy.Selector.Resolve.{bind}

-- From `s` to `t`, at one instant, no session but `i` is bound to anything else; and no proxy goes
-- over a positive limit that it kept.
pub record Effect (i : Text) (max : ℤ) (s t : Store) : Type 0 where
  pub follows : Follows s t
  pub others : (j : Text) → text_eq i j ≡ false → seen t j ≡ seen s j
  pub within :
      (q : ℤ)
      → ltb_ℤ (pos 0) max ≡ true
      → leb_ℤ (pos (occupancy s q)) max ≡ true
      → leb_ℤ (pos (occupancy t q)) max ≡ true

pub Effect-trans :
    (i : Text) (max : ℤ) (s t u : Store) → Effect i max s t → Effect i max t u → Effect i max s u
Effect-trans i max s t u a b = record {
  follows = Follows-trans s t u a.follows b.follows;
  others = λ j ne. b.others j ne ∙ a.others j ne;
  within = λ q p w. b.within q p (a.within q p w);
}

pub Quiet-Effect :
    (i : Text) (max : ℤ) (s t : Store) → IsConsistent s → Quiet s t → Effect i max s t
Quiet-Effect i max s t c k = record {
  follows = k.follows;
  others = λ j ne. k.same j;
  within = λ q p w. rw (occupancy-Quiet s t q c k) w;
}

pub remove-Effect : (i : Text) (max : ℤ) (s : Store) → IsConsistent s → Effect i max s (remove i s)
remove-Effect i max s c = record {
  follows = remove-Follows i s c;
  others = λ j ne. ground (arith, seen-remove i j s c);
  within = λ q p w. ground (arith, occupancy-remove i q s c);
}

set_proxy-Effect :
    (i : Text) (max p : ℤ) (a r : Text) (s : Store)
    → IsConsistent s
    → (ltb_ℤ (pos 0) max ≡ true → ltb_ℤ (pos (occupancy s p)) max ≡ true)
    → Effect i max s (set_proxy i p a r s)
set_proxy-Effect i max p a r s c room = record {
  follows = set_proxy-Follows i p a r s c;
  others = λ j ne. ground (arith, seen-set_proxy i j p a r s c);
  within = λ q on w. ground (arith, occupancy-set_proxy i p q a r s c, room on, eq_ℤ_iff p q);
}

-- The binding of a session to a node with room.
pub bind-Effect :
    (rt : Runtime) (f : Float64) (store : NodeStore) (cfg : Option Limits) (route : ParsedUsername)
    (max minutes : ℤ) (p : Proxy) (s : Store)
    → IsConsistent s
    → (ltb_ℤ (pos 0) max ≡ true → ltb_ℤ (pos (occupancy s p.id)) max ≡ true)
    → Effect route.session max s (bind rt f store cfg route minutes p s)
unfolding bind
bind-Effect rt f store cfg route max minutes p s c room =
    elim (Bool-cases (ltb_ℤ (pos 0) minutes)) [
      | inl on ↦ rw on (
          Effect-trans route.session max s bound _ first (
            Quiet-Effect route.session max bound _ first.follows.consistent
              (set_cooldown-Quiet p.id _ bound first.follows.consistent)))
      | inr off ↦ rw off first
    ]
  where
    bound : Store
    bound = set_proxy route.session p.id p.address p.region s

    first : Effect route.session max s bound
    first = set_proxy-Effect route.session max p.id p.address p.region s c room
