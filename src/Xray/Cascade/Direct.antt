-- ===== src/Xray/Cascade/Direct.antt =====
-- `ensure_direct_first` of cascade.py: traffic that no rule matches leaves by the first outbound.
use xray_vps_manager.Base.{
  Option-cases, inl, inr, ◌≡◌, refl, Bool, true, false, not, some, List, [], ◌∷◌, arith, filter,
  get_or, String,
}
use xray_vps_manager.Json.{Object, get}
use xray_vps_manager.Xray.Config.{Config, outbounds_of, tag_is}
use xray_vps_manager.Xray.Cascade.{direct_first, pull, freedom, ensure_direct_first}

abbrev pub head_has_tag : String → List Object → Bool
head_has_tag tag [] = false
head_has_tag tag (o ∷ os) = tag_is tag o

abbrev pub others : String → List Object → List Object
others tag = filter (λ o. not (tag_is tag o))

pull-found :
    (tag : String) (os : List Object) (o : Object) → (pull tag os).0 ≡ some o → tag_is tag o ≡ true
unfolding pull
pull-found tag [] o h = ground arith
pull-found tag (p ∷ os) o h = ground (arith, pull-found tag os o)

pull-others : (tag : String) (os : List Object) → others tag (pull tag os).1 ≡ others tag os
unfolding pull
pull-others tag [] = refl
pull-others tag (p ∷ os) = ground (arith, pull-others tag os)

freedom-direct : tag_is "direct" freedom ≡ true
unfolding get
freedom-direct = refl

moved-direct : (os : List Object) → tag_is "direct" (get_or (pull "direct" os).0 freedom) ≡ true
moved-direct os = elim (Option-cases (pull "direct" os).0) [
  | inl e ↦ rw e freedom-direct
  | inr (o, e) ↦ rw e (pull-found "direct" os o e)
]

direct_first-head : (os : List Object) → head_has_tag "direct" (direct_first os).0 ≡ true
unfolding direct_first
direct_first-head [] = freedom-direct
direct_first-head (o ∷ os) = ground (arith, moved-direct os)

direct_first-others : (os : List Object) → others "direct" (direct_first os).0 ≡ others "direct" os
unfolding direct_first
direct_first-others [] = ground (arith, freedom-direct)
direct_first-others (o ∷ os) = ground (arith, moved-direct os, pull-others "direct" os)

direct_first_again :
    (os : List Object) → head_has_tag "direct" os ≡ true → direct_first os ≡ (os, false)
unfolding direct_first
direct_first_again [] h = ground arith
direct_first_again (o ∷ os) h = ground arith

-- After `ensure_direct_first` the first outbound has the tag direct, the outbounds with another tag
-- are the same in the same order, and a second call changes nothing and reports no change.
pub ensure_direct_first_lem :
    (c : Config)
    → let c' = (ensure_direct_first c).0 in
      (head_has_tag "direct" (outbounds_of c') ≡ true)
      × (others "direct" (outbounds_of c') ≡ others "direct" (outbounds_of c))
      × (ensure_direct_first c' ≡ (c', false))
unfolding ensure_direct_first
ensure_direct_first_lem c =
    let os = outbounds_of c in
    (
      direct_first-head os,
      direct_first-others os,
      rw (direct_first_again (direct_first os).0 (direct_first-head os)),
    )
