-- ===== src/Xray/Bypass/Outbounds.antt =====
-- The outbounds after `apply_bypass_route` (bypass.py).
use xray_vps_manager.Base.{
  ◌==◌, ◌≡◌, refl, filter_full, ◌∙◌, ap, String, true, false, not, List, [], ◌∷◌, ◌++◌, arith,
  filter, eq_iff, Bool-cases, inl, inr, starts_with, filter-append, filter-complement,
}
use text.Mathlib.TextPositions.{starts_with-append}
use xray_vps_manager.Json.{Object, get, get-put, str, is_text, is_text_sound}
use xray_vps_manager.Xray.Config.{Config, outbounds_of, tag_is}
use xray_vps_manager.Xray.Cascade.Direct.{head_has_tag}
use xray_vps_manager.Xray.Bypass.{
  remove_tagged_outbounds, geoip_warning_tag, ensure_geoip_warning_outbound,
  clone_outbound_with_tag,
}

pub text-not_warning :
    (s region : String)
    → starts_with s "geoip-warning-" ≡ false
    → (s == geoip_warning_tag region) ≡ false
text-not_warning s region h = elim (Bool-cases (s == geoip_warning_tag region)) [
  | inr e ↦ e
  | inl e ↦ ground (
    arith,
    ap (λ (t : String). starts_with t "geoip-warning-") ((eq_iff s (geoip_warning_tag region)).0 e),
    starts_with-append "geoip-warning-" region,
  )
]

direct-not_warning :
    (region : String) (o : Object)
    → tag_is "direct" o ≡ true
    → tag_is (geoip_warning_tag region) o ≡ false
direct-not_warning region o h =
    rw (is_text_sound "direct" (get o "tag") h, text-not_warning "direct" region refl)

-- All outbounds with another tag are kept, whether or not one was removed.
outbounds-remove_tagged :
    (c : Config) (tag : String)
    → outbounds_of (remove_tagged_outbounds c tag).0
      ≡ filter (λ o. not (tag_is tag o)) (outbounds_of c)
unfolding remove_tagged_outbounds
outbounds-remove_tagged c tag =
    ground (arith, filter_full (λ o. not (tag_is tag o)) (outbounds_of c))

head-append :
    (tag : String) (os ps : List Object)
    → head_has_tag tag os ≡ true
    → head_has_tag tag (os ++ ps) ≡ true
head-append tag [] ps h = ground arith
head-append tag (o ∷ os) ps h = h

head-filter :
    (region : String) (os : List Object)
    → head_has_tag "direct" os ≡ true
    → head_has_tag "direct" (filter (λ o. not (tag_is (geoip_warning_tag region) o)) os) ≡ true
head-filter region [] h = h
head-filter region (o ∷ os) h = ground (arith, direct-not_warning region o h)

tag-clone : (o : Object) (tag : String) → tag_is tag (clone_outbound_with_tag o tag) ≡ true
tag-clone o tag = rw (get-put o "tag" (str tag) "tag", is_text) ((eq_iff tag tag).1 refl)

-- The warning's outbound is the copy of the source and no other; a first outbound `direct` stays.
module _ (c : Config) (region : String) (source : Object) where
  abbrev warned : List Object
  warned = outbounds_of (ensure_geoip_warning_outbound c region source)

  pub warned-only :
      filter (tag_is (geoip_warning_tag region)) warned
      ≡ clone_outbound_with_tag source (geoip_warning_tag region) ∷ []
  unfolding ensure_geoip_warning_outbound
  warned-only =
      let tag = geoip_warning_tag region in
      rw (outbounds-remove_tagged c tag) (
        filter-append (tag_is tag) (filter (λ o. not (tag_is tag o)) (outbounds_of c))
          (clone_outbound_with_tag source tag ∷ [])
        ∙ rw (filter-complement (tag_is tag) (outbounds_of c), tag-clone source tag))

  pub warned-direct :
      head_has_tag "direct" (outbounds_of c) ≡ true → head_has_tag "direct" warned ≡ true
  unfolding ensure_geoip_warning_outbound
  warned-direct h =
      rw (outbounds-remove_tagged c (geoip_warning_tag region))
        (head-append "direct" _ _ (head-filter region (outbounds_of c) h))
