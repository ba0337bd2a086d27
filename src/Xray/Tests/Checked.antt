-- ===== src/Xray/Tests/Checked.antt =====
-- A configuration that the invariants accept.
use xray_vps_manager.Base.{String, ◌≡◌, refl, true, List, [], ◌∷◌, some}
use xray_vps_manager.Json.{
  Json, str, arr, obj, texts, Object, nil, cons, end, field, has_key, get, strip, same,
}
use xray_vps_manager.Xray.Cascade.{is_catchall_rule}
use xray_vps_manager.Xray.Invariants.{
  parts_hold, groups_hold, blocks_first, first_warning, Parts, parts_of, validate,
}
use xray_vps_manager.Xray.Invariants.Accepted.{Lawful, validate-Lawful}

abbrev tagged : List (String × Json) → Json
tagged [] = obj end
tagged ((k, v) ∷ rest) = elim (tagged rest) [ obj fs ↦ obj (field k v fs) | _ ↦ obj end ]

abbrev outbounds : Json
outbounds =
    arr
      (cons (tagged (("tag", str "direct") ∷ [])) (cons (tagged (("tag", str "blocked") ∷ [])) nil))

abbrev rules : Json
rules = arr (
    cons
      (tagged (
        ("type", str "field")
        ∷ ("inboundTag", texts ("api" ∷ []))
        ∷ ("outboundTag", str "api")
        ∷ []))
      (cons
        (tagged (
          ("type", str "field")
          ∷ ("ip", texts ("geoip:private" ∷ []))
          ∷ ("outboundTag", str "blocked")
          ∷ []))
        nil))

abbrev plain_config : Object
plain_config =
    ("api", tagged (("tag", str "api") ∷ []))
    ∷ ("inbounds", arr (cons (tagged (("tag", str "api") ∷ [])) nil))
    ∷ ("outbounds", outbounds)
    ∷ ("routing", tagged (("rules", rules) ∷ []))
    ∷ []

plain_accepted : validate plain_config ≡ true
unfolding validate parts_of has_key get parts_hold strip groups_hold is_catchall_rule same
    blocks_first first_warning
plain_accepted = refl

validate-Lawful_example : (p : Parts) × (parts_of plain_config ≡ some p) × Lawful p
validate-Lawful_example = validate-Lawful plain_config plain_accepted
