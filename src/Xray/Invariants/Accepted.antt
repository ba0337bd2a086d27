-- ===== src/Xray/Invariants/Accepted.antt =====
-- What is known of a configuration that `validate` accepts (xray/invariants.py).
use xray_vps_manager.Base.{
  &&-left, &&-right, ℕ, suc, ◌≤◌, ◌≡◌, refl, arith, String, Bool, true, not, ◌&&◌, ◌||◌, none, some,
  List, [], ◌∷◌, all, filter, length, leb, Option-cases, inl, inr,
}
use xray_vps_manager.Json.{Object, get, has_key}
use xray_vps_manager.Xray.Invariants.{
  Parts, parts_of, parts_hold, validate, groups_hold, is_warning, is_early_block, first_warning,
  blocks_before, blocks_first, is_managed_catchall, goes_to_cascade, rule_resolves, begins_client,
  tags_of, api_tag_of, first_is_direct,
}

abbrev pub not_early : Object → Bool
not_early r = not (is_early_block r)

-- No early block stands after a warning.
abbrev pub no_late_block : List Object → Bool
no_late_block [] = true
no_late_block (r ∷ rules) = (not (is_warning r) || all not_early rules) && no_late_block rules

no_late-none_early : (rules : List Object) → all not_early rules ≡ true → no_late_block rules ≡ true
no_late-none_early [] h = refl
no_late-none_early (r ∷ rules) h = ground (arith, no_late-none_early rules)

none_early-after :
    (first index : ℕ) (rules : List Object)
    → first ≤ index
    → blocks_before first index rules ≡ true
    → all not_early rules ≡ true
unfolding blocks_before
none_early-after first index [] h k = refl
none_early-after first index (r ∷ rules) h k =
    ground (arith, none_early-after first (suc index) rules)

no_late-without :
    (index : ℕ) (rules : List Object)
    → first_warning index rules ≡ none
    → no_late_block rules ≡ true
unfolding first_warning
no_late-without index [] h = refl
no_late-without index (r ∷ rules) h = ground (arith, no_late-without (suc index) rules)

no_late-from :
    (first index : ℕ) (rules : List Object)
    → first_warning index rules ≡ some first
    → blocks_before first index rules ≡ true
    → no_late_block rules ≡ true
unfolding first_warning blocks_before
no_late-from first index [] h k = refl
no_late-from first index (r ∷ rules) h k = ground (
  arith,
  no_late-from first (suc index) rules,
  none_early-after first (suc index) rules,
  no_late-none_early rules,
)

no_late-blocks_first :
    (rules : List Object) → blocks_first rules ≡ true → no_late_block rules ≡ true
unfolding blocks_first
no_late-blocks_first rules h = elim (Option-cases (first_warning 0 rules)) [
  | inl e ↦ no_late-without 0 rules e
  | inr (n, e) ↦ no_late-from n 0 rules e (ground (arith, e))
]

-- A rule for a client's balancer is there only if the catch-all goes to a cascade.
abbrev pub client_needs : Bool → Object → Bool
client_needs cascaded r = not (begins_client (get r "balancerTag")) || cascaded

has_key-begins :
    (r : Object) (key : String) → begins_client (get r key) ≡ true → has_key r key ≡ true
unfolding get has_key
has_key-begins [] key h = absurd (ground arith)
has_key-begins ((j, v) ∷ r) key h = ground (arith, has_key-begins r key)

client_needs-resolves :
    (inbound_tags outbound_tags balancer_tags : List String) (api_tag : String) (cascaded : Bool)
    (rules : List Object)
    → all (rule_resolves inbound_tags outbound_tags balancer_tags api_tag cascaded) rules ≡ true
    → all (client_needs cascaded) rules ≡ true
client_needs-resolves is os bs api cascaded [] h = refl
client_needs-resolves is os bs api cascaded (r ∷ rules) h =
    ground
      (arith, client_needs-resolves is os bs api cascaded rules, has_key-begins r "balancerTag")

abbrev pub Lawful : Parts → Type 0
Lawful p =
    let catchalls = filter is_managed_catchall p.rules in
    (first_is_direct p.outbounds ≡ true)
    × (leb (length catchalls) 1 ≡ true)
    × (all (client_needs (goes_to_cascade catchalls)) p.rules ≡ true)
    × (no_late_block p.rules ≡ true)

groups_hold-rules :
    (inbounds rules balancers : List Object) (is os bs : List String) (api_tag : String)
    → groups_hold inbounds rules balancers is os bs api_tag ≡ true
    → let catchalls = filter is_managed_catchall rules in
      (leb (length catchalls) 1 ≡ true)
      × (all (client_needs (goes_to_cascade catchalls)) rules ≡ true)
      × (no_late_block rules ≡ true)
unfolding groups_hold
groups_hold-rules inbounds rules balancers is os bs api_tag h =
    let cascaded = goes_to_cascade (filter is_managed_catchall rules) in
    (
      ground arith,
      client_needs-resolves is os bs api_tag cascaded rules (ground arith),
      no_late-blocks_first rules (ground arith),
    )

parts_hold-Lawful : (p : Parts) → parts_hold p ≡ true → Lawful p
unfolding parts_hold
parts_hold-Lawful p h = elim (Option-cases (tags_of p.inbounds)) [
  | inl e ↦ absurd (ground (arith, e))
  | inr (is, e) ↦ elim (Option-cases (tags_of p.outbounds)) [
    | inl f ↦ absurd (ground (arith, e, f))
    | inr (os, f) ↦ elim (Option-cases (tags_of p.balancers)) [
      | inl g ↦ absurd (ground (arith, e, f, g))
      | inr (bs, g) ↦ elim (Option-cases (api_tag_of p.api)) [
        | inl a ↦ absurd (ground (arith, e, f, g, a))
        | inr (api, a) ↦
            let groups = groups_hold p.inbounds p.rules p.balancers is os bs api in
            let both : (first_is_direct p.outbounds && groups) ≡ true =
              ground (arith, e, f, g, a) in
            let (one, served, early) =
              groups_hold-rules p.inbounds p.rules p.balancers is os bs api
                (&&-right (first_is_direct p.outbounds) groups both) in
            (&&-left (first_is_direct p.outbounds) groups both, one, served, early)
      ]
    ]
  ]
]

-- If `validate` accepts a configuration, its first outbound is direct; it has at most one managed
-- catch-all; it has rules for client balancers only if that one goes to a cascade; and no rule that
-- blocks BitTorrent or private addresses stands after a GeoIP warning.
pub validate-Lawful :
    (config : Object) → validate config ≡ true → (p : Parts) × (parts_of config ≡ some p) × Lawful p
unfolding validate
validate-Lawful config h = elim (Option-cases (parts_of config)) [
  | inl e ↦ absurd (ground (arith, e))
  | inr (p, e) ↦ (p, e, parts_hold-Lawful p (ground (arith, e)))
]
