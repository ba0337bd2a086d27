-- ===== src/Clients/Credentials/Active/Put.antt =====
-- What the activation of a credential does to the items of each inbound.
use xray_vps_manager.Base.{
  String, Bool, true, false, not, ◌≡◌, refl, sym, ap, subst, ◌∙◌, arith, Option, none, some, List,
  [], ◌∷◌, if◌then◌else◌, get_or, eq_iff, Bool-cases, Option-cases, inl, inr, ◌==◌,
}
use xray_vps_manager.Base.Assoc.{lookup, insert, lookup-insert_same}
use xray_vps_manager.Json.{
  Json, str, Object, get, has_key, remove, truthy, strip, text_or_empty, text_or_empty-str, is_text,
  is_text_sound, get-put, get-remove,
}
use xray_vps_manager.Clients.Email.{split_email}
use xray_vps_manager.Clients.Entry.{Credential, Entry, or_text, set_default, text_of, protocol_of}
use xray_vps_manager.Clients.Credentials.{credential_key, is_on, named, sync_legacy_fields}
use xray_vps_manager.Clients.Credentials.Removed.{found_items, items_of, changed-found}
use xray_vps_manager.Clients.Credentials.Active.{
  is_trojan_password, credential_email, vless_client, trojan_client, put_item, with_item,
  xray_client_for_credential, next_client, transport_from_inbound, protocol_from_inbound, activated,
  upsert_active_credential,
}
use xray_vps_manager.Clients.Status.Steps.{has_item, items_named, sync_legacy_fields-credentials}
use xray_vps_manager.Xray.Inbounds.{
  Inbound, inbound_tag, is_reality, is_tls_only, is_trojan, migrated, clients_of, client_name,
  find_inbound_by_tag, change_found,
}
use xray_vps_manager.Xray.Inbounds.Found.{KeepsPlace}
use xray_vps_manager.Xray.Transport.Lawful.Values.{holds, holds_any, holds-bind, holds-refuse_if}
use xray_vps_manager.Xray.Transport.Stream.{
  connection_transport_settings_from_stream, client_flow_for_transport, apply_client_transport,
}

has_item-put_item :
    (name : String) (item : Object) (items : List Object)
    → named name item ≡ true
    → has_item name (put_item name item items) ≡ true
unfolding put_item
has_item-put_item name item [] h = rw h
has_item-put_item name item (i ∷ is) h = elim (Bool-cases (named name i)) [
  | inl e ↦ rw e (ground (arith, h))
  | inr e ↦ rw e (ground (arith, has_item-put_item name item is h))
]

items_named-put_item :
    (n name : String) (item : Object) (items : List Object)
    → named name item ≡ true
    → (name == n) ≡ false
    → items_named n (put_item name item items) ≡ items_named n items
unfolding put_item
items_named-put_item n name item [] h k =
    ground (arith, eq_iff (client_name item) name, eq_iff (client_name item) n, eq_iff name n)
items_named-put_item n name item (i ∷ is) h k = ground (
  arith,
  items_named-put_item n name item is h k,
  eq_iff (client_name i) name,
  eq_iff (client_name i) n,
  eq_iff (client_name item) name,
  eq_iff (client_name item) n,
  eq_iff name n,
)

with_item-KeepsPlace : (name : String) (item : Object) → KeepsPlace (with_item name item)
unfolding migrated inbound_tag is_reality is_tls_only is_trojan
with_item-KeepsPlace name item = record {
  same_tag = λ i. ground arith;
  same_reality = λ i. ground arith;
  same_tls = λ i. ground arith;
  same_trojan = λ i. ground arith;
}

clients_of-with_item :
    (name : String) (item : Object) (i : Inbound)
    → clients_of (with_item name item i) ≡ put_item name item (clients_of i)
unfolding migrated
clients_of-with_item name item i = ground arith

get-set_default_other :
    (d : Object) (k : String) (v : Json) (j : String)
    → (k == j) ≡ false
    → get (set_default d k v) j ≡ get d j
get-set_default_other d k v j h = elim (Bool-cases (has_key d k)) [
  | inl e ↦ rw e
  | inr e ↦ rw (e, get-put, h)
]

vless-email-get :
    (entry : Entry) (c : Credential) (client : Object) (email : String)
    → get (vless_client entry c client email) "email" ≡ str email
vless-email-get entry c client email = rw (get-remove, get-put)

-- The item has the email.
abbrev has_email : String → Object → Bool
has_email email item = is_text email (get item "email")

has_email-named :
    (name email : String) (item : Object)
    → has_email email item ≡ true
    → (split_email email).0 ≡ name
    → named name item ≡ true
unfolding client_name
has_email-named name email item h k = (eq_iff (client_name item) name).1 (
    ap (λ v. (split_email (text_or_empty v)).0) (is_text_sound email (get item "email") h)
    ∙ ap (λ t. (split_email t).0) (text_or_empty-str email)
    ∙ k)

has_email-same :
    (email : String) (d e : Object)
    → get e "email" ≡ get d "email"
    → has_email email d ≡ true
    → has_email email e ≡ true
has_email-same email d e h k = rw h k

vless-email :
    (name : String) (entry : Entry) (c : Credential)
    → has_email
        (credential_email name entry c)
        (vless_client entry c (get_or c.client []) (credential_email name entry c))
      ≡ true
vless-email name entry c =
    let email = credential_email name entry c in
    rw (vless-email-get entry c (get_or c.client []) email) ((eq_iff email email).1 refl)

apply_client_transport-email :
    (lower : String → String) (email : String) (client : Object) (transport : Json)
    → has_email email client ≡ true
    → holds (has_email email) (apply_client_transport lower client transport) ≡ true
unfolding apply_client_transport
apply_client_transport-email lower email client transport h =
    holds-bind (λ s. true) (has_email email) (client_flow_for_transport lower transport) _
      (holds_any (client_flow_for_transport lower transport))
      (λ flow u. elim (Bool-cases (flow == "")) [
        | inl e ↦ rw e (
            has_email-same email client (remove client "flow") (get-remove client "flow" "email") h)
        | inr e ↦ rw e (
            has_email-same email client (set_default client "flow" (str flow))
              (get-set_default_other client "flow" (str flow) "email" refl) h)
      ])

module _ (lower : String → String) where
  xray_client-email :
      (name : String) (entry : Entry) (c : Credential)
      → holds
          (has_email (credential_email name entry c))
          (xray_client_for_credential lower name entry c)
        ≡ true
  unfolding xray_client_for_credential get
  xray_client-email name entry c =
      let client = get_or c.client [] in
      let protocol =
        protocol_of lower (or_text (get_or c.protocol "") (text_of client "protocol")) client in
      let email = credential_email name entry c in
      let password = strip (text_of client "password") in
      let vless = vless_client entry c client email in
      elim (Bool-cases (protocol == "trojan")) [
        | inl e ↦ rw e (
            holds-refuse_if (has_email email) (not (is_trojan_password password))
              (some (trojan_client password email client)) (λ u. (eq_iff email email).1 refl))
        | inr e ↦ rw e (
            holds-refuse_if (has_email email) (not (truthy (get vless "id"))) (some vless)
              (λ u. vless-email name entry c))
      ]

  next_client-email :
      (inbound : Inbound) (email : String) (client : Object)
      → has_email email client ≡ true
      → holds (has_email email) (next_client lower inbound client) ≡ true
  unfolding next_client
  next_client-email inbound email client h =
      elim (Bool-cases (protocol_from_inbound lower inbound == "vless")) [
        | inl e ↦ rw e (
            holds-bind (λ s. true) (has_email email)
              (connection_transport_settings_from_stream lower inbound.stream) _
              (holds_any (connection_transport_settings_from_stream lower inbound.stream))
              (λ settings u.
                apply_client_transport-email lower email client (get settings "transport") h))
        | inr e ↦ rw e h
      ]

-- The credential is there and is on.
abbrev pub is_active : Option Credential → Bool
is_active none = false
is_active (some c) = is_on c.enabled

module _ (lower : String → String) (inbounds : List Inbound) (name key : String) (entry : Entry)
    (c : Credential) (own_name : (split_email (credential_email name entry c)).0 ≡ name)
    (n s : String) (other : (name == n) ≡ false) where
  abbrev tag : String
  tag = credential_key (get_or c.connection "")

  -- What holds after a call; nothing is asked of an exception.
  abbrev Put : Option (List Inbound × Entry) → Type 0
  Put none = Unit {0}
  Put (some (after, changed)) =
      (has_item name (found_items after tag) ≡ true)
      × (items_named n (found_items after s) ≡ items_named n (found_items inbounds s))
      × ((if tag == s then found_items inbounds s else found_items after s)
          ≡ found_items inbounds s)
      × (is_active (lookup changed.credentials key) ≡ true)

  found_items-with_item :
      (inbound : Inbound) (next : Object) (t : String)
      → find_inbound_by_tag inbounds tag ≡ some inbound
      → found_items (change_found tag (with_item name next) inbounds) t
        ≡ (if tag == t then put_item name next (clients_of inbound) else found_items inbounds t)
  found_items-with_item inbound next t e =
      changed-found (with_item name next) (with_item-KeepsPlace name next) inbounds tag t inbound e
      ∙ rw (clients_of-with_item name next inbound)

  next-Put :
      (inbound : Inbound) (next : Object) (transport : String)
      → find_inbound_by_tag inbounds tag ≡ some inbound
      → named name next ≡ true
      → Put (
          some (
            change_found tag (with_item name next) inbounds,
            sync_legacy_fields (record entry {
              credentials =
                  insert entry.credentials key (activated lower inbound entry c next transport);
            }),
          ))
  next-Put inbound next transport e h = (
    rw (found_items-with_item inbound next tag e, (eq_iff tag tag).1 refl)
        (has_item-put_item name next (clients_of inbound) h),
    rw (found_items-with_item inbound next s e) (elim (Bool-cases (tag == s)) [
      | inl same ↦
          let there : found_items inbounds s ≡ clients_of inbound =
            ap (λ t. found_items inbounds t) (sym ((eq_iff tag s).0 same)) ∙ ap items_of e in
          rw (same, there) (items_named-put_item n name next (clients_of inbound) h other)
      | inr apart ↦ rw apart
    ]),
    rw (found_items-with_item inbound next s e)
        (elim (Bool-cases (tag == s)) [ inl same ↦ rw same | inr apart ↦ rw apart ]),
    rw (
      sync_legacy_fields-credentials (record entry {
        credentials = insert entry.credentials key (activated lower inbound entry c next transport);
      }),
      lookup-insert_same,
    ),
  )

  upsert-Put : Put (upsert_active_credential lower inbounds name entry key c)
  unfolding upsert_active_credential
  upsert-Put = elim (Option-cases (find_inbound_by_tag inbounds tag)) [
    | inl e ↦ rw e tt
    | inr (inbound, e) ↦ rw e (elim (Option-cases (xray_client_for_credential lower name entry c)) [
      | inl f ↦ rw f tt
      | inr (client, f) ↦ rw f (elim (Option-cases (next_client lower inbound client)) [
        | inl g ↦ rw g tt
        | inr (next, g) ↦ rw g (elim (Option-cases (transport_from_inbound lower inbound)) [
          | inl t ↦ rw t tt
          | inr (transport, t) ↦
              let email = credential_email name entry c in
              let before : has_email email client ≡ true =
                subst (λ o. holds (has_email email) o ≡ true) f
                  (xray_client-email lower name entry c) in
              let after : has_email email next ≡ true =
                subst (λ o. holds (has_email email) o ≡ true) g
                  (next_client-email lower inbound email client before) in
              rw t
                (next-Put inbound next transport e (has_email-named name email next after own_name))
        ])
      ])
    ])
  ]

  -- A credential whose email has the name of the client is activated, and no exception is raised.
  -- Then the inbound of the credential has an item of the client, all items of any other client stay
  -- as they are in the inbound of any tag, those of all clients do for another tag, and the
  -- credential under its key in the entry is on.
  pub upsert_active_credential-puts :
      (after : List Inbound) (changed : Entry)
      → upsert_active_credential lower inbounds name entry key c ≡ some (after, changed)
      → (has_item name (found_items after tag) ≡ true)
        × (items_named n (found_items after s) ≡ items_named n (found_items inbounds s))
        × ((if tag == s then found_items inbounds s else found_items after s)
            ≡ found_items inbounds s)
        × (is_active (lookup changed.credentials key) ≡ true)
  upsert_active_credential-puts after changed e = subst Put e upsert-Put
