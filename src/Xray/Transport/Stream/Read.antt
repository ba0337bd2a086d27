-- ===== src/Xray/Transport/Stream/Read.antt =====
-- A transport that is written to the stream settings is read from them.
use xray_vps_manager.Json.{
  has_key, Json, null, str, obj, end, dict, Object, get, put, get-put, get-remove,
}
use xray_vps_manager.Base.{
  String, true, false, not, ◌≡◌, refl, subst, ap, ◌∙◌, arith, Option, none, some, List, [], ◌∷◌,
  contains, eq_iff, ◌==◌, Bool-cases, Option-cases, inl, inr,
}
use xray_vps_manager.Xray.Transport.{
  ◌>>=◌, refuse_if, text_or, is_path, is_service_name, xhttp_modes, reality_transports,
  normalize_xhttp_path, normalize_grpc_service_name, normalize_xhttp_mode,
  normalize_reality_transport,
}
use xray_vps_manager.Xray.Transport.Extra.{with_keys}
use xray_vps_manager.Xray.Transport.Download.{normalize_xhttp_extra}
use xray_vps_manager.Xray.Transport.Lawful.Values.{
  normalize_xhttp_path-is_path, normalize_xhttp_mode-is_mode,
}
use xray_vps_manager.Xray.Transport.Stream.{
  without_settings, xhttp_server_extra, reality_transport_settings_from_stream,
  apply_reality_transport,
}
use xray_vps_manager.Xray.Transport.Stream.Kept.{
  path-kept, name-kept, contains-all, is_word, modes-words, transports-words, text_or-word,
  known_by, normalize_grpc_service_name-known, normalize_reality_transport-known,
}

-- `lower` is `str.lower`, which leaves the names of transports and modes alone.
module _ (lower : String → String)
    (lower-transport : (w : String) → contains reality_transports w ≡ true → lower w ≡ w)
    (lower-mode : (w : String) → contains xhttp_modes w ≡ true → lower w ≡ w) where
  lowered-kept :
      (words : List String) (m : Option String) (w : String)
      → m ≡ some w
      → lower w ≡ w
      → contains words w ≡ true
      → (m >>= λ t. refuse_if (not (contains words (lower t))) (some (lower t))) ≡ some w
  lowered-kept words m w e l h =
      ap (λ o. o >>= λ t. refuse_if (not (contains words (lower t))) (some (lower t))) e ∙ rw (l, h)

  mode-kept :
      (mode : String)
      → contains xhttp_modes mode ≡ true
      → normalize_xhttp_mode lower (str mode) ≡ some mode
  unfolding normalize_xhttp_mode
  mode-kept mode h =
      lowered-kept xhttp_modes (text_or "auto" (str mode)) mode
        (text_or-word "auto" mode (contains-all is_word xhttp_modes mode modes-words h))
        (lower-mode mode h) h

  transport-kept :
      (t : String)
      → contains reality_transports t ≡ true
      → normalize_reality_transport lower (str t) ≡ some t
  unfolding normalize_reality_transport
  transport-kept t h =
      lowered-kept reality_transports (text_or "tcp" (str t)) t
        (text_or-word "tcp" t (contains-all is_word reality_transports t transports-words h))
        (lower-transport t h) h

  extra-none : normalize_xhttp_extra lower null ≡ some []
  unfolding normalize_xhttp_extra with_keys
  extra-none = refl

  extra-empty : normalize_xhttp_extra lower (obj end) ≡ some []
  unfolding normalize_xhttp_extra with_keys
  extra-empty = refl

  server_extra-empty : xhttp_server_extra lower (obj end) ≡ some []
  unfolding xhttp_server_extra has_key
  server_extra-empty = rw extra-empty

  module _ (stream : Object) where
    abbrev written : String → String → Json → Object
    written transport key v = put (without_settings transport stream) key v

    network-written :
        (transport key : String) (v : Json)
        → (key == "network") ≡ false
        → get (written transport key v) "network" ≡ str transport
    network-written transport key v h = rw (get-put, h, get-remove, get-remove, get-remove, get-put)

    read-tcp :
        reality_transport_settings_from_stream lower (without_settings "tcp" stream)
        ≡ some (("transport", str "tcp") ∷ [])
    unfolding reality_transport_settings_from_stream
    read-tcp = rw (get-remove, get-remove, get-remove, get-put) (rw (transport-kept "tcp" refl))

    read-grpc :
        (name : String)
        → is_service_name name ≡ true
        → reality_transport_settings_from_stream lower
            (written "grpc" "grpcSettings" (obj (dict (("serviceName", str name) ∷ []))))
          ≡ some (("transport", str "grpc") ∷ ("grpcServiceName", str name) ∷ [])
    unfolding reality_transport_settings_from_stream get
    read-grpc name h =
        let v = obj (dict (("serviceName", str name) ∷ [])) in
        rw (network-written "grpc" "grpcSettings" v refl, transport-kept "grpc" refl)
          (rw (get-put (without_settings "grpc" stream) "grpcSettings" v "grpcSettings")
            (rw (name-kept name h)))

    read-xhttp :
        (path mode : String)
        → is_path path ≡ true
        → contains xhttp_modes mode ≡ true
        → reality_transport_settings_from_stream lower (
            written "xhttp" "xhttpSettings"
              (obj (dict (("path", str path) ∷ ("mode", str mode) ∷ []))))
          ≡ some
              (("transport", str "xhttp") ∷ ("xhttpPath", str path) ∷ ("xhttpMode", str mode) ∷ [])
    unfolding reality_transport_settings_from_stream get
    read-xhttp path mode h k =
        let v = obj (dict (("path", str path) ∷ ("mode", str mode) ∷ [])) in
        rw (network-written "xhttp" "xhttpSettings" v refl, transport-kept "xhttp" refl)
          (rw (get-put (without_settings "xhttp" stream) "xhttpSettings" v "xhttpSettings")
            (rw (path-kept path h, mode-kept mode k, extra-none)))

  -- What is written by a call and what it returns agree; nothing is asked of an exception.
  abbrev Agrees : Option (Object × Object) → Type 0
  Agrees none = Unit {0}
  Agrees (some (written, settings)) =
      reality_transport_settings_from_stream lower written ≡ some settings

  module _ (fields : Object) (transport grpc path mode : Json) where
    abbrev apply : Option (Object × Object)
    apply = apply_reality_transport lower fields transport grpc path mode (obj end)

    Agrees-tcp : normalize_reality_transport lower transport ≡ some "tcp" → Agrees apply
    unfolding apply_reality_transport
    Agrees-tcp e = rw e (read-tcp fields)

    Agrees-grpc : normalize_reality_transport lower transport ≡ some "grpc" → Agrees apply
    unfolding apply_reality_transport
    Agrees-grpc e = rw e (elim (Option-cases (normalize_grpc_service_name grpc)) [
      | inl n ↦ rw n tt
      | inr (name, n) ↦ rw n (read-grpc fields name (normalize_grpc_service_name-known grpc name n))
    ])

    Agrees-xhttp : normalize_reality_transport lower transport ≡ some "xhttp" → Agrees apply
    unfolding apply_reality_transport
    Agrees-xhttp e = rw e (elim (Option-cases (normalize_xhttp_path path)) [
      | inl n ↦ rw n tt
      | inr (path', n) ↦ rw n (elim (Option-cases (normalize_xhttp_mode lower mode)) [
        | inl m ↦ rw m tt
        | inr (mode', m) ↦
            rw (m, extra-empty, server_extra-empty)
              (read-xhttp fields path' mode'
                (known_by is_path (normalize_xhttp_path-is_path path) n)
                (known_by (contains xhttp_modes) (normalize_xhttp_mode-is_mode lower mode) m))
      ])
    ])

    Agrees-apply : Agrees apply
    unfolding apply_reality_transport
    Agrees-apply = elim (Option-cases (normalize_reality_transport lower transport)) [
      | inl e ↦ rw e tt
      | inr (t, e) ↦ elim (Bool-cases (t == "tcp")) [
        | inl k ↦ Agrees-tcp (rw (← (eq_iff t "tcp").0 k) e)
        | inr k ↦ elim (Bool-cases (t == "grpc")) [
          | inl l ↦ Agrees-grpc (rw (← (eq_iff t "grpc").0 l) e)
          | inr l ↦
              let known : contains reality_transports t ≡ true =
                known_by (contains reality_transports)
                  (normalize_reality_transport-known lower transport) e in
              let last : (t == "xhttp") ≡ true = ground (
                arith,
                eq_iff "tcp" t,
                eq_iff "grpc" t,
                eq_iff "xhttp" t,
                eq_iff t "tcp",
                eq_iff t "grpc",
                eq_iff t "xhttp",
              ) in
              Agrees-xhttp (rw (← (eq_iff t "xhttp").0 last) e)
        ]
      ]
    ]

    -- The stream settings that `apply_reality_transport` gives, with no extra settings for XHTTP,
    -- are read back as the settings that it returns: the transport, with the service name of gRPC,
    -- or the path and the mode of XHTTP, whatever the stream settings were before.
    pub apply_reality_transport-read :
        (written settings : Object)
        → apply_reality_transport lower fields transport grpc path mode (obj end)
          ≡ some (written, settings)
        → reality_transport_settings_from_stream lower written ≡ some settings
    apply_reality_transport-read written settings e = subst Agrees e Agrees-apply
