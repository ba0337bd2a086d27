-- ===== src/Xray/Tests/Streams.antt =====
-- The settings of transports at small inputs.
use xray_vps_manager.Json.{
  is_ascii_alnum, Json, null, num, str, obj, end, dict, Object, strip, get, put, has_key, remove,
}
use xray_vps_manager.Base.{String, true, false, ◌≡◌, refl, none, some, [], ◌∷◌, all, contains}
use xray_vps_manager.Clients.Email.{split_at}
use xray_vps_manager.Clients.Access.{all_digits, decimal}
use xray_vps_manager.Xray.Transport.{
  text_length, all_chars, xhttp_modes, reality_transports, normalize_xhttp_path,
  normalize_xhttp_mode, normalize_reality_transport, normalize_grpc_service_name,
}
use xray_vps_manager.Xray.Transport.Values.{
  number_text, range_of, normalize_non_negative_range, normalize_integer, normalize_port,
  normalize_host_like, range_is_active,
}
use xray_vps_manager.Xray.Transport.Extra.{
  set_if, set_object_if, with_keys, normalize_xmux, extra_fields,
}
use xray_vps_manager.Xray.Transport.Download.{
  normalize_xhttp_extra, normalize_download_tls_settings, normalize_download_xhttp_settings,
}
use xray_vps_manager.Xray.Transport.Lawful.{lawful_field}
use xray_vps_manager.Xray.Transport.Lawful.Accepted.{normalize_xhttp_extra-lawful}
use xray_vps_manager.Xray.Transport.Stream.{
  apply_reality_transport, reality_transport_settings_from_stream,
}
use xray_vps_manager.Xray.Transport.Stream.Read.{apply_reality_transport-read}

abbrev lower : String → String
lower s = s

-- A range, an `xmux` with spaces around a number, and settings of a download with a port.
abbrev extra : Json
extra = obj (
    dict (
      ("xPaddingBytes", str "100-1000")
      ∷ ("xmux", obj (dict (("maxConcurrency", str " 16-32 ") ∷ ("maxConnections", num "0") ∷ [])))
      ∷ ("downloadSettings", obj (dict (("address", str "example.org") ∷ [])))
      ∷ []))

abbrev normal_extra : Object
normal_extra =
    ("xPaddingBytes", str "100-1000")
    ∷ ("xmux", obj (dict (("maxConcurrency", str "16-32") ∷ ("maxConnections", num "0") ∷ [])))
    ∷ (
      "downloadSettings",
      obj (
          dict (
            ("address", str "example.org")
            ∷ ("port", num "443")
            ∷ ("network", str "xhttp")
            ∷ ("security", str "tls")
            ∷ (
              "xhttpSettings",
              obj (dict (("path", str "/vless-xhttp") ∷ ("mode", str "auto") ∷ [])),
            )
            ∷ [])),
    )
    ∷ []

extra_accepted : normalize_xhttp_extra lower extra ≡ some normal_extra
unfolding normalize_xhttp_extra extra_fields with_keys set_object_if get set_if strip
    normalize_non_negative_range number_text range_of split_at normalize_xmux range_is_active put
    normalize_host_like all_chars is_ascii_alnum text_length normalize_port normalize_integer
    all_digits decimal has_key normalize_xhttp_path normalize_xhttp_mode
    normalize_download_tls_settings normalize_download_xhttp_settings
extra_accepted = refl

normalize_xhttp_extra-lawful_example : all lawful_field normal_extra ≡ true
normalize_xhttp_extra-lawful_example =
    normalize_xhttp_extra-lawful lower extra normal_extra extra_accepted

abbrev conflict : Json
conflict = obj (
    dict
      (("xmux", obj (dict (("maxConcurrency", num "1") ∷ ("maxConnections", num "2") ∷ []))) ∷ []))

conflict_refused : normalize_xhttp_extra lower conflict ≡ none
unfolding normalize_xhttp_extra extra_fields with_keys set_object_if get set_if normalize_xmux
    normalize_non_negative_range number_text range_is_active put
conflict_refused = refl

-- The two limits that may be below 0.
minus_one_accepted : normalize_non_negative_range true (str "-1") ≡ some (num "-1")
unfolding normalize_non_negative_range strip
minus_one_accepted = refl

keep_alive_accepted : normalize_integer (num "-5") ≡ some "-5"
unfolding normalize_integer number_text all_digits
keep_alive_accepted = refl

range_refused : normalize_non_negative_range false (str "20-10") ≡ none
unfolding normalize_non_negative_range range_of decimal number_text all_digits split_at strip
range_refused = refl

lower-transport : (w : String) → contains reality_transports w ≡ true → lower w ≡ w
lower-transport w h = refl

lower-mode : (w : String) → contains xhttp_modes w ≡ true → lower w ≡ w
lower-mode w h = refl

abbrev old_stream : Object
old_stream = ("network", str "tcp") ∷ ("security", str "reality") ∷ []

abbrev new_stream : Object
new_stream =
    ("network", str "grpc")
    ∷ ("security", str "reality")
    ∷ ("grpcSettings", obj (dict (("serviceName", str "vless-grpc") ∷ [])))
    ∷ []

abbrev returned : Object
returned = ("transport", str "grpc") ∷ ("grpcServiceName", str "vless-grpc") ∷ []

stream_written :
    apply_reality_transport lower old_stream (str " grpc") null null null (obj end)
    ≡ some (new_stream, returned)
unfolding apply_reality_transport normalize_reality_transport normalize_grpc_service_name strip
    all_chars text_length put remove is_ascii_alnum
stream_written = refl

apply_reality_transport-read_example :
    reality_transport_settings_from_stream lower new_stream ≡ some returned
apply_reality_transport-read_example =
    apply_reality_transport-read lower lower-transport lower-mode old_stream (str " grpc") null null
      null new_stream returned stream_written
