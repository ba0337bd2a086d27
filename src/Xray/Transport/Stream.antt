-- ===== src/Xray/Transport/Stream.antt =====
-- xray_vps_manager/xray/config.py: the transport of an inbound in its `streamSettings`.
pub mod Kept
pub mod Read
use xray_vps_manager.Base.{
  String, Bool, true, false, not, Option, none, some, List, [], ◌∷◌, if◌then◌else◌, ◌==◌,
}
use xray_vps_manager.Json.{
  Json, Fields, null, str, obj, end, dict, Object, truthy, text_or_empty, strip, get, put, has_key,
  remove,
}
use xray_vps_manager.Clients.Entry.{set_default}
use xray_vps_manager.Xray.Transport.{
  ◌>>=◌, normalize_xhttp_path, normalize_trojan_ws_path, normalize_grpc_service_name,
  normalize_xhttp_mode, normalize_reality_transport,
}
use xray_vps_manager.Xray.Transport.Extra.{xhttp_server_extra_keys}
use xray_vps_manager.Xray.Transport.Download.{object_or_empty, lowered, normalize_xhttp_extra}

-- `{key: d[key] for key in keys if key in d}`
abbrev pub picked : List String → Object → Object
picked [] d = []
picked (key ∷ keys) d =
    let rest = picked keys d in if has_key d key then (key, get d key) ∷ rest else rest

-- `if d: result[key] = d`
abbrev pub put_if : String → Object → Object → Object
put_if key d result = if truthy (obj (dict d)) then put result key (obj (dict d)) else result

abbrev pub without_settings : String → Object → Object
without_settings transport stream =
    remove (remove (remove (put stream "network" (str transport)) "tcpSettings") "grpcSettings")
      "xhttpSettings"

-- `lower` is `str.lower`; an exception is `none`.
module _ (lower : String → String) where
  unfoldable pub xhttp_server_extra : Json → Option Object
  xhttp_server_extra extra = do
    normalized ← normalize_xhttp_extra lower extra
    some (picked xhttp_server_extra_keys normalized)

  abbrev pub grpc_settings : Object → Option Object
  grpc_settings stream = do
    grpc ← object_or_empty (get stream "grpcSettings")
    name ← normalize_grpc_service_name (get grpc "serviceName")
    some (("transport", str "grpc") ∷ ("grpcServiceName", str name) ∷ [])

  abbrev pub xhttp_settings : Object → Option Object
  xhttp_settings stream = do
    xhttp ← object_or_empty (get stream "xhttpSettings")
    path ← normalize_xhttp_path (get xhttp "path")
    mode ← normalize_xhttp_mode lower (get xhttp "mode")
    extra ← normalize_xhttp_extra lower (get xhttp "extra")
    some (
        put_if "xhttpExtra" extra
          (("transport", str "xhttp") ∷ ("xhttpPath", str path) ∷ ("xhttpMode", str mode) ∷ []))

  unfoldable pub reality_transport_settings_from_stream : Object → Option Object
  reality_transport_settings_from_stream stream = do
    transport ← normalize_reality_transport lower (get stream "network")
    (if transport == "grpc"
        then grpc_settings stream
        else if transport == "xhttp"
        then xhttp_settings stream
        else some (("transport", str transport) ∷ []))

  unfoldable pub connection_transport_settings_from_stream : Object → Option Object
  unfolding reality_transport_settings_from_stream
  connection_transport_settings_from_stream stream =
      if lowered lower "tcp" (get stream "network") == "ws"
      then (do
        ws ← object_or_empty (get stream "wsSettings")
        path ← normalize_trojan_ws_path (get ws "path")
        some (("transport", str "ws") ∷ ("wsPath", str path) ∷ []))
      else reality_transport_settings_from_stream stream

  -- The extra settings that are written: those before, where none are given.
  abbrev pub full_extra : Object → Json → Option Object
  full_extra stream null = do
    previous_xhttp ← object_or_empty (get stream "xhttpSettings")
    normalize_xhttp_extra lower (get previous_xhttp "extra")
  full_extra stream xhttp_extra = normalize_xhttp_extra lower xhttp_extra

  -- The stream settings after the call, and the settings that it returns.
  unfoldable pub apply_reality_transport :
      Object → Json → Json → Json → Json → Json → Option (Object × Object)
  unfolding xhttp_server_extra
  apply_reality_transport stream transport grpc_service_name xhttp_path xhttp_mode xhttp_extra = do
    normalized ← normalize_reality_transport lower transport
    (if normalized == "grpc"
        then (do
          name ← normalize_grpc_service_name grpc_service_name
          some (
            put (without_settings normalized stream) "grpcSettings"
                (obj (dict (("serviceName", str name) ∷ []))),
            ("transport", str normalized) ∷ ("grpcServiceName", str name) ∷ [],
          ))
        else if normalized == "xhttp"
        then (do
          path ← normalize_xhttp_path xhttp_path
          mode ← normalize_xhttp_mode lower xhttp_mode
          extra ← full_extra stream xhttp_extra
          server_extra ← xhttp_server_extra (obj (dict extra))
          let settings =
                put_if "extra" server_extra (("path", str path) ∷ ("mode", str mode) ∷ []) in
              some (
                put (without_settings normalized stream) "xhttpSettings" (obj (dict settings)),
                put_if "xhttpExtra" extra (
                    ("transport", str normalized)
                    ∷ ("xhttpPath", str path)
                    ∷ ("xhttpMode", str mode)
                    ∷ []),
              ))
        else some (without_settings normalized stream, ("transport", str normalized) ∷ []))

  unfoldable pub client_flow_for_transport : Json → Option String
  client_flow_for_transport transport = do
    normalized ← normalize_reality_transport lower transport
    some (if normalized == "tcp" then "xtls-rprx-vision" else "")

  unfoldable pub apply_client_transport : Object → Json → Option Object
  unfolding client_flow_for_transport
  apply_client_transport client transport = do
    flow ← client_flow_for_transport transport
    some (if flow == "" then remove client "flow" else set_default client "flow" (str flow))
