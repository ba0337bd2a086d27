-- ===== src/Xray/Tests/Samples.antt =====
-- A configuration with one cascade, and parts of it.
use xray_vps_manager.Base.{none, some, [], ◌∷◌}
use xray_vps_manager.Json.{str, texts, Object}
use xray_vps_manager.Xray.Config.{Config}

abbrev pub direct : Object
direct = ("tag", str "direct") ∷ ("protocol", str "freedom") ∷ []

abbrev pub germany : Object
germany = ("tag", str "cascade-de") ∷ ("protocol", str "vless") ∷ []

abbrev pub bypass : Object
bypass = ("tag", str "bypass-home") ∷ ("protocol", str "vless") ∷ []

abbrev pub api_rule : Object
api_rule =
    ("type", str "field") ∷ ("inboundTag", texts ("api" ∷ [])) ∷ ("outboundTag", str "api") ∷ []

abbrev pub warning_rule_ru : Object
warning_rule_ru =
    ("type", str "field")
    ∷ ("ip", texts ("geoip:ru" ∷ []))
    ∷ ("outboundTag", str "geoip-warning-RU")
    ∷ []

abbrev pub blocked_rule_old : Object
blocked_rule_old =
    ("type", str "field")
    ∷ ("domain", texts ("domain:old.example" ∷ "domain:kept.example" ∷ []))
    ∷ ("outboundTag", str "blocked")
    ∷ []

abbrev pub catchall : Object
catchall =
    ("type", str "field") ∷ ("network", str "tcp,udp") ∷ ("outboundTag", str "cascade-de") ∷ []

abbrev pub stale_balancer : Object
stale_balancer = ("tag", str "client-route-gone") ∷ ("selector", texts ("cascade-us" ∷ [])) ∷ []

abbrev pub stale_rule : Object
stale_rule =
    ("type", str "field")
    ∷ ("user", texts ("gone" ∷ []))
    ∷ ("balancerTag", str "client-route-gone")
    ∷ []

abbrev pub sample : Config
sample = record {
  api = some (record { tag = str "api"; services = none });
  inbounds = none;
  outbounds = some (germany ∷ direct ∷ bypass ∷ []);
  routing = some (record {
    domain_strategy = none;
    rules = some (api_rule ∷ blocked_rule_old ∷ warning_rule_ru ∷ stale_rule ∷ catchall ∷ []);
    balancers = some (stale_balancer ∷ []);
  });
}

abbrev pub alice : Object
alice = ("id", str "0f3a-77") ∷ ("selectedCascadeTag", str "cascade-de") ∷ []
