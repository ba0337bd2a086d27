-- ===== src/Xray/Config.antt =====
-- The parts of config.json that the manager edits (xray_vps_manager/xray/cascade.py). A section that
-- is missing is `none`; `setdefault` is what fills it.
use xray_vps_manager.Base.{String, Bool, Option, none, some, List, [], get_or}
use xray_vps_manager.Json.{Json, str, Object, text_or_empty, is_text, get}

pub record Api : Type 0 where
  pub tag : Json
  pub services : Option (List String)

pub record Routing : Type 0 where
  pub domain_strategy : Option Json
  pub rules : Option (List Object)
  pub balancers : Option (List Object)

pub record Config : Type 0 where
  pub api : Option Api
  pub inbounds : Option (List Object)
  pub outbounds : Option (List Object)
  pub routing : Option Routing

abbrev pub empty_routing : Routing
empty_routing = record { domain_strategy = none; rules = none; balancers = none }

-- `config.get("outbounds", [])`
abbrev pub outbounds_of : Config → List Object
outbounds_of c = get_or c.outbounds []

abbrev pub routing_of : Config → Routing
routing_of c = get_or c.routing empty_routing

-- What `routing_rules(config)` returns, and what `routing_balancers(config)` returns.
abbrev pub rules_of : Config → List Object
rules_of c = get_or (routing_of c).rules []

abbrev pub balancers_of : Config → List Object
balancers_of c = get_or (routing_of c).balancers []

-- What `routing_rules(config)` leaves in the configuration: its three `setdefault` calls.
unfoldable pub routing_rules : Config → Config
routing_rules c =
    let r = routing_of c in
    record c {
      routing = some (record r {
        domain_strategy = some (get_or r.domain_strategy (str "IPIfNonMatch"));
        rules = some (get_or r.rules []);
      });
    }

-- What `routing_balancers(config)` leaves: its two `setdefault` calls.
unfoldable pub routing_balancers : Config → Config
routing_balancers c =
    let r = routing_of c in
    record c { routing = some (record r { balancers = some (get_or r.balancers []) }) }

-- `config["routing"]["rules"] = rules`, and the same for the other two lists.
abbrev pub set_rules : Config → List Object → Config
set_rules c rules = record c { routing = some (record (routing_of c) { rules = some rules }) }

abbrev pub set_balancers : Config → List Object → Config
set_balancers c balancers = record c {
  routing = some (record (routing_of c) { balancers = some balancers });
}

abbrev pub set_outbounds : Config → List Object → Config
set_outbounds c outbounds = record c { outbounds = some outbounds }

-- `entry.get("tag") == tag`, and the same of a rule's two targets.
abbrev pub tag_is : String → Object → Bool
tag_is tag entry = is_text tag (get entry "tag")

abbrev pub outbound_tag : Object → Json
outbound_tag rule = get rule "outboundTag"

-- `str(rule.get("balancerTag") or "")`
abbrev pub balancer_tag_text : Object → String
balancer_tag_text rule = text_or_empty (get rule "balancerTag")
