-- ===== src/Xray/ClientRoutes/All.antt =====
-- `ensure_all_client_route_config` and the runtime override of client_routes.py.
use xray_vps_manager.Base.{
  String, ◌<>◌, Bool, true, false, not, ◌||◌, List, [], ◌∷◌, ◌++◌, map, ℕ, nat_eq, if◌then◌else◌,
  ◌==◌, drop, length, ◌-◌,
}
use xray_vps_manager.Json.{Object, strip}
use xray_vps_manager.Xray.Config.{Config}
use xray_vps_manager.Xray.ClientRoutes.{
  client_routes_allowed, client_balancer_tag, ensure_client_route_config,
}
use xray_vps_manager.Xray.ClientRoutes.Remove.{
  remove_all_client_route_config, remove_stale_client_route_config,
}
use xray_vps_manager.Xray.ClientRoutes.Metadata.{RouteDb, sync_routes_from_config}

-- What the run leaves, and whether it changed anything.
pub record Synced : Type 0 where
  pub config : Config
  pub db : RouteDb
  pub changed : Bool

module _ (lower : String → String) (emails : String → Object → List String) where
  -- The loop over the clients.
  unfoldable pub ensure_each :
      Config → List (String × Object) → Config × List (String × Object) × Bool
  ensure_each c [] = (c, [], false)
  ensure_each c ((name, entry) ∷ rest) =
      let done = ensure_client_route_config lower emails c name entry "" in
      let (c', rest', changed) = ensure_each done.config rest in
      (c', (name, done.entry) ∷ rest', done.changed || changed)

  unfoldable pub ensure_all_client_route_config : String → Config → RouteDb → Synced
  unfolding ensure_each sync_routes_from_config
  ensure_all_client_route_config stamp c₀ db₀ =
      let (c, db, synced) = sync_routes_from_config stamp c₀ db₀ in
      let (cleared, cleared_changed) = remove_all_client_route_config c in
      let expected =
        map (λ (name, entry). client_balancer_tag lower emails name entry) db.clients in
      let (fresh, stale) = remove_stale_client_route_config c expected in
      let (c', clients, ensured) = ensure_each fresh db.clients in
      if not (client_routes_allowed c)
      then record { config = cleared; db = db; changed = cleared_changed || synced }
      else record {
        config = c';
        db = record db { clients = clients };
        changed = ensured || (stale || synced);
      }

-- The result of one call of the command: `none` is an exception, with its text; else the exit
-- code, stderr and stdout.
pub data CommandResult : Type 0 where
  raised : String → CommandResult
  finished : ℕ → String → String → CommandResult

-- The text that one failed command adds to the errors; `show` is the decimal text of a number.
abbrev failure_text : (ℕ → String) → ℕ → String → String → String
failure_text show code stderr stdout = strip (
    if not (stderr == "")
    then stderr
    else if not (stdout == "")
    then stdout
    else "exit " <> show code)

abbrev pub join_errors : List String → String
join_errors [] = "xray api bo failed"
join_errors (a ∷ []) = if a == "" then "xray api bo failed" else a
join_errors (a ∷ b ∷ _) = a <> ("; " <> b)

-- The loop over the commands, over what each of them gives.
unfoldable pub apply_runtime_override :
    (ℕ → String) → List CommandResult → List String → Bool × String
apply_runtime_override show [] errors = (false, join_errors (drop (length errors - 2) errors))
apply_runtime_override show (raised text ∷ rest) errors =
    apply_runtime_override show rest (errors ++ (text ∷ []))
apply_runtime_override show (finished code stderr stdout ∷ rest) errors =
    let detail = failure_text show code stderr stdout in
    let next =
      apply_runtime_override show rest (if detail == "" then errors else errors ++ (detail ∷ [])) in
    if nat_eq code 0 then (true, "") else next

unfoldable pub runtime_override_commands : String → String → List (List String)
runtime_override_commands balancer_tag outbound_tag =
    let bin : String = "/usr/local/bin/xray" in
    let server : String = "127.0.0.1:10085" in
    (bin ∷ "api" ∷ "bo" ∷ ("--server=" <> server) ∷ "-b" ∷ balancer_tag ∷ outbound_tag ∷ [])
    ∷ (bin ∷ "api" ∷ "bo" ∷ "-s" ∷ server ∷ "-b" ∷ balancer_tag ∷ outbound_tag ∷ [])
    ∷ []
