-- ===== src/Examples/RouterConfig.antt =====
-- A configuration with one node and a metrics address that names no host.
use llm_cluster_router.Prelude.{
  ℕ, ◌≡◌, refl, List, [], ◌∷◌, Option, none, some, true, ◌++◌, ◌==◌, if◌then◌else◌,
}
use llm_cluster_router.Prelude.Int.{pos, negsuc}
use llm_cluster_router.Prelude.Bytes.{codes, lower, bytes_eq, has_suffix, starts_with}
use llm_cluster_router.Circuit.Settings.{CircuitConfig}
use llm_cluster_router.RouterConfig.{
  NodeConfig, RouterConfig, load_failed, loaded, auth_header_keyless, to_runtime,
  missing_local_port,
}
use llm_cluster_router.RouterConfig.Load.{load_config}
use llm_cluster_router.RouterConfig.Valid.{IsLoaded, load_config-IsLoaded}

-- Splits at the first colon.
unfoldable split : List ℕ → Option (List ℕ × List ℕ)
split [] = none
split (b ∷ bs) =
    let rest = split bs in
    if b == 58 then some ([], bs) else elim rest [ none ↦ none | some (h, p) ↦ some (b ∷ h, p) ]

abbrev host_of : List ℕ → Option (List ℕ)
host_of url = some (codes "API.example.org")

abbrev lookup_env : List ℕ → Option (List ℕ)
lookup_env name = none

abbrev no_circuit : CircuitConfig
no_circuit = record { threshold = pos 0; cooldown = negsuc 0 }

abbrev node : NodeConfig
node = record {
  name = codes "a";
  url = codes "https://API.example.org";
  enabled = [];
  api_key = [];
  api_keys = [] ∷ codes "k" ∷ [];
  workloads = codes "internal" ∷ [];
  circuit = no_circuit;
  auth_header = codes "X-Key";
  tunnel = record {
    enabled = true;
    host = codes "h";
    port = pos 22;
    user = codes "u";
    identity_file = codes "i";
    local_port = pos 70_000;
    connect_timeout = pos 0;
  };
}

abbrev config : RouterConfig
config = record {
  listen = [];
  metrics_addr = codes ":9";
  debug_addr = [];
  auth_token = [];
  defaults = record {
    max_queue_depth = negsuc 3;
    max_concurrency = pos 0;
    request_timeout = pos 0;
    key_cooldown = negsuc 0;
    max_body_size = pos 7;
    body_read_timeout = pos 0;
    circuit = no_circuit;
  };
  health_check = record {
    interval = pos 0;
    timeout = pos 0;
    path = [];
    unhealthy_threshold = pos 0;
    healthy_threshold = pos 0;
    live_probe = record { interval = pos 0; burst = pos 0 };
  };
  fair_share = record {
    enabled = true;
    max_requests_per_user = pos 0;
    window = pos 0;
    burst = pos 0;
  };
  nodes = node ∷ [];
}

-- What it loads to.
abbrev ready : RouterConfig
ready = elim (load_config split host_of lookup_env config) [ load_failed e ↦ config | loaded d ↦ d ]

loads : load_config split host_of lookup_env config ≡ loaded ready
unfolding load_config split lower bytes_eq has_suffix starts_with
loads = refl

splits_loopback :
    (addr port : List ℕ)
    → split addr ≡ some ([], port)
    → split (codes "127.0.0.1:" ++ port) ≡ some (codes "127.0.0.1", port)
unfolding split
splits_loopback addr port h = refl

splits_nothing : split [] ≡ none
unfolding split
splits_nothing = refl

load_config-IsLoaded_example : IsLoaded split host_of lookup_env ready
load_config-IsLoaded_example =
    load_config-IsLoaded split host_of lookup_env splits_nothing splits_loopback config ready loads

metrics_get_host : ready.metrics_addr ≡ codes "127.0.0.1:9"
unfolding load_config split lower bytes_eq has_suffix starts_with
metrics_get_host = refl

keyless_fails :
    load_config split host_of lookup_env
      (record config { nodes = record node { api_keys = [] } ∷ [] })
    ≡ load_failed (auth_header_keyless (codes "a"))
unfolding load_config lower bytes_eq has_suffix starts_with
keyless_fails = refl

port_too_large : to_runtime node.tunnel ≡ missing_local_port
unfolding to_runtime
port_too_large = refl
