-- ===== src/Examples/Config.antt =====
-- A gateway on loopback with one route, a CONNECT leg and every default left out.
use llm_cluster_router.Prelude.{
  ℕ, ◌==◌, if◌then◌else◌, List, [], ◌∷◌, Option, none, some, true, false,
}
use llm_cluster_router.Prelude.Int.{pos}
use llm_cluster_router.Config.Route.{RouteConfig, auth_passthrough}
use llm_cluster_router.Config.Connect.{ConnectConfig}
use llm_cluster_router.Config.Whole.{Config}

-- `net.ParseIP` for texts that begin with a 1, which stand for the IPv6 loopback address here.
abbrev parse_ip : List ℕ → Option ℕ
parse_ip [] = none
parse_ip (b ∷ bs) = if b == 49 then some 1 else none

-- `net.SplitHostPort` for hosts with an empty port.
abbrev split : List ℕ → Option (List ℕ × List ℕ)
split h = some (h, [])

abbrev clean : List ℕ → List ℕ
clean path = path

abbrev route : RouteConfig
route = record {
  enabled = true;
  name = 97 ∷ [];
  prefix = 47 ∷ [];
  upstream = 104 ∷ 116 ∷ 116 ∷ 112 ∷ 58 ∷ 47 ∷ 47 ∷ 97 ∷ [];
  auth = auth_passthrough;
  timeout = pos 0;
  key_env = [];
  key_file = [];
  key_ref = [];
  key_envs = none;
  key_files = none;
  key_refs = none;
  key_header = [];
  key_prefix = [];
  rotation = none;
}

abbrev leg : ConnectConfig
leg = record {
  enabled = true;
  allowed_hosts = (98 ∷ []) ∷ [];
  token_env = 84 ∷ [];
  token_file = [];
  token_ref = [];
  dial_timeout = pos 0;
  max_concurrent = pos 0;
  idle_timeout = pos 0;
}

abbrev config : Config
config = record {
  listen = 49 ∷ [];
  timeout = pos 0;
  routes = route ∷ [];
  tls = record { cert_file = []; key_file = [] };
  connect = leg;
  aes = record {
    enabled = false;
    listen = [];
    tls = record { cert_file = []; key_file = [] };
    key_env = [];
    key_file = [];
    key_ref = [];
  };
  gateway_auth = record {
    token_env = [];
    token_file = [];
    token_ref = [];
    exempt_loopback = none;
    allow_unauthenticated = false;
  };
}

-- The same with its defaults.
abbrev filled : Config
filled = record config {
  timeout = pos 90_000_000_000;
  routes = record route { timeout = pos 90_000_000_000 } ∷ [];
  connect = record leg {
    dial_timeout = pos 10_000_000_000;
    max_concurrent = pos 256;
    idle_timeout = pos 300_000_000_000;
  };
}
