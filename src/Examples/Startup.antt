-- ===== src/Examples/Startup.antt =====
-- A gateway with one pooled route, a CONNECT leg and a token of its own, and a request through it.
use llm_cluster_router.Prelude.{
  ℕ, ◌≡◌, ◌≤◌, refl, List, [], ◌∷◌, ◌++◌, none, some, true, false, length,
}
use llm_cluster_router.Prelude.Int.{pos}
use llm_cluster_router.Prelude.Bytes.{codes, starts_with}
use llm_cluster_router.Config.Route.{RouteConfig, auth_inject}
use llm_cluster_router.Config.Whole.{Config}
use llm_cluster_router.Gateway.{auth_token_loopback_exempt}
use llm_cluster_router.Secrets.{Resolution, resolved}
use llm_cluster_router.Startup.{
  Headers, Authenticator, leased_injector, rotating_injector, authorization, bearer, mode_of,
}
use llm_cluster_router.Startup.Server.{BoundRoute, Server, longest_first, match_route}
use llm_cluster_router.Startup.Matching.{match_route-longest}
use llm_cluster_router.Forward.{outbound_headers, supplies_own}
use llm_cluster_router.Forward.Credentials.{HasCredential, outbound_headers-HasCredential}

abbrev route : RouteConfig
route = record {
  enabled = true;
  name = codes "pool";
  prefix = codes "/pool/";
  upstream = codes "https://a/";
  auth = auth_inject;
  timeout = pos 1;
  key_env = [];
  key_file = [];
  key_ref = [];
  key_envs = some (codes "A" ∷ codes "B" ∷ []);
  key_files = none;
  key_refs = none;
  key_header = [];
  key_prefix = [];
  rotation = none;
}

abbrev config : Config
config = record {
  listen = codes "1";
  timeout = pos 1;
  routes = route ∷ [];
  tls = record { cert_file = []; key_file = [] };
  connect = record {
    enabled = true;
    allowed_hosts = codes "H" ∷ [];
    token_env = codes "C";
    token_file = [];
    token_ref = [];
    dial_timeout = pos 1;
    max_concurrent = pos 2;
    idle_timeout = pos 1;
  };
  aes = record {
    enabled = false;
    listen = [];
    tls = record { cert_file = []; key_file = [] };
    key_env = [];
    key_file = [];
    key_ref = [];
  };
  gateway_auth = record {
    token_env = codes "G";
    token_file = [];
    token_ref = [];
    exempt_loopback = none;
    allow_unauthenticated = false;
  };
}

-- A provider whose secret for a reference is the reference itself, with a space behind it.
abbrev echo : Unit {0} → List ℕ → Unit {0} × Resolution
echo s ref = (tt, resolved (ref ++ codes " "))

abbrev auth : Authenticator
auth = rotating_injector (record {
  keys = codes "env:A" ∷ codes "env:B" ∷ [];
  store_size = 2;
  route = codes "pool";
  mode = auth_inject;
  header = authorization;
  prefix = bearer;
})

abbrev server : Server
server = record {
  routes = record { route = route; auth = auth } ∷ [];
  conn_token = codes "env:C";
  allowed = codes "h" ∷ [];
  tunnels = some 2;
  proxy_auth = auth_token_loopback_exempt;
  proxy_token = codes "env:G";
}

abbrev short : BoundRoute
short = record { route = record route { prefix = codes "/" }; auth = auth }

abbrev long : BoundRoute
long = record { route = route; auth = auth }

matches_long : match_route (codes "/pool/v1") (longest_first (short ∷ long ∷ [])) ≡ some long
unfolding match_route longest_first
matches_long = refl

short_matches : starts_with (codes "/pool/v1") (codes "/") ≡ true
unfolding starts_with
short_matches = refl

match_route-longest_example :
    (starts_with (codes "/pool/v1") (codes "/pool/") ≡ true)
    × (length (codes "/") ≤ length (codes "/pool/"))
match_route-longest_example =
    match_route-longest (codes "/pool/v1") (short ∷ long ∷ []) long 0 short matches_long refl
      short_matches

-- The request with the first key of the pool: the caller's own credentials stay behind.
abbrev leased : BoundRoute
leased = record {
  route = route;
  auth =
      leased_injector (record {
        key = codes "env:A";
        header = authorization;
        prefix = bearer;
        mode = auth_inject;
      });
}

abbrev inbound : Headers
inbound =
    (codes "authorization", codes "Bearer mine")
    ∷ (codes "x-api-key", codes "mine")
    ∷ (codes "Connection", codes "close")
    ∷ (codes "Accept", codes "*")
    ∷ []

abbrev outbound : Headers
outbound =
    (codes "Authorization", codes "Bearer env:A")
    ∷ (codes "User-Agent", codes "helixchannel-gateway/1")
    ∷ (codes "Accept", codes "*")
    ∷ []

sends : outbound_headers leased inbound ≡ some outbound
unfolding outbound_headers
sends = refl

outbound_headers-HasCredential_example : HasCredential (leased.auth) outbound
unfolding mode_of supplies_own
outbound_headers-HasCredential_example =
    outbound_headers-HasCredential leased inbound outbound refl sends
