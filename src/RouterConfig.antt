-- ===== src/RouterConfig.antt =====
-- The configuration of the router: internal/config/config.go and internal/config/diagaddr.go. Texts are
-- bytes, durations nanoseconds; an error is named by its rule. Decoding the file is not modelled: a
-- configuration is what was decoded. `net.SplitHostPort`, the host of a URL and the environment are
-- arguments.
pub mod Nodes
pub mod Load
pub mod Hosts
pub mod Accepted
pub mod Valid
use llm_cluster_router.Prelude.{
  ℕ, List, [], ◌∷◌, ◌++◌, Option, none, some, Bool, false, not, ltb, leb, if◌then◌else◌, length,
  ◌==◌,
}
use llm_cluster_router.Prelude.Int.{ℤ, pos, negsuc}
use llm_cluster_router.Prelude.Bytes.{codes}
use llm_cluster_router.Circuit.Settings.{CircuitConfig}

-- The errors of LoadConfig and of ToRuntime.
pub data LoadError : Type 0 where
  body_read_timeout_negative probe_interval_negative probe_burst_negative no_nodes : LoadError
  forbidden_host auth_header_reserved auth_header_byte auth_header_keyless workload_unknown :
      List ℕ → LoadError

pub data Loaded (A : Type 0) : Type 0 where
  load_failed : LoadError → Loaded A
  loaded : A → Loaded A

-- `Defaults`.
pub record Defaults : Type 0 where
  pub max_queue_depth : ℤ
  pub max_concurrency : ℤ
  pub request_timeout : ℤ
  pub key_cooldown : ℤ
  pub max_body_size : ℤ
  pub body_read_timeout : ℤ
  pub circuit : CircuitConfig

-- `HealthConfig` and `LiveProbeConfig`.
pub record LiveProbeConfig : Type 0 where
  pub interval : ℤ
  pub burst : ℤ

pub record HealthConfig : Type 0 where
  pub interval : ℤ
  pub timeout : ℤ
  pub path : List ℕ
  pub unhealthy_threshold : ℤ
  pub healthy_threshold : ℤ
  pub live_probe : LiveProbeConfig

-- `FairShareConfig`.
pub record FairShareConfig : Type 0 where
  pub enabled : Bool
  pub max_requests_per_user : ℤ
  pub window : ℤ
  pub burst : ℤ

-- `TunnelConfig`.
pub record TunnelConfig : Type 0 where
  pub enabled : Bool
  pub host : List ℕ
  pub port : ℤ
  pub user : List ℕ
  pub identity_file : List ℕ
  pub local_port : ℤ
  pub connect_timeout : ℤ

-- `NodeConfig`, with the fields that loading reads.
pub record NodeConfig : Type 0 where
  pub name : List ℕ
  pub url : List ℕ
  pub enabled : List ℕ
  pub api_key : List ℕ
  pub api_keys : List (List ℕ)
  pub workloads : List (List ℕ)
  pub circuit : CircuitConfig
  pub auth_header : List ℕ
  pub tunnel : TunnelConfig

-- `Config`, with the fields that loading reads.
pub record RouterConfig : Type 0 where
  pub listen : List ℕ
  pub metrics_addr : List ℕ
  pub debug_addr : List ℕ
  pub auth_token : List ℕ
  pub defaults : Defaults
  pub health_check : HealthConfig
  pub fair_share : FairShareConfig
  pub nodes : List NodeConfig

-- A setting of which anything not positive means its default.
unfoldable pub positive_else : ℕ → ℤ → ℤ
positive_else d (pos n) = if leb n 0 then pos d else pos n
positive_else d (negsuc n) = pos d

abbrev pub text_else : List ℕ → List ℕ → List ℕ
text_else d x = if length x == 0 then d else x

-- `DefaultCircuitThreshold`, `DefaultCircuitCooldown` and `DefaultBodyReadTimeout`.
abbrev pub default_circuit_threshold : ℕ
default_circuit_threshold = 5

abbrev pub default_circuit_cooldown : ℕ
default_circuit_cooldown = 30_000_000_000

abbrev pub default_body_read_timeout : ℕ
default_body_read_timeout = 15_000_000_000

-- The key cooldown: a negative one becomes 0, and 0 becomes five minutes.
unfoldable pub key_cooldown_of : ℤ → ℤ
key_cooldown_of (negsuc n) = pos 0
key_cooldown_of (pos n) = if n == 0 then pos 300_000_000_000 else pos n

-- `LoopbackHost` and `DefaultMetricsAddr`.
abbrev pub loopback_host : List ℕ
loopback_host = codes "127.0.0.1"

abbrev pub default_metrics_addr : List ℕ
default_metrics_addr = codes "127.0.0.1:9091"

-- `DiagnosticListenAddr`; `split` is `net.SplitHostPort`. A port holds no colon, so that
-- `net.JoinHostPort` puts one between the two.
unfoldable pub diagnostic_listen_addr : (List ℕ → Option (List ℕ × List ℕ)) → List ℕ → List ℕ
diagnostic_listen_addr split addr = if length addr == 0 then [] else elim (split addr) [
  | none ↦ addr
  | some (host, port) ↦ if length host == 0 then loopback_host ++ (58 ∷ port) else addr
]

-- `SSHTunnelRuntime`, and the errors of `ToRuntime`.
pub record SshTunnelRuntime : Type 0 where
  pub host : List ℕ
  pub port : ℤ
  pub user : List ℕ
  pub identity_file : List ℕ
  pub local_port : ℕ
  pub connect_timeout : ℤ

pub data TunnelResult : Type 0 where
  tunnel_disabled missing_login missing_local_port : TunnelResult
  tunnel : SshTunnelRuntime → TunnelResult

-- The local port, if it is one.
unfoldable pub local_port_of : ℤ → Option ℕ
local_port_of (pos n) = if leb n 0 then none else if ltb 65_535 n then none else some n
local_port_of (negsuc n) = none

abbrev is_zero : ℤ → Bool
is_zero x = elim x [ pos n ↦ n == 0 | negsuc _ ↦ false ]

-- `ToRuntime`.
unfoldable pub to_runtime : TunnelConfig → TunnelResult
unfolding local_port_of
to_runtime t =
    if not t.enabled
    then tunnel_disabled
    else if length t.host == 0
    then missing_login
    else if length t.user == 0
    then missing_login
    else if length t.identity_file == 0
    then missing_login
    else elim (local_port_of t.local_port) [
      | none ↦ missing_local_port
      | some port ↦ tunnel (record {
        host = t.host;
        port = t.port;
        user = t.user;
        identity_file = t.identity_file;
        local_port = port;
        connect_timeout =
            if is_zero t.connect_timeout then pos 10_000_000_000 else t.connect_timeout;
      })
    ]
