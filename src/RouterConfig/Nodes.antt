-- ===== src/RouterConfig/Nodes.antt =====
-- The checks of one node in internal/config/config.go: ExpandEnvValue, ValidateUpstreamURL,
-- validateAuthHeader and validateWorkloads.
use llm_cluster_router.Prelude.{
  ℕ, List, [], ◌∷◌, Option, none, some, Bool, true, false, not, ◌&&◌, ◌||◌, leb, ◌==◌,
  if◌then◌else◌, length, drop, map,
}
use llm_cluster_router.Prelude.Bytes.{codes, bytes_eq, lower, starts_with, has_suffix, trim_suffix}
use llm_cluster_router.RouterConfig.{
  LoadError, forbidden_host, auth_header_reserved, auth_header_byte, auth_header_keyless,
  workload_unknown, NodeConfig,
}

-- `ExpandEnvValue`. 36, 123 and 125 are the dollar sign and the braces.
unfoldable pub expand_env_value : (List ℕ → Option (List ℕ)) → List ℕ → List ℕ
expand_env_value lookup_env s =
    if not (starts_with s (36 ∷ 123 ∷ [])) || not (has_suffix s (125 ∷ []))
    then s
    else elim (lookup_env (trim_suffix 125 (drop 2 s))) [ none ↦ [] | some v ↦ v ]

-- `ForbiddenUpstreamHostSuffixes`.
abbrev pub forbidden_suffixes : List (List ℕ)
forbidden_suffixes = codes "zende.sk" ∷ codes "zendesk.com" ∷ []

-- The loop over the suffixes, for a host in lower case.
unfoldable pub is_forbidden : List (List ℕ) → List ℕ → Bool
is_forbidden [] host = false
is_forbidden (s ∷ ss) host =
    if bytes_eq host s || has_suffix host (46 ∷ s) then true else is_forbidden ss host

-- `ValidateUpstreamURL`: the error, if there is one. `host_of` is the host of a URL that parses.
unfoldable pub validate_upstream_url :
    (List ℕ → Option (List ℕ)) → List ℕ → List ℕ → Option LoadError
unfolding is_forbidden
validate_upstream_url host_of name url = if length url == 0 then none else elim (host_of url) [
  | none ↦ none
  | some host ↦
      if length (lower host) == 0
      then none
      else if is_forbidden forbidden_suffixes (lower host)
      then some (forbidden_host name)
      else none
]

unfoldable pub is_auth_byte : ℕ → Bool
is_auth_byte c =
    (leb 97 c && leb c 122) || ((leb 65 c && leb c 90) || ((leb 48 c && leb c 57) || c == 45))

unfoldable pub are_auth_bytes : List ℕ → Bool
unfolding is_auth_byte
are_auth_bytes [] = true
are_auth_bytes (c ∷ cs) = if is_auth_byte c then are_auth_bytes cs else false

-- The loop over the keys: whether one is not empty.
unfoldable pub any_key : List (List ℕ) → Bool
any_key [] = false
any_key (k ∷ ks) = if length k == 0 then any_key ks else true

abbrev pub authorization_name : List ℕ
authorization_name = codes "authorization"

-- `validateAuthHeader`.
unfoldable pub validate_auth_header : NodeConfig → Option LoadError
unfolding are_auth_bytes any_key
validate_auth_header n =
    if length n.auth_header == 0
    then none
    else if bytes_eq (lower n.auth_header) authorization_name
    then some (auth_header_reserved n.name)
    else if not (are_auth_bytes n.auth_header)
    then some (auth_header_byte n.name)
    else if not (length n.api_key == 0) || any_key n.api_keys
    then none
    else some (auth_header_keyless n.name)

abbrev pub internal_class : List ℕ
internal_class = codes "internal"

abbrev pub customer_class : List ℕ
customer_class = codes "customer"

unfoldable pub are_workloads : List (List ℕ) → Bool
are_workloads [] = true
are_workloads (w ∷ ws) =
    if bytes_eq w internal_class || bytes_eq w customer_class then are_workloads ws else false

-- `validateWorkloads`.
unfoldable pub validate_workloads : NodeConfig → Option LoadError
unfolding are_workloads
validate_workloads n = if are_workloads n.workloads then none else some (workload_unknown n.name)

-- A node whose values are expanded.
unfoldable pub expand_node : (List ℕ → Option (List ℕ)) → NodeConfig → NodeConfig
unfolding expand_env_value
expand_node lookup_env n = record n {
  api_key = expand_env_value lookup_env n.api_key;
  api_keys = map (expand_env_value lookup_env) n.api_keys;
  enabled = expand_env_value lookup_env n.enabled;
}
