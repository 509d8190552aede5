-- ===== src/Config/Whole.antt =====
-- `Config.Validate` of internal/channel/config.go.
use llm_cluster_router.Prelude.{ℕ, zero, suc, List, [], ◌∷◌, Option, ◌&&◌, ◌||◌, not, ◌==◌, length}
use llm_cluster_router.Prelude.Int.{ℤ, pos, negsuc}
use llm_cluster_router.Prelude.Bytes.{has_suffix, starts_with}
use llm_cluster_router.Config.{
  listen_required, timeout_negative, name_required, duplicate_name, prefix_required,
  prefix_malformed, duplicate_prefix, upstream_required, upstream_malformed, tls_pair, Checked,
  rejected, accepted, and_then, refuse_if, or_default,
}
use llm_cluster_router.Config.Route.{RouteConfig, is_among, validate_route_auth}
use llm_cluster_router.Config.Connect.{ConnectConfig, is_loopback_listen, validate_connect}
use llm_cluster_router.Config.Auth.{
  GatewayAuthConfig, validate_gateway_auth, TlsConfig, is_torn, AesConfig, validate_aes,
}

pub record Config : Type 0 where
  pub listen : List ℕ
  pub timeout : ℤ
  pub routes : List RouteConfig
  pub tls : TlsConfig
  pub connect : ConnectConfig
  pub aes : AesConfig
  pub gateway_auth : GatewayAuthConfig

-- 90 seconds.
abbrev pub default_timeout : ℕ
default_timeout = 90_000_000_000

-- `https://` and `http://`.
abbrev https_scheme : List ℕ
https_scheme = 104 ∷ 116 ∷ 116 ∷ 112 ∷ 115 ∷ 58 ∷ 47 ∷ 47 ∷ []

abbrev http_scheme : List ℕ
http_scheme = 104 ∷ 116 ∷ 116 ∷ 112 ∷ 58 ∷ 47 ∷ 47 ∷ []

abbrev slash : List ℕ
slash = 47 ∷ []

-- The timeout of a route, which inherits the server's.
unfoldable pub timeout_or : ℤ → ℤ → Checked ℤ
timeout_or server (negsuc n) = rejected timeout_negative
timeout_or server (pos zero) = accepted server
timeout_or server (pos (suc n)) = accepted (pos (suc n))

unfoldable pub inherit_timeout : ℤ → RouteConfig → Checked RouteConfig
unfolding timeout_or
inherit_timeout server r =
    and_then (timeout_or server r.timeout) (λ t. accepted (record r { timeout = t }))

module _ (clean : List ℕ → List ℕ) where
  -- The body of the loop over the routes, for the names and prefixes seen and the server's timeout.
  unfoldable pub check_route : ℤ → List (List ℕ) → List (List ℕ) → RouteConfig → Checked RouteConfig
  unfolding is_among starts_with has_suffix inherit_timeout validate_route_auth
  check_route server names prefixes r = refuse_if (length r.name == 0) name_required (
      refuse_if (is_among names r.name) duplicate_name (
        refuse_if (length r.prefix == 0) prefix_required (
          refuse_if (not (starts_with r.prefix slash) || not (has_suffix r.prefix slash))
            prefix_malformed
            (refuse_if (is_among prefixes r.prefix) duplicate_prefix (
              refuse_if (length r.upstream == 0) upstream_required (
                refuse_if
                  (not (starts_with r.upstream https_scheme)
                    && not (starts_with r.upstream http_scheme))
                  upstream_malformed
                  (and_then (validate_route_auth clean r) (inherit_timeout server))))))))

  unfoldable pub check_routes :
      ℤ → List (List ℕ) → List (List ℕ) → List RouteConfig → Checked (List RouteConfig)
  unfolding check_route
  check_routes server names prefixes [] = accepted []
  check_routes server names prefixes (r ∷ rs) =
      and_then (check_route server names prefixes r) (λ r'.
        and_then (check_routes server (r.name ∷ names) (r.prefix ∷ prefixes) rs)
          (λ rs'. accepted (r' ∷ rs')))

  module _ (parse_ip : List ℕ → Option ℕ) (split : List ℕ → Option (List ℕ × List ℕ)) where
    -- `Validate` behind the routes.
    unfoldable pub check_legs : Config → Checked Config
    unfolding is_torn validate_connect validate_aes validate_gateway_auth is_loopback_listen
    check_legs c = refuse_if (is_torn c.tls) tls_pair (
        and_then (validate_connect parse_ip split c.listen c.connect) (λ connect.
          and_then (validate_aes c.listen c.aes) (λ aes.
            and_then
              (validate_gateway_auth (is_loopback_listen parse_ip split c.listen) c.gateway_auth)
              (λ auth. accepted (record c { connect = connect; aes = aes; gateway_auth = auth })))))

    -- `Validate`: the configuration with its defaults, or the first error.
    unfoldable pub validate : Config → Checked Config
    unfolding check_routes check_legs
    validate c = refuse_if (length c.listen == 0) listen_required (
        and_then (or_default timeout_negative default_timeout c.timeout) (λ timeout.
          and_then (check_routes timeout [] [] c.routes)
            (λ routes. check_legs (record c { timeout = timeout; routes = routes }))))
