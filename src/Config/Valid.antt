-- ===== src/Config/Valid.antt =====
-- What a configuration of the gateway has once it was accepted.
use llm_cluster_router.Prelude.{ℕ, suc, ◌≡◌, ◌≢◌, ◌⊎◌, List, Option, some, true, false, All}
use llm_cluster_router.Prelude.Int.{ℤ, pos}
use llm_cluster_router.Gateway.{auth_open, auth_loopback_only}
use llm_cluster_router.Config.Connect.{ConnectConfig, is_loopback_listen, is_gateway}
use llm_cluster_router.Config.Auth.{GatewayAuthConfig, has_token, mode_of}
use llm_cluster_router.Config.Whole.{Config}

-- A positive duration.
abbrev pub IsPositive : ℤ → Type 0
IsPositive x = (n : ℕ) × (x ≡ pos (suc n))

-- A gateway with a token, whose mode asks for it; or one without any, that its configuration has
-- expressly declared to be open to everybody.
abbrev pub IsAuthenticating : GatewayAuthConfig → Type 0
IsAuthenticating g =
    ((has_token g ≡ true) × (mode_of g ≢ auth_open) × (mode_of g ≢ auth_loopback_only))
    ⊎ ((has_token g ≡ false) × (g.allow_unauthenticated ≡ true) × (mode_of g ≡ auth_open))

module _ (clean : List ℕ → List ℕ) where
  module _ (parse_ip : List ℕ → Option ℕ) (split : List ℕ → Option (List ℕ × List ℕ)) where
    -- An allowed host, in two parts that do not name the gateway.
    abbrev pub IsForeign : List ℕ → List ℕ → Type 0
    IsForeign listen host =
        (parts : List ℕ × List ℕ) × (split host ≡ some parts)
        × (is_gateway parse_ip split listen parts ≡ false)

    -- What an accepted CONNECT leg has.
    pub record IsBoundedLeg (listen : List ℕ) (c : ConnectConfig) : Type 0 where
      pub foreign : All (IsForeign listen) c.allowed_hosts
      pub bounded : IsPositive c.max_concurrent
      pub reaped : IsPositive c.idle_timeout

    -- What an accepted configuration has.
    pub record IsValid (c : Config) : Type 0 where
      pub server_timeout : IsPositive c.timeout
      pub route_timeouts : All (λ r. IsPositive r.timeout) c.routes
      pub connect_leg : c.connect.enabled ≡ true → IsBoundedLeg c.listen c.connect
      pub authenticated :
          (is_loopback_listen parse_ip split c.listen ≡ true) ⊎ IsAuthenticating c.gateway_auth
