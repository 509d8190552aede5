-- ===== src/Config/Connect.antt =====
-- `validateConnect` of internal/channel/config.go.
use llm_cluster_router.Prelude.{
  ℕ, List, [], ◌∷◌, Option, none, some, Bool, true, false, ◌&&◌, not, ◌==◌, if◌then◌else◌, length,
}
use llm_cluster_router.Prelude.Int.{ℤ, pos, negsuc}
use llm_cluster_router.Connect.Address.{bare_host, is_loopback}
use llm_cluster_router.Connect.Target.{connect_self_reference}
use llm_cluster_router.Config.{
  hosts_required, connect_token_required, secret_ref_malformed, host_malformed, host_is_gateway,
  max_concurrent_negative, idle_timeout_negative, Checked, rejected, accepted, and_then, refuse_if,
  or_default,
}
use llm_cluster_router.Config.Secret.{is_secret_ref}

pub record ConnectConfig : Type 0 where
  pub enabled : Bool
  pub allowed_hosts : List (List ℕ)
  pub token_env : List ℕ
  pub token_file : List ℕ
  pub token_ref : List ℕ
  pub dial_timeout : ℤ
  pub max_concurrent : ℤ
  pub idle_timeout : ℤ

-- 256 tunnels, and 5 minutes.
abbrev pub default_max_concurrent : ℕ
default_max_concurrent = 256

abbrev pub default_idle_timeout : ℕ
default_idle_timeout = 300_000_000_000

-- 10 seconds.
unfoldable pub dial_timeout_of : ℤ → ℤ
dial_timeout_of (pos n) = if n == 0 then pos 10_000_000_000 else pos n
dial_timeout_of (negsuc n) = negsuc n

-- `parse_ip` is `net.ParseIP`, `split` is `net.SplitHostPort`.
module _ (parse_ip : List ℕ → Option ℕ) (split : List ℕ → Option (List ℕ × List ℕ)) where
  -- `splitHostPortLenient`.
  unfoldable pub split_lenient : List ℕ → List ℕ × List ℕ
  split_lenient addr = elim (split addr) [ none ↦ (addr, []) | some parts ↦ parts ]

  -- `isLoopbackListen`.
  unfoldable pub is_loopback_listen : List ℕ → Bool
  unfolding split_lenient bare_host is_loopback
  is_loopback_listen listen = elim (parse_ip (bare_host (split_lenient listen).0)) [
    | none ↦ false
    | some ip ↦ is_loopback ip
  ]

  -- A host that names the gateway itself, for its two parts.
  unfoldable pub is_gateway : List ℕ → List ℕ × List ℕ → Bool
  unfolding split_lenient is_loopback_listen connect_self_reference
  is_gateway listen (host, port) =
      elim (connect_self_reference parse_ip host port (split_lenient listen)
        (is_loopback_listen listen)) [ none ↦ false | some _ ↦ true ]

  -- The body of the loop over the allowed hosts, for the parts of one, and the loop.
  unfoldable pub check_host :
      List ℕ → Option (List ℕ × List ℕ) → Checked (List (List ℕ)) → Checked (List (List ℕ))
  unfolding is_gateway
  check_host listen none rest = rejected host_malformed
  check_host listen (some parts) rest = refuse_if (is_gateway listen parts) host_is_gateway rest

  unfoldable pub check_hosts : List ℕ → List (List ℕ) → Checked (List (List ℕ))
  unfolding check_host
  check_hosts listen [] = accepted []
  check_hosts listen (h ∷ hs) =
      check_host listen (split h) (and_then (check_hosts listen hs) (λ rest. accepted (h ∷ rest)))

  -- `validateConnect` of a leg that is enabled.
  unfoldable pub check_connect : List ℕ → ConnectConfig → Checked ConnectConfig
  unfolding check_hosts is_secret_ref or_default dial_timeout_of
  check_connect listen c = refuse_if (length c.allowed_hosts == 0) hosts_required (
      refuse_if (length c.token_env == 0 && (length c.token_file == 0 && length c.token_ref == 0))
        connect_token_required
        (refuse_if (not (is_secret_ref c.token_ref)) secret_ref_malformed (
          and_then (check_hosts listen c.allowed_hosts) (λ hosts.
            and_then (or_default max_concurrent_negative default_max_concurrent c.max_concurrent)
              (λ most.
                and_then (or_default idle_timeout_negative default_idle_timeout c.idle_timeout)
                  (λ idle. accepted (record c {
                    allowed_hosts = hosts;
                    dial_timeout = dial_timeout_of c.dial_timeout;
                    max_concurrent = most;
                    idle_timeout = idle;
                  })))))))

  unfoldable pub connect_when : Bool → List ℕ → ConnectConfig → Checked ConnectConfig
  unfolding check_connect
  connect_when true listen c = check_connect listen c
  connect_when false listen c = accepted c

  unfoldable pub validate_connect : List ℕ → ConnectConfig → Checked ConnectConfig
  unfolding connect_when
  validate_connect listen c = connect_when c.enabled listen c
