-- ===== src/Config/Auth.antt =====
-- `validateGatewayAuth` and `validateAES` of internal/channel/config.go.
use llm_cluster_router.Prelude.{
  ℕ, List, Option, none, some, Bool, true, ◌&&◌, ◌||◌, not, ◌==◌, if◌then◌else◌, length,
}
use llm_cluster_router.Prelude.Bytes.{bytes_eq}
use llm_cluster_router.Gateway.{ProxyAuthMode, auth_mode}
use llm_cluster_router.Config.{
  token_and_open, exemption_needs_token, reachable_without_token, secret_ref_malformed,
  aes_listen_required, aes_listen_same, aes_tls_pair, aes_tls_required, aes_key_required, Checked,
  accepted, refuse_if,
}
use llm_cluster_router.Config.Secret.{is_secret_ref}

pub record GatewayAuthConfig : Type 0 where
  pub token_env : List ℕ
  pub token_file : List ℕ
  pub token_ref : List ℕ
  pub exempt_loopback : Option Bool
  pub allow_unauthenticated : Bool

-- `hasToken` and `exemptsLoopback`.
unfoldable pub has_token : GatewayAuthConfig → Bool
has_token g =
    not (length g.token_ref == 0)
    || (not (length g.token_env == 0) || not (length g.token_file == 0))

unfoldable pub exempts_loopback : GatewayAuthConfig → Bool
exempts_loopback g = elim g.exempt_loopback [ none ↦ true | some b ↦ b ]

-- `Mode`.
unfoldable pub mode_of : GatewayAuthConfig → ProxyAuthMode
unfolding has_token exempts_loopback auth_mode
mode_of g = auth_mode (has_token g) (exempts_loopback g) g.allow_unauthenticated

-- `validateGatewayAuth`, given whether the listen address is a loopback one.
unfoldable pub validate_gateway_auth : Bool → GatewayAuthConfig → Checked GatewayAuthConfig
unfolding has_token exempts_loopback is_secret_ref
validate_gateway_auth loopback_listen g =
    refuse_if (not (is_secret_ref g.token_ref)) secret_ref_malformed (
      refuse_if (has_token g && g.allow_unauthenticated) token_and_open (
        if has_token g
        then accepted g
        else refuse_if (not (exempts_loopback g)) exemption_needs_token (
            refuse_if (not g.allow_unauthenticated && not loopback_listen) reachable_without_token
              (accepted g))))

pub record TlsConfig : Type 0 where
  pub cert_file : List ℕ
  pub key_file : List ℕ

-- One of the two files without the other, and `Enabled`.
unfoldable pub is_torn : TlsConfig → Bool
is_torn t =
    not (length t.cert_file == 0) && length t.key_file == 0
    || length t.cert_file == 0 && not (length t.key_file == 0)

unfoldable pub is_enabled : TlsConfig → Bool
is_enabled t = not (length t.cert_file == 0) && not (length t.key_file == 0)

pub record AesConfig : Type 0 where
  pub enabled : Bool
  pub listen : List ℕ
  pub tls : TlsConfig
  pub key_env : List ℕ
  pub key_file : List ℕ
  pub key_ref : List ℕ

-- `validateAES`, for the listen address of the reverse proxy.
unfoldable pub validate_aes : List ℕ → AesConfig → Checked AesConfig
unfolding is_torn is_enabled bytes_eq
validate_aes listen a =
    if not a.enabled
    then accepted a
    else refuse_if (length a.listen == 0) aes_listen_required (
        refuse_if (bytes_eq a.listen listen) aes_listen_same (
          refuse_if (is_torn a.tls) aes_tls_pair (
            refuse_if (not (is_enabled a.tls)) aes_tls_required (
              refuse_if (length a.key_env == 0 && (length a.key_file == 0 && length a.key_ref == 0))
                aes_key_required (accepted a)))))
