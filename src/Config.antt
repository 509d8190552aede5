-- ===== src/Config.antt =====
-- The configuration of the gateway: internal/channel/config.go, with validateSecretRef of
-- internal/channel/secret.go. Texts are bytes; durations are nanoseconds. An error is named by its
-- rule, not by its text.
pub mod Secret
pub mod Route
pub mod Connect
pub mod Auth
pub mod Whole
pub mod Valid
use llm_cluster_router.Prelude.{
  ℕ, zero, suc, ◌≡◌, refl, List, [], ◌∷◌, Option, Bool, true, false, if◌then◌else◌, Bool-cases, inl,
  inr, arith,
}
use llm_cluster_router.Prelude.Int.{ℤ, pos, negsuc}

pub data ConfigError : Type 0 where
  listen_required timeout_negative name_required duplicate_name prefix_required prefix_malformed
        duplicate_prefix upstream_required upstream_malformed tls_pair :
      ConfigError
  aes_listen_required aes_listen_same aes_tls_pair aes_tls_required aes_key_required : ConfigError
  mixed_sources empty_sources blank_source duplicate_source secret_ref_malformed : ConfigError
  header_only_with_header_auth credentials_required credentials_forbidden auth_unknown
        key_header_required key_header_malformed key_header_hop_by_hop key_header_host :
      ConfigError
  rotation_forbidden rotation_needs_pool policy_unknown policy_not_supported soft_ratio_range
        window_negative window_required estimate_required max_retry_after_negative :
      ConfigError
  hosts_required connect_token_required host_malformed host_is_gateway max_concurrent_negative
        idle_timeout_negative :
      ConfigError
  token_and_open exemption_needs_token reachable_without_token : ConfigError

-- What a validation returns: its error, or the value with its defaults filled in.
pub data Checked (A : Type 0) : Type 0 where
  rejected : ConfigError → Checked A
  accepted : A → Checked A

module _ {A B : Type 0} where
  -- The early return of an error.
  unfoldable pub and_then : Checked A → (A → Checked B) → Checked B
  and_then (rejected e) f = rejected e
  and_then (accepted a) f = f a

  pub and_then-accepted :
      (x : Checked A) (f : A → Checked B) {b : B}
      → and_then x f ≡ accepted b
      → (a : A) × (x ≡ accepted a) × (f a ≡ accepted b)
  unfolding and_then
  and_then-accepted (rejected e) f h = absurd (ground (arith, h))
  and_then-accepted (accepted a) f h = (a, refl, h)

module _ {A : Type 0} where
  -- `if test { return err }` ahead of the rest.
  unfoldable pub refuse_if : Bool → ConfigError → Checked A → Checked A
  refuse_if b e rest = if b then rejected e else rest

  pub refuse_if-accepted :
      (b : Bool) (e : ConfigError) (rest : Checked A) {a : A}
      → refuse_if b e rest ≡ accepted a
      → (b ≡ false) × (rest ≡ accepted a)
  unfolding refuse_if
  refuse_if-accepted true e rest h = absurd (ground (arith, h))
  refuse_if-accepted false e rest h = (refl, h)

-- A setting that must not be negative, and of which 0 selects the default.
unfoldable pub or_default : ConfigError → ℕ → ℤ → Checked ℤ
or_default e d (negsuc n) = rejected e
or_default e d (pos zero) = accepted (pos d)
or_default e d (pos (suc n)) = accepted (pos (suc n))

pub or_default-accepted :
    (e : ConfigError) (d : ℕ) (x : ℤ) {y : ℤ}
    → or_default e (suc d) x ≡ accepted y
    → (n : ℕ) × (y ≡ pos (suc n))
unfolding or_default
or_default-accepted e d (negsuc n) h = absurd (ground (arith, h))
or_default-accepted e d (pos zero) h = (d, ground (arith, h))
or_default-accepted e d (pos (suc n)) h = (n, ground (arith, h))
