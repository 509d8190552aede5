-- ===== src/Connect/Admitted.antt =====
-- Which CONNECT requests get a tunnel.
use llm_cluster_router.Prelude.{ℕ, ◌≡◌, ◌≢◌, ◌⊎◌, Option, none, some, false}
use llm_cluster_router.Connect.Address.{
  ListenScope, scope_loopback_only, is_loopback, is_unspecified,
}

-- Of the two ends of a connection that a tunnel runs over: behind a listener that only the host itself
-- reaches nothing, or else the other end is no loopback and no unspecified address, nor the one from
-- which the gateway dialled.
abbrev pub IsOutside : ListenScope → Option (Option ℕ × Option ℕ) → Type 0
IsOutside scope none = ⊥
IsOutside scope (some (local, none)) = Unit
IsOutside scope (some (local, some rip)) =
    (scope ≡ scope_loopback_only)
    ⊎ ((is_loopback rip ≡ false) × (is_unspecified rip ≡ false) × (local ≢ some rip))
