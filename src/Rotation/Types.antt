-- ===== src/Rotation/Types.antt =====
-- The data of internal/channel/rotation_store.go and internal/channel/rotation.go.
-- Instants are nanoseconds since Go's zero time, so the zero `time.Time` is 0; durations are
-- nanoseconds. The int64 counters are unbounded numbers. A float64 ratio is a fraction, and tests
-- with it are exact.
use llm_cluster_router.Prelude.{ℕ, List, Option, Bool}
use llm_cluster_router.Prelude.Int.{ℤ}

-- The empty reason of the source is `none` of an `Option RetireReason`.
pub data RetireReason : Type 0 where
  reason_cap reason_quota reason_error reason_rate_limit reason_balance : RetireReason

pub data SampleOutcome : Type 0 where
  outcome_completed outcome_failed : SampleOutcome

-- A negative token count is `TokensUnknown`, once `RecordSample` has normalised it.
pub record UsageSample : Type 0 where
  pub outcome : SampleOutcome
  pub tokens : ℤ
  pub estimated : Bool

pub record Ratio : Type 0 where
  pub num : ℕ
  pub den : ℕ

-- A cap that is not positive is no cap, so a negative one is read as 0.
pub record Budget : Type 0 where
  pub window : ℕ
  pub tokens : ℕ
  pub requests : ℕ
  pub soft_ratio : Ratio
  pub estimate_tokens : ℕ

-- The options of a store that no operation changes.
pub record Settings : Type 0 where
  pub budget : Budget
  pub max_retry_after : ℕ
  pub lease_timeout : ℕ

-- `keyState`: the mutable record of one key. `leases` holds the instants of the outstanding
-- reservations, oldest first.
pub record Key : Type 0 where
  pub requests : ℕ
  pub tokens : ℕ
  pub leases : List ℕ
  pub orphaned : ℕ
  pub reclaimed : ℕ
  pub errors : ℕ
  pub estimated : Bool
  pub drained : Bool
  pub soft_retired : Bool
  pub retired_until : ℕ
  pub retire_reason : Option RetireReason

-- `routeState`.
pub record Route : Type 0 where
  pub keys : List Key
  pub window_start : ℕ

-- `KeyState`: the snapshot of one key that policies and `/healthz` see.
pub record KeyState : Type 0 where
  pub index : ℕ
  pub requests : ℕ
  pub tokens : ℕ
  pub in_flight : ℕ
  pub errors : ℕ
  pub reclaimed : ℕ
  pub estimated : Bool
  pub selectable : Bool
  pub soft_retired : Bool
  pub drained : Bool
  pub retired_until : ℕ
  pub reason : Option RetireReason
