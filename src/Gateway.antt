-- ===== src/Gateway.antt =====
-- The channel gateway: internal/channel/server.go, with the callers' token of
-- internal/channel/proxy_auth.go and the key leases of internal/channel/auth.go. The forward to an
-- upstream is its result; the audit line of a request is part of the answer. A token is a string
-- that is already trimmed, and the constant-time comparison is an equality.
pub mod Charge
pub mod Request
pub mod Runs
pub mod Overlap
pub mod Overlapped
use llm_cluster_router.Prelude.{
  ℕ, zero, ◌+◌, ◌*◌, ◌/◌, ◌%◌, List, [], ◌∷◌, Option, none, some, String, Bool, true, false, ◌&&◌,
  ltb, leb, ◌==◌ as eq_nat, if◌then◌else◌,
}
use llm_cluster_router.Prelude.Int.{ℤ, pos, negsuc}
use llm_cluster_router.Prelude.Maps.{◌==◌}
use llm_cluster_router.Rotation.Types.{
  UsageSample, outcome_completed, outcome_failed, Budget, KeyState,
}
use llm_cluster_router.Rotation.Route.{
  Reservation, granted, refused_drained, refused_admission, min_retry_after,
}

pub data ProxyAuthMode : Type 0 where
  auth_token auth_token_loopback_exempt auth_loopback_only auth_open : ProxyAuthMode

pub data ProxyAuthRefusal : Type 0 where
  token_required token_invalid : ProxyAuthRefusal

-- `GatewayAuthConfig.Mode`, from whether a token source is named, whether loopback is exempted, and
-- whether an unauthenticated gateway is allowed.
unfoldable pub auth_mode : Bool → Bool → Bool → ProxyAuthMode
auth_mode has_token exempts_loopback allow_unauthenticated =
    if has_token && exempts_loopback
    then auth_token_loopback_exempt
    else if has_token
    then auth_token
    else if allow_unauthenticated
    then auth_open
    else auth_loopback_only

-- `authorizeProxy` behind its first test: `none` admits the caller.
unfoldable pub check_token : ProxyAuthMode → String → String → Bool → Option ProxyAuthRefusal
check_token mode proxy_token presented from_loopback =
    if presented == ""
    then elim mode [
      | auth_token_loopback_exempt ↦ if from_loopback then none else some token_required
      | _ ↦ some token_required
    ]
    else if proxy_token == ""
    then some token_invalid
    else if presented == proxy_token
    then none
    else some token_invalid

-- `authorizeProxy`.
unfoldable pub authorize_proxy : ProxyAuthMode → String → String → Bool → Option ProxyAuthRefusal
unfolding check_token
authorize_proxy mode proxy_token presented from_loopback = elim mode [
  | auth_open ↦ none
  | auth_loopback_only ↦ none
  | auth_token ↦ check_token auth_token proxy_token presented from_loopback
  | auth_token_loopback_exempt ↦
      check_token auth_token_loopback_exempt proxy_token presented from_loopback
]

-- `chargeableSample`.
unfoldable pub chargeable_sample : ℕ → UsageSample → UsageSample
chargeable_sample status sample =
    if leb 500 status
    then record { outcome = outcome_failed; tokens = pos 0; estimated = false }
    else if leb 300 status
    then elim sample.tokens [
      | negsuc zero ↦ record { outcome = outcome_completed; tokens = pos 0; estimated = false }
      | _ ↦ sample
    ]
    else sample

-- `chargedTokensFor`; a route without a rotation block has no budget.
unfoldable pub charged_tokens_for : Option Budget → UsageSample → ℤ
charged_tokens_for budget sample = elim sample.outcome [
  | outcome_failed ↦ pos 0
  | outcome_completed ↦ elim sample.tokens [
    | negsuc zero ↦ elim budget [ none ↦ pos 0 | some b ↦ pos b.estimate_tokens ]
    | t ↦ t
  ]
]

-- `isQuotaStatus`.
unfoldable pub is_quota_status : ℕ → Bool
is_quota_status status = if eq_nat status 429 then true else eq_nat status 402

-- The codes of a refusal before any upstream is contacted.
pub data RefusalCode : Type 0 where
  keys_exhausted admission_limited : RefusalCode

-- `refusalAnswerFor`, with the wait that the route's store names for a drained pool.
unfoldable pub refusal_answer_for : Reservation → ℕ → RefusalCode × ℕ
refusal_answer_for refused_admission wait = (admission_limited, min_retry_after)
refusal_answer_for refused_drained wait = (keys_exhausted, wait)
refusal_answer_for (granted i) wait = (keys_exhausted, wait)

-- The seconds that `writeUnavailable` writes: rounded up, and at least one.
abbrev pub second : ℕ
second = 1_000_000_000

unfoldable pub retry_after_seconds : ℕ → ℕ
retry_after_seconds wait =
    let whole = wait / second in
    let secs = if eq_nat (wait % second) 0 then whole else whole + 1 in
    if ltb secs 1 then 1 else secs

-- `KeyInventory` of a pooled route.
pub record KeyInventory : Type 0 where
  pub keys : ℕ
  pub available : ℕ
  pub degraded : Bool

unfoldable pub count_selectable : List KeyState → ℕ
count_selectable [] = 0
count_selectable (k ∷ ks) = (if k.selectable then 1 else 0) + count_selectable ks

-- `rotatingInjector.inventory`, from the number of keys and the snapshot of the store.
unfoldable pub inventory : ℕ → List KeyState → KeyInventory
unfolding count_selectable
inventory keys states = record {
  keys = keys;
  available = count_selectable states;
  degraded = eq_nat (count_selectable states) 0;
}
