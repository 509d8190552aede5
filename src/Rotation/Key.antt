-- ===== src/Rotation/Key.antt =====
-- One key of a route: the functions of internal/channel/rotation_store.go that read or change a
-- single `keyState`. A function that reports retirements returns them beside the new key.
pub mod Slots
pub mod Flags
use llm_cluster_router.Prelude.{
  ℕ, zero, suc, ◌+◌, ◌-◌, ◌*◌, List, [], ◌∷◌, ◌++◌, Option, none, some, Bool, true, false, ◌&&◌,
  ◌||◌, not, ltb, leb, ◌==◌, if◌then◌else◌, length, drop,
}
use llm_cluster_router.Prelude.Int.{ℤ, pos, negsuc}
use llm_cluster_router.Rotation.Types.{
  RetireReason, reason_cap, reason_quota, SampleOutcome, outcome_completed, outcome_failed,
  UsageSample, Ratio, Budget, Settings, Key, KeyState,
}

-- The zero `keyState`, as `make([]keyState, n)` fills a route.
abbrev pub fresh : Key
fresh = record {
  requests = 0;
  tokens = 0;
  leases = [];
  orphaned = 0;
  reclaimed = 0;
  errors = 0;
  estimated = false;
  drained = false;
  soft_retired = false;
  retired_until = 0;
  retire_reason = none;
}

abbrev pub in_flight : Key → ℕ
in_flight k = length k.leases

-- `releaseLocked`: an orphan is charged first, then the oldest live reservation.
unfoldable pub release : Key → Key
release k =
    if ltb 0 k.orphaned
    then record k { orphaned = k.orphaned - 1 }
    else record k { leases = drop 1 k.leases }

-- How many leases of the leading run are not after `now - timeout`.
unfoldable pub stale_run : ℕ → ℕ → List ℕ → ℕ
stale_run timeout now [] = 0
stale_run timeout now (t ∷ ts) = if leb (t + timeout) now then suc (stale_run timeout now ts) else 0

unfoldable pub reclaim_stale : Settings → ℕ → Key → Key
reclaim_stale s now k =
    if leb s.lease_timeout 0 || length k.leases == 0
    then k
    else let n = stale_run s.lease_timeout now k.leases in
      if n == 0 then k else record k {
        leases = drop n k.leases;
        orphaned = k.orphaned + n;
        reclaimed = k.reclaimed + n;
      }

unfoldable pub selectable_at : Key → ℕ → Bool
selectable_at k now = not k.drained && not k.soft_retired && not (ltb now k.retired_until)

unfoldable pub reason_at : Key → ℕ → Option RetireReason
reason_at k now =
    if k.drained || k.soft_retired
    then some reason_cap
    else if ltb now k.retired_until
    then elim k.retire_reason [ none ↦ some reason_quota | some r ↦ some r ]
    else none

-- `admissibleLocked`: selectable, and below the hard caps with the leases in flight counted.
unfoldable pub admissible : Settings → Key → ℕ → Bool
unfolding selectable_at
admissible s k now =
    if not (selectable_at k now)
    then false
    else if leb b.window 0
    then true
    else if ltb 0 b.requests && leb b.requests (k.requests + in_flight k)
    then false
    else if ltb 0 b.tokens && leb b.tokens (k.tokens + in_flight k * b.estimate_tokens)
    then false
    else true
  where
    open s use {budget as b}

-- `atRatio`, with the ratio as a fraction.
unfoldable pub at_ratio : ℕ → ℕ → Ratio → Bool
at_ratio used limit r = ltb 0 limit && leb (r.num * limit) (used * r.den)

abbrev pub one : Ratio
one = record { num = 1; den = 1 }

-- `applyCapsLocked`.
unfoldable pub apply_caps : Settings → Key → Key × List RetireReason
apply_caps s k =
    if leb b.window 0 || leb b.requests 0 && leb b.tokens 0
    then (k, [])
    else let hard = at_ratio k.requests b.requests one || at_ratio k.tokens b.tokens one in
      let soft =
        at_ratio k.requests b.requests b.soft_ratio || at_ratio k.tokens b.tokens b.soft_ratio in
      let k' = record k {
        drained = if hard then true else k.drained;
        soft_retired = if hard then true else if soft then true else k.soft_retired;
      } in
      (
        k',
        if (k'.drained || k'.soft_retired) && not (k.drained || k.soft_retired)
            then reason_cap ∷ []
            else [],
      )
  where
    open s use {budget as b}

-- The counters after one completed request. A negative count is charged the estimate.
unfoldable pub charge : Settings → ℤ → Key → Key
charge s (pos n) k = record k { requests = k.requests + 1; tokens = k.tokens + n }
charge s (negsuc n) k = record k {
  requests = k.requests + 1;
  estimated = true;
  tokens = k.tokens + s.budget.estimate_tokens;
}

-- `settleLocked`.
unfoldable pub settle : Settings → UsageSample → Key → Key × List RetireReason
unfolding charge
settle s u k = elim u.outcome [
  | outcome_failed ↦ (record (release k) { errors = (release k).errors + 1 }, [])
  | outcome_completed ↦ apply_caps s (charge s u.tokens (release k))
]

-- `retireLocked`: a retirement only ever extends, and is reported only for a key that was in.
unfoldable pub retire : ℕ → ℕ → RetireReason → Key → Key × List RetireReason
retire now until reason k = if not (ltb now until) then (k, []) else (
  if ltb k.retired_until until
      then record k { retired_until = until; retire_reason = some reason }
      else k,
  if ltb now k.retired_until then [] else reason ∷ [],
)

-- The body of the loop of `rollLocked`: one key enters a new window.
unfoldable pub roll_key : ℕ → Key → Key
roll_key now k =
    let k' = record k {
      requests = 0;
      tokens = 0;
      errors = 0;
      estimated = false;
      drained = false;
      soft_retired = false;
    } in
    if not (ltb now k.retired_until)
    then record k' { retired_until = 0; retire_reason = none }
    else k'

-- `keyStateLocked`, for the key at an index.
unfoldable pub key_state : ℕ → ℕ → Key → KeyState
key_state now i k = record {
  index = i;
  requests = k.requests;
  tokens = k.tokens;
  in_flight = in_flight k;
  reclaimed = k.reclaimed;
  errors = k.errors;
  estimated = k.estimated;
  selectable = selectable_at k now;
  soft_retired = k.soft_retired;
  drained = k.drained;
  retired_until = k.retired_until;
  reason = reason_at k now;
}
