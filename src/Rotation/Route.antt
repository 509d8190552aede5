-- ===== src/Rotation/Route.antt =====
-- One route of the store: the functions of internal/channel/rotation_store.go that run over all
-- keys of a `routeState`, each as one critical section at the instant `now`.
pub mod Admission
pub mod Invariant
pub mod Slots
pub mod Window
pub mod Waiting
use llm_cluster_router.Prelude.{
  ℕ, zero, suc, ◌+◌, ◌-◌, ◌*◌, ◌/◌, List, [], ◌∷◌, ◌++◌, map, Option, none, some, true, ◌||◌, not,
  ltb, leb, ◌==◌, if◌then◌else◌, length, get_or, modify, replicate,
}
use llm_cluster_router.Prelude.Int.{ℤ, pos, negsuc, in_range}
use llm_cluster_router.Rotation.Types.{
  RetireReason, reason_quota, UsageSample, Settings, Key, Route, KeyState,
}
use llm_cluster_router.Rotation.Key.{
  fresh, reclaim_stale, selectable_at, admissible, settle, retire, roll_key, key_state,
}
use llm_cluster_router.Rotation.Policy.{round_robin}

-- A route of `n` keys, as `NewStore` makes it.
unfoldable pub new_route : ℕ → ℕ → Route
new_route n start = record { keys = replicate n fresh; window_start = start }

-- `rollLocked`.
unfoldable pub roll : Settings → ℕ → Route → Route
roll s now r = if leb w 0 then r else if ltb (now - r.window_start) w then r else record {
  keys = map (roll_key now) r.keys;
  window_start = r.window_start + (now - r.window_start) / w * w;
}
  where
    w : ℕ
    w = s.budget.window

-- `advanceLocked`.
unfoldable pub advance : Settings → ℕ → Route → Route
advance s now r = roll s now (record r { keys = map (reclaim_stale s now) r.keys })

-- The loop of `reserve`: how many keys are selectable, and the states of the admissible ones.
unfoldable pub collect : Settings → ℕ → ℕ → List Key → ℕ × List KeyState
collect s now i [] = (0, [])
collect s now i (k ∷ ks) =
    let (n, states) = collect s now (i + 1) ks in
    if not (selectable_at k now)
    then (n, states)
    else (n + 1, if admissible s k now then key_state now i k ∷ states else states)

-- The reason that an empty one stands for.
abbrev pub reason_or_quota : Option RetireReason → RetireReason
reason_or_quota none = reason_quota
reason_or_quota (some r) = r

-- The result of `reserve`: an index, or -1 with the reason of the refusal.
pub data Reservation : Type 0 where
  granted : ℕ → Reservation
  refused_drained refused_admission : Reservation

-- The position in the candidates that an answer stands for, if it is one.
abbrev pub state_at : KeyState → List KeyState → ℤ → KeyState
state_at x xs (pos i) = get_or (x ∷ xs) i x
state_at x xs (negsuc i) = x

-- `rs.keys[idx].leases = append(rs.keys[idx].leases, now)`.
abbrev pub add_lease : ℕ → ℕ → Route → Route
add_lease now idx r = record r {
  keys = modify r.keys idx (λ k. record k { leases = k.leases ++ now ∷ [] });
}

module _ {P : Type 0} (select : P → List KeyState → P × ℤ) where
  -- The choice among candidates `x ∷ xs`: the policy's, else the round-robin fallback's, else the
  -- first. The policy and the cursor of the fallback are the state that it changes.
  unfoldable pub choose : P → ℕ → KeyState → List KeyState → P × ℕ × KeyState
  choose p c x xs =
      let (p', a) = select p (x ∷ xs) in
      if in_range a (length (x ∷ xs))
      then (p', c, state_at x xs a)
      else let (c', b) = round_robin c (x ∷ xs) in
        (p', c', if in_range b (length (x ∷ xs)) then state_at x xs b else x)

  -- The part of `reserve` behind the loop.
  unfoldable pub reserve_from : ℕ → P → ℕ → Route → ℕ → List KeyState → P × ℕ × Route × Reservation
  unfolding choose
  reserve_from now p c r selectable [] =
      (p, c, r, if ltb 0 selectable then refused_admission else refused_drained)
  reserve_from now p c r selectable (x ∷ xs) =
      let (p', c', k) = choose p c x xs in (p', c', add_lease now k.index r, granted k.index)

  unfoldable pub reserve : Settings → ℕ → P → ℕ → Route → P × ℕ × Route × Reservation
  unfolding reserve_from
  reserve s now p c r =
      let r' = advance s now r in
      let (selectable, states) = collect s now 0 r'.keys in
      reserve_from now p c r' selectable states

-- Run a function that reports retirements on the key at an index.
unfoldable pub on_key :
    ℕ → (Key → Key × List RetireReason) → List Key → List Key × List RetireReason
on_key i f [] = ([], [])
on_key zero f (k ∷ ks) = ((f k).0 ∷ ks, (f k).1)
on_key (suc i) f (k ∷ ks) = let rest = on_key i f ks in (k ∷ rest.0, rest.1)

-- The critical section that `RecordSample`, `RetireWithReason` and `retireForWindow` share: an index
-- out of range changes nothing, not even the window; else the route is advanced, and the key changed
-- by a function of the advanced route.
unfoldable pub with_key :
    Settings → ℕ → ℕ → (Route → Key → Key × List RetireReason) → Route → Route × List RetireReason
unfolding on_key
with_key s now i f r =
    let r' = advance s now r in
    let changed = on_key i (f r') r'.keys in
    if ltb i (length r.keys) then (record r' { keys = changed.0 }, changed.1) else (r, [])

-- The sample that `RecordSample` settles with: any negative count becomes `TokensUnknown`.
unfoldable pub normalise : UsageSample → UsageSample
normalise u = elim u.tokens [
  | pos n ↦ u
  | negsuc _ ↦ record u { tokens = negsuc 0; estimated = true }
]

unfoldable pub record_sample : Settings → ℕ → ℕ → UsageSample → Route → Route × List RetireReason
unfolding normalise with_key
record_sample s now i u r = with_key s now i (λ _. settle s (normalise u)) r

unfoldable pub retire_with_reason :
    Settings → ℕ → ℕ → ℕ → Option RetireReason → Route → Route × List RetireReason
unfolding with_key
retire_with_reason s now i until reason r =
    with_key s now i (λ _. retire now until (reason_or_quota reason)) r

-- `DefaultQuotaCooldown`, five minutes.
abbrev pub default_quota_cooldown : ℕ
default_quota_cooldown = 300_000_000_000

unfoldable pub retire_for_window :
    Settings → ℕ → ℕ → Option RetireReason → Route → Route × List RetireReason
unfolding with_key
retire_for_window s now i reason r =
    with_key s now i
      (λ r'.
        retire now
          (if ltb 0 s.budget.window
            then r'.window_start + s.budget.window
            else now + default_quota_cooldown)
          (reason_or_quota reason))
      r

-- `waitForLocked`.
unfoldable pub wait_for : Settings → ℕ → ℕ → Key → ℕ
wait_for s now start k =
    let w = if ltb now k.retired_until then k.retired_until - now else 0 in
    if k.drained || k.soft_retired
    then if ltb 0 s.budget.window
      then if ltb w (start + s.budget.window - now) then start + s.budget.window - now else w
      else if w == 0
      then s.max_retry_after
      else w
    else w

-- `if w := ...; best < 0 || w < best { best = w }`, with `none` for the negative start.
unfoldable pub better : Option ℕ → ℕ → ℕ
better none w = w
better (some b) w = if ltb w b then w else b

-- The loop of `RetryAfter`: nothing to wait for once a key is selectable, else the least wait.
unfoldable pub least_wait : Settings → ℕ → ℕ → Option ℕ → List Key → Option ℕ
least_wait s now start best [] = best
least_wait s now start best (k ∷ ks) =
    let rest = least_wait s now start (some (better best (wait_for s now start k))) ks in
    if selectable_at k now then none else rest

-- `MinRetryAfter`, one second.
abbrev pub min_retry_after : ℕ
min_retry_after = 1_000_000_000

abbrev pub clamp_wait : Settings → ℕ → ℕ
clamp_wait s best =
    let top = if ltb s.max_retry_after best then s.max_retry_after else best in
    if ltb top min_retry_after then min_retry_after else top

-- `RetryAfter`: `none` is `(0, false)`. It advances a route that has
-- keys.
unfoldable pub retry_after : Settings → ℕ → Route → Route × Option ℕ
unfolding least_wait better wait_for
retry_after s now r =
    let r' = advance s now r in
    if length r.keys == 0 then (r, none) else (
      r',
      elim (least_wait s now r'.window_start none r'.keys) [
        | none ↦ none
        | some b ↦ some (clamp_wait s b)
      ],
    )

unfoldable pub states_from : ℕ → ℕ → List Key → List KeyState
states_from now i [] = []
states_from now i (k ∷ ks) = key_state now i k ∷ states_from now (i + 1) ks

-- `Snapshot` advances the route, and reserves nothing.
unfoldable pub snapshot : Settings → ℕ → Route → Route × List KeyState
unfolding states_from
snapshot s now r = let r' = advance s now r in (r', states_from now 0 r'.keys)
