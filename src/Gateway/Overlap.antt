-- ===== src/Gateway/Overlap.antt =====
-- Requests that overlap: handleProxy of internal/channel/server.go, and leaseFor of
-- internal/channel/auth.go, in the steps between which other requests may run. Each step is one
-- critical section of the store, which is the one of Rotation.System; its leases are those that the
-- handlers hold, by their position.
pub mod Leases
pub mod Calls
use llm_cluster_router.Prelude.{
  ℕ, List, [], ◌∷◌, Option, none, some, if◌then◌else◌, ltb, length, get_elem?, modify,
}
use llm_cluster_router.Prelude.Int.{ℤ, pos}
use llm_cluster_router.Rotation.Types.{reason_quota, KeyState}
use llm_cluster_router.Rotation.Route.{Reservation, granted, refused_drained, refused_admission}
use llm_cluster_router.Rotation.Store.{KeyLease, reserve_at}
use llm_cluster_router.Rotation.System.{
  System, Call, acquires, settles, retires as calls_retires, retires_for_window, asks_retry_after,
  step,
}
use llm_cluster_router.VendorError.{VendorSignal, retires, reason}
use llm_cluster_router.VendorError.Parse.{parse_vendor_signal, vendor_retire_until}
use llm_cluster_router.Usage.{observe_all, result}
use llm_cluster_router.Gateway.{chargeable_sample, is_quota_status}
use llm_cluster_router.Gateway.Request.{
  PoolRoute, Forwarded, forward_failed, answered, failed_sample,
}

-- Where the handler of a request stands: before its lease; with a lease of a key that the route does not
-- have; refused; with its request under way; with an answer to charge; about to run the deferred
-- settlement; or at its end.
pub data Handler : Type 0 where
  waiting : PoolRoute → Handler
  unmatched : PoolRoute → ℕ → Handler
  denied : PoolRoute → Reservation → Handler
  forwarding : PoolRoute → ℕ → Handler
  charging : ℕ → ℕ → List (List ℕ) → Handler
  closing : ℕ → Handler
  finished : Handler

-- `leaseFor` behind the answer of the store, for a lease at this position.
unfoldable pub leased_by : PoolRoute → ℕ → Reservation → Handler
leased_by route j (granted i) =
    if ltb i (length route.keys) then forwarding route j else unmatched route j
leased_by route j refused_drained = denied route refused_drained
leased_by route j refused_admission = denied route refused_admission

-- The retirement in `settleLease`, for the lease that is held.
unfoldable pub signal_call : ℕ → PoolRoute → ℕ → Option VendorSignal → KeyLease → Option Call
signal_call now route status (some v) l =
    if retires v
    then some
        (calls_retires route.name (pos l.index) (vendor_retire_until v now 0) (some (reason v)))
    else none
signal_call now route status none l =
    if is_quota_status status
    then some (retires_for_window route.name (pos l.index) (some reason_quota))
    else none

module _ {P : Type 0} (select : P → List KeyState → P × ℤ) where
  unfoldable pub call_if : ℕ → Option Call → System P → System P
  call_if now none y = y
  call_if now (some c) y = step select y (now, c)

  unfoldable pub signal_lease :
      ℕ → PoolRoute → ℕ → List (List ℕ) → Option KeyLease → System P → System P
  unfolding signal_call call_if
  signal_lease now route status chunks none y = y
  signal_lease now route status chunks (some l) y =
      call_if now (signal_call now route status (parse_vendor_signal now (observe_all [] chunks)) l)
        y

  -- One step of a handler. What the upstream answers counts where the request is under way only.
  unfoldable pub handle : Forwarded → ℕ → Handler → System P → System P × Handler
  unfolding leased_by signal_lease
  handle f now (waiting route) y = (
    step select y (now, acquires route.name),
    leased_by route (length y.leases) (reserve_at select now route.name y.store).1,
  )
  handle f now (unmatched route j) y =
      (step select y (now, settles j failed_sample), denied route refused_drained)
  handle f now (denied route refused_admission) y = (y, finished)
  handle f now (denied route refusal) y =
      (step select y (now, asks_retry_after route.name), finished)
  handle forward_failed now (forwarding route j) y =
      (step select y (now, settles j failed_sample), finished)
  handle (answered status chunks) now (forwarding route j) y =
      (signal_lease now route status chunks (get_elem? y.leases j) y, charging j status chunks)
  handle f now (charging j status chunks) y = (
    step select y (now, settles j (chargeable_sample status (result (observe_all [] chunks)))),
    closing j,
  )
  handle f now (closing j) y = (step select y (now, settles j failed_sample), finished)
  handle f now finished y = (y, finished)

  -- One step of the handler at a position, at an instant.
  unfoldable pub overlap_step :
      ℕ × ℕ × Forwarded → System P × List Handler → System P × List Handler
  unfolding handle
  overlap_step (now, i, f) (y, hs) = elim (get_elem? hs i) [
    | none ↦ (y, hs)
    | some h ↦ ((handle f now h y).0, modify hs i (λ _. (handle f now h y).1))
  ]

  -- The handlers of any requests, in any order of their steps.
  unfoldable pub overlap :
      List (ℕ × ℕ × Forwarded) → System P × List Handler → System P × List Handler
  unfolding overlap_step
  overlap [] x = x
  overlap (s ∷ ss) x = overlap ss (overlap_step s x)
