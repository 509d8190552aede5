-- ===== src/Gateway/Overlap/Calls.antt =====
-- The calls of the store that a handler makes, and how many steps it has left.
use llm_cluster_router.Prelude.{
  ℕ, ◌≡◌, ◌≤◌, refl, List, [], ◌∷◌, Option, none, some, ltb, length, get_elem?, ◌-◌, Bool-cases,
  inl, inr, arith,
}
use llm_cluster_router.Prelude.Int.{ℤ}
use llm_cluster_router.Rotation.Types.{KeyState}
use llm_cluster_router.Rotation.Route.{Reservation, granted, refused_drained, refused_admission}
use llm_cluster_router.Rotation.Store.{KeyLease, reserve_at}
use llm_cluster_router.Rotation.System.{System, Call, step, run}
use llm_cluster_router.VendorError.Parse.{parse_vendor_signal}
use llm_cluster_router.Usage.{observe_all}
use llm_cluster_router.Gateway.Request.{PoolRoute, Forwarded, forward_failed, answered}
use llm_cluster_router.Gateway.Overlap.{
  Handler, waiting, unmatched, denied, forwarding, charging, closing, finished, leased_by,
  signal_call, call_if, signal_lease, handle,
}

module _ {P : Type 0} (select : P → List KeyState → P × ℤ) where
  -- The calls of the store that a handler makes.
  abbrev pub Calls : System P → System P → Type 0
  Calls y y' = (cs : List (ℕ × Call)) × (run select y cs ≡ y')

  one_call : (y : System P) (c : ℕ × Call) → Calls y (step select y c)
  unfolding run
  one_call y c = (c ∷ [], refl)

  pub no_call : (y : System P) → Calls y y
  unfolding run
  no_call y = ([], refl)

  signal-Calls :
      (now : ℕ) (route : PoolRoute) (status : ℕ) (chunks : List (List ℕ)) (o : Option KeyLease)
      (y : System P)
      → Calls y (signal_lease select now route status chunks o y)
  unfolding signal_lease call_if
  signal-Calls now route status chunks none y = no_call y
  signal-Calls now route status chunks (some l) y =
      go (signal_call now route status (parse_vendor_signal now (observe_all [] chunks)) l)
    where
      go : (o : Option Call) → Calls y (call_if select now o y)
      go none = no_call y
      go (some c) = one_call y (now, c)

  pub handle-Calls :
      (f : Forwarded) (now : ℕ) (h : Handler) (y : System P) → Calls y (handle select f now h y).0
  unfolding handle
  handle-Calls f now (waiting route) y = one_call y _
  handle-Calls f now (unmatched route j) y = one_call y _
  handle-Calls f now (denied route refused_admission) y = no_call y
  handle-Calls f now (denied route refused_drained) y = one_call y _
  handle-Calls f now (denied route (granted i)) y = one_call y _
  handle-Calls forward_failed now (forwarding route j) y = one_call y _
  handle-Calls (answered status chunks) now (forwarding route j) y =
      signal-Calls now route status chunks (get_elem? y.leases j) y
  handle-Calls f now (charging j status chunks) y = one_call y _
  handle-Calls f now (closing j) y = one_call y _
  handle-Calls f now finished y = no_call y

  -- The steps that a handler has left at most.
  abbrev rank : Handler → ℕ
  rank (waiting route) = 4
  rank (unmatched route j) = 2
  rank (denied route r) = 1
  rank (forwarding route j) = 3
  rank (charging j status chunks) = 2
  rank (closing j) = 1
  rank finished = 0

  -- A handler comes closer to its end by each of its steps, of which it has four at most.
  handle-rank :
      (f : Forwarded) (now : ℕ) (h : Handler) (y : System P)
      → rank (handle select f now h y).1 ≤ rank h - 1
  unfolding handle leased_by
  handle-rank f now (waiting route) y = go (reserve_at select now route.name y.store).1
    where
      go : (a : Reservation) → rank (leased_by route (length y.leases) a) ≤ 3
      go (granted i) = elim (Bool-cases (ltb i (length route.keys))) [
        | inl e ↦ rw (e, leased_by) (omega arith)
        | inr e ↦ rw (e, leased_by) (omega arith)
      ]
      go refused_drained = omega arith
      go refused_admission = omega arith
  handle-rank f now (unmatched route j) y = omega arith
  handle-rank f now (denied route refused_admission) y = omega arith
  handle-rank f now (denied route refused_drained) y = omega arith
  handle-rank f now (denied route (granted i)) y = omega arith
  handle-rank forward_failed now (forwarding route j) y = omega arith
  handle-rank (answered status chunks) now (forwarding route j) y = omega arith
  handle-rank f now (charging j status chunks) y = omega arith
  handle-rank f now (closing j) y = omega arith
  handle-rank f now finished y = omega arith
