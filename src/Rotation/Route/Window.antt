-- ===== src/Rotation/Route/Window.antt =====
-- The tumbling window of a route.
use native.Mathlib.Nat.{div-eq_of_lt}
use llm_cluster_router.Prelude.{
  ℕ, ◌+◌, ◌-◌, ◌*◌, ◌/◌, ◌≡◌, ◌≤◌, ◌<◌, ltb, ltb→lt, Bool-cases, inl, inr, arith,
}
use llm_cluster_router.Rotation.Types.{Settings, Route}
use llm_cluster_router.Rotation.Route.{roll, advance}

-- The start of the window after any gap since the last call.
advance_start :
    (s : Settings) (now : ℕ) (r : Route)
    → 0 < s.budget.window
    → (advance s now r).window_start
      ≡ r.window_start + (now - r.window_start) / s.budget.window * s.budget.window
unfolding advance roll
advance_start s now r w = elim (Bool-cases (ltb (now - r.window_start) s.budget.window)) [
  | inl e ↦
      let q : (now - r.window_start) / s.budget.window ≡ 0 = div-eq_of_lt (ltb→lt _ _ e) in
      ground (arith, q)
  | inr e ↦ ground arith
]

-- Whatever the gap since the last call, advancing a route puts `now` inside its window, and moves
-- the window by whole periods.
pub advance_window :
    (s : Settings) (now : ℕ) (r : Route)
    → 0 < s.budget.window
    → r.window_start ≤ now
    → ((advance s now r).window_start ≤ now)
      × (now < (advance s now r).window_start + s.budget.window)
      × ((m : ℕ) × ((advance s now r).window_start ≡ r.window_start + m * s.budget.window))
advance_window s now r w h = (
  grind (arith, advance_start s now r w),
  grind (arith, advance_start s now r w),
  ((now - r.window_start) / s.budget.window, advance_start s now r w),
)
