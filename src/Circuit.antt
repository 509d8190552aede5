-- ===== src/Circuit.antt =====
-- The circuit breaker of an upstream node: internal/circuit/breaker.go. Instants and durations are
-- nanoseconds; each method is one critical section at the instant `now`. The three states are the
-- only values that the package assigns.
pub mod Settings
pub mod Streaks
use llm_cluster_router.Prelude.{
  ℕ, ◌+◌, ◌-◌, List, [], ◌∷◌, String, Bool, true, false, leb, if◌then◌else◌,
}
use llm_cluster_router.Prelude.Int.{ℤ, positive_or}
use llm_cluster_router.Prelude.Maps.{◌==◌}

pub data State : Type 0 where
  closed open_ half_open : State

-- `StateGauge` at one node: the values of its three labels.
pub record Gauges : Type 0 where
  pub closed_gauge : ℕ
  pub open_gauge : ℕ
  pub half_open_gauge : ℕ

pub record Breaker : Type 0 where
  pub state : State
  pub failures : ℕ
  pub threshold : ℕ
  pub cooldown : ℕ
  pub opened_at : ℕ
  pub node_name : String
  pub gauges : Gauges

-- 30 seconds.
abbrev pub default_cooldown : ℕ
default_cooldown = 30_000_000_000

-- `NewBreaker`.
unfoldable pub new_breaker : ℤ → ℤ → Gauges → Breaker
new_breaker threshold cooldown g = record {
  state = closed;
  failures = 0;
  threshold = positive_or 5 threshold;
  cooldown = positive_or default_cooldown cooldown;
  opened_at = 0;
  node_name = "";
  gauges = g;
}

-- The loop of `recordState` over the three labels: 1 at the state, 0 at the others.
abbrev pub gauge_of : State → Gauges
gauge_of closed = record { closed_gauge = 1; open_gauge = 0; half_open_gauge = 0 }
gauge_of open_ = record { closed_gauge = 0; open_gauge = 1; half_open_gauge = 0 }
gauge_of half_open = record { closed_gauge = 0; open_gauge = 0; half_open_gauge = 1 }

unfoldable pub record_state : State → Breaker → Breaker
record_state s b = if b.node_name == "" then b else record b { gauges = gauge_of s }

unfoldable pub with_name : String → Breaker → Breaker
unfolding record_state
with_name name b = record_state b.state (record b { node_name = name })

unfoldable pub transition : State → Breaker → Breaker
unfolding record_state
transition next b = record_state next (record b { state = next })

unfoldable pub allow : ℕ → Breaker → Breaker × Bool
unfolding transition
allow now b = elim b.state [
  | closed ↦ (b, true)
  | open_ ↦
      if leb (b.opened_at + b.cooldown) now then (transition half_open b, true) else (b, false)
  | half_open ↦ (b, true)
]

unfoldable pub record_success : Breaker → Breaker
unfolding transition
record_success b = elim b.state [
  | closed ↦ record b { failures = 0 }
  | open_ ↦ transition closed (record b { failures = 0 })
  | half_open ↦ transition closed (record b { failures = 0 })
]

unfoldable pub record_failure : ℕ → Breaker → Breaker
unfolding transition
record_failure now b = elim b.state [
  | half_open ↦ transition open_ (record b { opened_at = now })
  | closed ↦
      if leb b.threshold (b.failures + 1)
      then transition open_ (record b { failures = b.failures + 1; opened_at = now })
      else record b { failures = b.failures + 1 }
  | open_ ↦ b
]

pub record BreakerStats : Type 0 where
  pub state : State
  pub consecutive_failures : ℕ
  pub threshold : ℕ
  pub cooldown_remaining : ℕ
  pub node_name : String

-- `Stats`. A remainder below 0 is reported as 0, which is what `-` yields.
unfoldable pub stats : ℕ → Breaker → BreakerStats
stats now b = record {
  state = b.state;
  consecutive_failures = b.failures;
  threshold = b.threshold;
  cooldown_remaining = elim b.state [
    | open_ ↦ b.opened_at + b.cooldown - now
    | closed ↦ 0
    | half_open ↦ 0
  ];
  node_name = b.node_name;
}

-- A use of the breaker at an instant.
pub data Call : Type 0 where
  allows succeeds fails : Call

unfoldable pub step : Breaker → ℕ × Call → Breaker
unfolding allow record_success record_failure
step b (now, allows) = (allow now b).0
step b (now, succeeds) = record_success b
step b (now, fails) = record_failure now b

unfoldable pub run : Breaker → List (ℕ × Call) → Breaker
unfolding step
run b [] = b
run b (c ∷ cs) = run (step b c) cs
