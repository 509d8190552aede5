-- ===== src/Examples/Rotation.antt =====
-- A store with one route of two keys, a cap of two requests a minute for each key, and five calls.
use llm_cluster_router.Prelude.{ℕ, ◌+◌, ◌≡◌, ◌≤◌, refl, List, [], ◌∷◌, none, some, false, arith}
use llm_cluster_router.Prelude.Int.{pos, negsuc}
use llm_cluster_router.Prelude.Maps.{lookup, adjust}
use llm_cluster_router.Rotation.Types.{
  reason_quota, outcome_completed, UsageSample, Settings, Key, Route,
}
use llm_cluster_router.Rotation.Policy.{round_robin, least_used}
use llm_cluster_router.Rotation.Store.{
  Options, settings_of, new_routes, new_store, settle_lease, acquire,
}
use llm_cluster_router.Rotation.System.{Call, acquires, settles, run, new_system, step}
use llm_cluster_router.Rotation.System.Leases.{slots_in, live}
use llm_cluster_router.Rotation.Key.{
  release, admissible, apply_caps, settle, reclaim_stale, stale_run, selectable_at, at_ratio,
  key_state,
}
use llm_cluster_router.Rotation.Route.{
  new_route, collect, record_sample, roll, advance, reserve, retry_after,
}
use llm_cluster_router.Rotation.Route.Admission.{NoneSelectable, Explains, reserve-Explains}
use llm_cluster_router.Rotation.Route.Waiting.{retry_after_enough}
use llm_cluster_router.Rotation.System.Runs.{reached, run_request_cap, run_slots}

abbrev minute : ℕ
minute = 60_000_000_000

abbrev options : Options
options = record {
  budget = record {
    window = minute;
    tokens = 0;
    requests = 2;
    soft_ratio = record { num = 1; den = 1 };
    estimate_tokens = 0;
  };
  max_retry_after = pos 0;
  lease_timeout = negsuc 0;
}

abbrev answered : UsageSample
answered = record { outcome = outcome_completed; tokens = pos 40; estimated = false }

abbrev calls : List (ℕ × Call)
calls =
    (1, acquires "codex")
    ∷ (2, acquires "codex")
    ∷ (3, settles 0 answered)
    ∷ (4, acquires "codex")
    ∷ (5, settles 0 answered)
    ∷ []

-- The first key after the run: one request settled, and one lease out.
abbrev first_key : Key
first_key = record {
  requests = 1;
  tokens = 40;
  leases = 4 ∷ [];
  orphaned = 0;
  reclaimed = 0;
  errors = 0;
  estimated = false;
  drained = false;
  soft_retired = false;
  retired_until = 0;
  retire_reason = none;
}

abbrev second_key : Key
second_key = record first_key { requests = 0; tokens = 0; leases = 2 ∷ [] }

abbrev route : Route
route = record { keys = first_key ∷ second_key ∷ []; window_start = 0 }

-- The five calls leave the route like this.
route_known :
    lookup "codex" (reached round_robin options 0 0 (("codex", pos 2) ∷ []) calls).store.routes
    ≡ some route
unfolding run new_system new_store new_routes new_route lookup adjust round_robin step acquire
    reserve collect advance roll settings_of selectable_at admissible reclaim_stale stale_run
    key_state settle_lease record_sample settle release apply_caps at_ratio
route_known = refl

run_request_cap_example :
    1 + live "codex" 0 (reached round_robin options 0 0 (("codex", pos 2) ∷ []) calls).leases
    ≤ 2 + 0
run_request_cap_example =
    run_request_cap round_robin options 0 0 (("codex", pos 2) ∷ []) calls "codex" 0 route first_key
      route_known refl (omega arith) (omega arith)

run_slots_example :
    slots_in (reached round_robin options 0 0 (("codex", pos 2) ∷ []) calls).store.routes "codex" 0
    ≡ live "codex" 0 (reached round_robin options 0 0 (("codex", pos 2) ∷ []) calls).leases
run_slots_example = run_slots round_robin options 0 0 (("codex", pos 2) ∷ []) calls "codex" 0

settings : Settings
unfolding settings_of
settings = settings_of options

reserve-Explains_example :
    Explains settings 6 (advance settings 6 route).keys (reserve least_used settings 6 0 0 route).3
reserve-Explains_example = reserve-Explains least_used settings 6 0 0 route

-- Both keys retired, the second for longer.
abbrev parked : Route
parked = record {
  keys =
      record first_key { retired_until = 5_000_000_000; retire_reason = some reason_quota }
      ∷ record second_key { retired_until = 9_000_000_000; retire_reason = some reason_quota }
      ∷ [];
  window_start = 0;
}

retry_after_enough_example :
    ¬ NoneSelectable 6_000_000_000
      (advance settings 6_000_000_000 (retry_after settings 1_000_000_000 parked).0).keys
unfolding settings retry_after advance roll reclaim_stale stale_run selectable_at at_ratio
retry_after_enough_example =
    retry_after_enough settings 1_000_000_000 6_000_000_000 parked {d = 4_000_000_000} (omega arith)
      (record { hard = refl; soft = refl }, (record { hard = refl; soft = refl }, tt)) refl
      (omega arith) (omega arith)
