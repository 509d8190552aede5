-- ===== src/Examples/Overlap.antt =====
-- Two requests for a pool of one key with a cap of one request: the second comes while the first is
-- under way.
use llm_cluster_router.Prelude.{ℕ, ◌≡◌, refl, List, [], ◌∷◌, none, All}
use llm_cluster_router.Prelude.Int.{pos, negsuc}
use llm_cluster_router.Rotation.Types.{Key, Route}
use llm_cluster_router.Rotation.Key.{
  fresh, settle, selectable_at, reclaim_stale, stale_run, admissible, key_state, release,
  apply_caps, at_ratio, charge,
}
use llm_cluster_router.Rotation.Route.{
  normalise, reserve, collect, advance, roll, new_route, record_sample, wait_for,
}
use llm_cluster_router.Prelude.Maps.{lookup, adjust}
use llm_cluster_router.Usage.{result, observe_all}
use llm_cluster_router.VendorError.Parse.{parse_vendor_signal}
use llm_cluster_router.Gateway.{is_quota_status, chargeable_sample}
use llm_cluster_router.Rotation.Policy.{round_robin}
use llm_cluster_router.Rotation.Store.{
  Options, settings_of, new_store, new_routes, reserve_at, acquire, settle_lease, retry_after_at,
}
use llm_cluster_router.Rotation.System.{new_system, step, granted_lease, settle_at}
use llm_cluster_router.Rotation.System.Leases.{slots_in}
use llm_cluster_router.Gateway.Request.{PoolRoute, Forwarded, forward_failed, answered}
use llm_cluster_router.Gateway.Overlap.{finished, overlap}
use llm_cluster_router.Gateway.Overlapped.{overlapped, overlap-no_leak}

abbrev options : Options
options = record {
  budget = record {
    window = 60_000_000_000;
    tokens = 0;
    requests = 1;
    soft_ratio = record { num = 1; den = 1 };
    estimate_tokens = 100;
  };
  max_retry_after = pos 0;
  lease_timeout = negsuc 0;
}

abbrev pool : PoolRoute
pool = record { name = "codex"; keys = "a" ∷ []; budget = none }

abbrev routes : List PoolRoute
routes = pool ∷ pool ∷ []

-- The first is leased, the second refused, and then the first answered.
abbrev schedule : List (ℕ × ℕ × Forwarded)
schedule =
    (10, 0, forward_failed)
    ∷ (11, 1, forward_failed)
    ∷ (12, 1, forward_failed)
    ∷ (13, 0, answered 200 [])
    ∷ (14, 0, forward_failed)
    ∷ (15, 0, forward_failed)
    ∷ []

all_ended :
    All
      (λ h. h ≡ finished)
      (overlapped round_robin options 0 0 (("codex", pos 1) ∷ []) routes schedule).1
unfolding overlap step lookup reserve_at new_system new_store new_routes reserve collect advance
    roll settings_of new_route selectable_at reclaim_stale stale_run admissible round_robin
    key_state acquire granted_lease settle_at settle_lease record_sample settle release apply_caps
    at_ratio parse_vendor_signal result chargeable_sample normalise adjust charge retry_after_at
    is_quota_status observe_all wait_for
all_ended = (refl, (refl, tt))

overlap-no_leak_example :
    slots_in
      (overlapped round_robin options 0 0 (("codex", pos 1) ∷ []) routes schedule).0.store.routes
      "codex"
      0
    ≡ 0
overlap-no_leak_example =
    overlap-no_leak round_robin options 0 0 (("codex", pos 1) ∷ []) routes schedule "codex" 0
      all_ended

-- While the first request is under way.
abbrev half : List (ℕ × ℕ × Forwarded)
half = (10, 0, forward_failed) ∷ (11, 1, forward_failed) ∷ []

abbrev half_key : Key
half_key = record fresh { leases = 10 ∷ [] }

abbrev half_route : Route
half_route = record { keys = half_key ∷ []; window_start = 0 }
