-- ===== src/Examples/Gateway.antt =====
-- A gateway with one pool of two keys, and three requests: one that is answered, one whose upstream
-- cannot be reached and one that the vendor refuses.
use llm_cluster_router.Prelude.{ℕ, ◌+◌, ◌≡◌, List, [], ◌∷◌, some, String, true, All, arith}
use llm_cluster_router.Prelude.Int.{pos, negsuc}
use llm_cluster_router.Rotation.Types.{Budget}
use llm_cluster_router.Rotation.Key.{fresh, settle}
use llm_cluster_router.Rotation.Route.{normalise}
use llm_cluster_router.Rotation.Policy.{round_robin}
use llm_cluster_router.Rotation.Store.{Store, KeyLease, Options, settings_of, new_store}
use llm_cluster_router.Rotation.System.{Call, run}
use llm_cluster_router.Usage.{result}
use llm_cluster_router.Gateway.{chargeable_sample, charged_tokens_for}
use llm_cluster_router.Gateway.Charge.{settle-audited, settle-error}
use llm_cluster_router.Gateway.Request.{
  PoolRoute, Times, Forwarded, forward_failed, answered, serve,
}
use llm_cluster_router.Gateway.Runs.{system, serve-refines}

abbrev budget : Budget
budget = record {
  window = 60_000_000_000;
  tokens = 0;
  requests = 2;
  soft_ratio = record { num = 1; den = 1 };
  estimate_tokens = 100;
}

abbrev options : Options
options = record { budget = budget; max_retry_after = pos 0; lease_timeout = negsuc 0 }

abbrev pool : PoolRoute
pool = record { name = "codex"; keys = "a" ∷ "b" ∷ []; budget = some budget }

abbrev at : ℕ → Times
at t = record { reserved = t; signalled = t + 5; settled = t + 9 }

abbrev requests : List (PoolRoute × Times × Forwarded)
requests =
    (pool, at 10, answered 200 ((123 ∷ 125 ∷ []) ∷ []))
    ∷ (pool, at 30, forward_failed)
    ∷ (pool, at 50, answered 429 [])
    ∷ []

abbrev store : Store ℕ
store = new_store options 0 0 (("codex", pos 2) ∷ [])

serve-refines_example :
    (cs : List (ℕ × Call)) × (ls : List KeyLease) × (run round_robin
        (system round_robin store [])
        cs
      ≡ system round_robin (serve round_robin (at 10) pool forward_failed store).0 ls)
    × All (λ l. l.once ≡ true) ls
serve-refines_example = serve-refines round_robin (at 10) pool forward_failed store

settle-audited_example :
    let s = settings_of options in
    let u = chargeable_sample 200 (result (123 ∷ 125 ∷ [])) in
    (n : ℕ) × (charged_tokens_for (some s.budget) u ≡ pos n)
    × ((settle s (normalise u) fresh).0.tokens ≡ fresh.tokens + n)
settle-audited_example = settle-audited (settings_of options) 200 (123 ∷ 125 ∷ []) fresh

settle-error_example :
    let u = chargeable_sample 502 (result (123 ∷ 125 ∷ [])) in
    let k = (settle (settings_of options) (normalise u) fresh).0 in
    (k.requests ≡ 0) × (k.tokens ≡ 0) × (k.errors ≡ 0 + 1)
settle-error_example = settle-error (settings_of options) 502 (123 ∷ 125 ∷ []) fresh (omega arith)

abbrev no_token : String
no_token = ""
