-- ===== src/Examples/Secrets.antt =====
-- An environment with one variable, and no file and no vault.
use llm_cluster_router.Prelude.{
  ℕ, ◌≡◌, refl, List, [], ◌∷◌, Option, none, some, true, false, not, All, map, if◌then◌else◌,
}
use llm_cluster_router.Prelude.Int.{pos}
use llm_cluster_router.Prelude.Bytes.{codes, bytes_eq}
use llm_cluster_router.Config.Route.{RouteConfig, auth_inject}
use llm_cluster_router.Config.Secret.{is_secret_ref}
use llm_cluster_router.Secrets.{Resolution, resolved, shown, redacted, safe_ref}
use llm_cluster_router.Secrets.Providers.{World, read_absent, op_not_found, default_providers}
use llm_cluster_router.Secrets.Resolver.{cached, resolve}
use llm_cluster_router.Secrets.Runs.{run, default_call, UsableAnswer, run-UsableAnswer}
use llm_cluster_router.Secrets.Sticky.{run-sticky}
use llm_cluster_router.Secrets.Malformed.{is_malformed, resolve-malformed}
use llm_cluster_router.Secrets.Pool.{pool_of, resolve_key_pool}
use llm_cluster_router.Secrets.Slots.{IsPool, resolve_key_pool-IsPool}

abbrev lookup_env : List ℕ → Option (List ℕ)
lookup_env name =
    if bytes_eq name (codes "A")
    then some (codes " first\n")
    else if bytes_eq name (codes "B")
    then some (codes "second")
    else none

abbrev world : World
world = record {
  lookup_env = lookup_env;
  read_file = λ path. read_absent;
  file_mode = λ path. none;
  run_op = λ ref. op_not_found;
}

-- The same, with nothing in the environment.
abbrev empty_world : World
empty_world = record {
  lookup_env = λ name. none;
  read_file = λ path. read_absent;
  file_mode = λ path. none;
  run_op = λ ref. op_not_found;
}

run-UsableAnswer_example :
    All UsableAnswer
      (run
        (map default_call ((world, false, codes "env:A") ∷ (empty_world, true, codes "env:A") ∷ []))
        []).1
run-UsableAnswer_example =
    run-UsableAnswer ((world, false, codes "env:A") ∷ (empty_world, true, codes "env:A") ∷ [])

abbrev first_answer : Resolution
first_answer = (resolve (default_providers world) [] (codes "env:A")).1

resolves_first : first_answer ≡ resolved (codes "first")
unfolding resolve default_providers cached
resolves_first = refl

run-sticky_example :
    (resolve
      (default_providers empty_world)
      (run [] (resolve (default_providers world) [] (codes "env:A")).0).0
      (codes "env:A")).1
    ≡ resolved (codes "first")
run-sticky_example =
    run-sticky (default_providers world) (default_providers empty_world) [] (codes "env:A") []
      resolves_first

resolve-malformed_example :
    is_malformed (resolve (default_providers world) [] (codes "op://vault/item")).1
    ≡ not (is_secret_ref (codes "op://vault/item"))
resolve-malformed_example = resolve-malformed world (codes "op://vault/item") refl

abbrev pooled : RouteConfig
pooled = record {
  enabled = true;
  name = codes "pool";
  prefix = codes "/pool/";
  upstream = codes "https://a";
  auth = auth_inject;
  timeout = pos 1;
  key_env = [];
  key_file = [];
  key_ref = [];
  key_envs = some (codes "A" ∷ codes "B" ∷ []);
  key_files = none;
  key_refs = none;
  key_header = [];
  key_prefix = [];
  rotation = none;
}

-- A provider with no cache.
abbrev ask : Unit {0} → List ℕ → Unit {0} × Resolution
ask s ref = (tt, (resolve (default_providers world) [] ref).1)

resolves_pool : (resolve_key_pool ask tt pooled).1 ≡ pool_of (codes "first" ∷ codes "second" ∷ [])
unfolding resolve_key_pool resolve default_providers cached
resolves_pool = refl

resolve_key_pool-IsPool_example : IsPool ask tt pooled (codes "first" ∷ codes "second" ∷ [])
resolve_key_pool-IsPool_example =
    resolve_key_pool-IsPool ask tt pooled (codes "first" ∷ codes "second" ∷ []) resolves_pool

-- A key that was pasted in place of a reference is not shown.
redacts_key : safe_ref (codes "sk-secret") ≡ redacted 9
unfolding safe_ref
redacts_key = refl

shows_reference : safe_ref (codes "env:A") ≡ shown (codes "env:A")
unfolding safe_ref
shows_reference = refl
