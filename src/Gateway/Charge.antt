-- ===== src/Gateway/Charge.antt =====
-- What a settled request is charged, what its audit line says of it, and who is let in.
use native.Mathlib.Nat.{div-add-mod, mod-lt}
use text.Mathlib.TextEquality.{eq_iff}
use llm_cluster_router.Prelude.{
  ℕ, zero, suc, ◌+◌, ◌*◌, ◌%◌, ◌≡◌, ◌≢◌, ◌≤◌, ◌<◌, ◌↔◌, ◌⊎◌, inl, inr, refl, ◌∙◌, ap, Bool, true,
  false, leb, if◌then◌else◌, none, some, String, List, arith,
}
use llm_cluster_router.Prelude.Int.{ℤ, pos, negsuc}
use llm_cluster_router.Rotation.Types.{
  SampleOutcome, UsageSample, outcome_completed, outcome_failed, Settings, Key,
}
use llm_cluster_router.Rotation.Key.{release, apply_caps, charge, settle}
use llm_cluster_router.Rotation.Route.{normalise}
use llm_cluster_router.Usage.{result}
use llm_cluster_router.Gateway.{
  auth_token, auth_token_loopback_exempt, check_token, authorize_proxy, chargeable_sample,
  charged_tokens_for, second, retry_after_seconds,
}

apply_caps_same :
    (s : Settings) (k : Key)
    → ((apply_caps s k).0.tokens ≡ k.tokens) × ((apply_caps s k).0.requests ≡ k.requests)
unfolding apply_caps
apply_caps_same s k = ground arith

release_same : (k : Key) → ((release k).tokens ≡ k.tokens) × ((release k).requests ≡ k.requests)
unfolding release
release_same k = ground arith

-- The samples that the usage extractor yields: a count, or `TokensUnknown`.
abbrev pub IsExtracted : UsageSample → Type 0
IsExtracted u =
    (u.outcome ≡ outcome_completed) × (((n : ℕ) × (u.tokens ≡ pos n)) ⊎ (u.tokens ≡ negsuc 0))

pub result-IsExtracted : (tail : List ℕ) → IsExtracted (result tail)
unfolding result
result-IsExtracted tail = ground arith

-- A sample that the gateway settles with.
abbrev sample_of : SampleOutcome → ℤ → Bool → UsageSample
sample_of o t e = record { outcome = o; tokens = t; estimated = e }

-- The charge of a settlement: what the store adds to a key, and whether it counts a request.
abbrev IsCharge : Settings → UsageSample → Key → Type 0
IsCharge s u k =
    (n : ℕ) × (charged_tokens_for (some s.budget) u ≡ pos n)
    × ((settle s (normalise u) k).0.tokens ≡ k.tokens + n)

settle-IsCharge :
    (s : Settings) (o : SampleOutcome) (t : ℤ) (e : Bool) (k : Key)
    → (((n : ℕ) × (t ≡ pos n)) ⊎ (t ≡ negsuc 0))
    → IsCharge s (sample_of o t e) k
unfolding settle normalise charge charged_tokens_for
settle-IsCharge s outcome_failed (pos n) e k h = (0, refl, omega (arith, release_same k))
settle-IsCharge s outcome_failed (negsuc m) e k h = (0, refl, omega (arith, release_same k))
settle-IsCharge s outcome_completed (pos n) e k h = (
  n,
  refl,
  (apply_caps_same s (charge s (pos n) (release k))).0 ∙ ap (λ t. t + n) (release_same k).0,
)
settle-IsCharge s outcome_completed (negsuc zero) e k h = (
  s.budget.estimate_tokens,
  refl,
  (apply_caps_same s (charge s (negsuc 0) (release k))).0
      ∙ ap (λ t. t + s.budget.estimate_tokens) (release_same k).0,
)
settle-IsCharge s outcome_completed (negsuc (suc m)) e k h = absurd (ground arith)

chargeable_sample-extracted :
    (status : ℕ) (u : UsageSample)
    → IsExtracted u
    → (((n : ℕ) × ((chargeable_sample status u).tokens ≡ pos n))
        ⊎ ((chargeable_sample status u).tokens ≡ negsuc 0))
unfolding chargeable_sample
chargeable_sample-extracted status u (o, inl (n, e)) = ground arith
chargeable_sample-extracted status u (o, inr e) = ground arith

failed_charge :
    (s : Settings) (k : Key)
    → let k' = (settle s (normalise (sample_of outcome_failed (pos 0) false)) k).0 in
      (k'.requests ≡ k.requests) × (k'.tokens ≡ k.tokens) × (k'.errors ≡ k.errors + 1)
unfolding settle normalise release
failed_charge s k = ground arith

-- The audit line of an answered request reconciles to the books: the tokens that it reports are the
-- ones that the settlement adds to the key, whatever the status and the body were.
pub settle-audited :
    (s : Settings) (status : ℕ) (tail : List ℕ) (k : Key)
    → (n : ℕ) × (charged_tokens_for (some s.budget) (chargeable_sample status (result tail))
        ≡ pos n)
      × ((settle s (normalise (chargeable_sample status (result tail))) k).0.tokens ≡ k.tokens + n)
settle-audited s status tail k =
    let u = chargeable_sample status (result tail) in
    settle-IsCharge s u.outcome u.tokens u.estimated k
      (chargeable_sample-extracted status (result tail) (result-IsExtracted tail))

-- An upstream error charges its key nothing, whatever the body says: the settlement counts one
-- error, no request and no token.
pub settle-error :
    (s : Settings) (status : ℕ) (tail : List ℕ) (k : Key)
    → 500 ≤ status
    → let k' = (settle s (normalise (chargeable_sample status (result tail))) k).0 in
      (k'.requests ≡ k.requests) × (k'.tokens ≡ k.tokens) × (k'.errors ≡ k.errors + 1)
unfolding chargeable_sample
settle-error s status tail k h =
    let server_error : leb 500 status ≡ true = ground arith in rw server_error (failed_charge s k)

-- In a mode with a token, a gateway whose token is not empty admits exactly the callers who present
-- it, and, where loopback is exempt, the local callers who present none.
pub authorize_proxy-none :
    (exempt : Bool) (proxy_token presented : String) (from_loopback : Bool)
    → proxy_token ≢ ""
    → let mode = if exempt then auth_token_loopback_exempt else auth_token in
      (authorize_proxy mode proxy_token presented from_loopback ≡ none)
      ↔ ((presented ≡ proxy_token) ⊎ ((presented ≡ "") × (exempt ≡ true) × (from_loopback ≡ true)))
unfolding authorize_proxy check_token
authorize_proxy-none true proxy_token presented from_loopback h =
    let facts = eq_iff proxy_token "" in
    let same = eq_iff presented proxy_token in
    let blank = eq_iff presented "" in
    (λ e. ground (arith, facts, same, blank), λ e. ground (arith, facts, same, blank))
authorize_proxy-none false proxy_token presented from_loopback h =
    let facts = eq_iff proxy_token "" in
    let same = eq_iff presented proxy_token in
    let blank = eq_iff presented "" in
    (λ e. ground (arith, facts, same, blank), λ e. ground (arith, facts, same, blank))

-- The seconds of a Retry-After header are at least one and cover the wait, by less than one second
-- where the wait is longer than that.
pub retry_after_seconds-covers :
    (wait : ℕ)
    → (1 ≤ retry_after_seconds wait)
      × (wait ≤ retry_after_seconds wait * second)
      × ((retry_after_seconds wait ≡ 1) ⊎ (retry_after_seconds wait * second < wait + second))
unfolding retry_after_seconds
retry_after_seconds-covers wait =
    let whole = div-add-mod wait second in
    let small : wait % second < second = mod-lt wait (omega arith) in ground (arith, whole, small)
