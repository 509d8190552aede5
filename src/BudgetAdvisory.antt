-- ===== src/BudgetAdvisory.antt =====
-- The warning about token budgets: internal/channel/budget_advisory.go. Its number of concurrent
-- leases is compared with what the store of the rotation admits.
use native.Mathlib.Nat.{div-add-mod, mod-lt, mul-le-mul_left}
use llm_cluster_router.Prelude.{
  ℕ, ◌+◌, ◌-◌, ◌*◌, ◌/◌, ◌%◌, ◌≡◌, ◌↔◌, ◌≤◌, ◌<◌, String, Bool, true, ltb, leb, if◌then◌else◌, List,
  [], ◌∷◌, Option, none, some, Bool-cases, inl, inr, arith,
}
use llm_cluster_router.Rotation.Types.{Budget, Settings, Key}
use llm_cluster_router.Rotation.Key.{in_flight, selectable_at, admissible}

pub record BudgetAdvisory : Type 0 where
  pub route : String
  pub enabled : Bool
  pub tokens : ℕ
  pub estimate_tokens : ℕ
  pub window : ℕ

-- `ConcurrentLeases`.
unfoldable pub concurrent_leases : BudgetAdvisory → ℕ
concurrent_leases a =
    if leb a.estimate_tokens 0 then 0 else (a.tokens + a.estimate_tokens - 1) / a.estimate_tokens

-- A route of the configuration, as far as the advisory reads it: no budget without a rotation block.
pub record RouteConfig : Type 0 where
  pub name : String
  pub is_enabled : Bool
  pub budget : Option Budget

-- The advisory of a route with this budget.
abbrev pub advisory_of : RouteConfig → Budget → BudgetAdvisory
advisory_of r b = record {
  route = r.name;
  enabled = r.is_enabled;
  tokens = b.tokens;
  estimate_tokens = b.estimate_tokens;
  window = b.window;
}

-- `TokenBudgetAdvisories`.
unfoldable pub token_budget_advisories : List RouteConfig → List BudgetAdvisory
token_budget_advisories [] = []
token_budget_advisories (r ∷ rs) =
    let rest = token_budget_advisories rs in
    elim r.budget [ none ↦ rest | some b ↦ if leb b.tokens 0 then rest else advisory_of r b ∷ rest ]

-- A ceiling of a quotient counts the multiples below the dividend.
ceil_iff : (n t e : ℕ) → 0 < e → (n * e < t) ↔ (n < (t + e - 1) / e)
ceil_iff n t e h =
    let q = (t + e - 1) / e in
    let r = (t + e - 1) % e in
    let whole : e * q + r ≡ t + e - 1 = div-add-mod (t + e - 1) e in
    let small : r < e = mod-lt (t + e - 1) h in
    let turned : n * e ≡ e * n = grind arith in
    let next : e * (n + 1) ≡ e * n + e = grind arith in
    (
      λ lt. elim (Bool-cases (ltb n q)) [
        | inl below ↦ ground (arith, below)
        | inr above ↦
            let more : e * q ≤ e * n = mul-le-mul_left e (ground (arith, above)) in
            absurd (omega (arith, lt, whole, small, turned, more))
      ],
      λ lt.
          let more : e * (n + 1) ≤ e * q = mul-le-mul_left e (omega (arith, lt)) in
          omega (arith, whole, small, turned, next, more),
    )

-- The advisory's number is what admission grants: a key that is selectable and has been charged no
-- token, on a route that budgets by tokens only, takes one more lease exactly while fewer than that
-- many are in flight.
pub concurrent_leases-admissible :
    (s : Settings) (r : RouteConfig) (k : Key) (now : ℕ)
    → 0 < s.budget.window
    → 0 < s.budget.tokens
    → 0 < s.budget.estimate_tokens
    → s.budget.requests ≡ 0
    → k.tokens ≡ 0
    → selectable_at k now ≡ true
    → (admissible s k now ≡ true) ↔ (in_flight k < concurrent_leases (advisory_of r s.budget))
unfolding admissible concurrent_leases
concurrent_leases-admissible s r k now w t e q fresh on =
    let (there, back) = ceil_iff (in_flight k) s.budget.tokens s.budget.estimate_tokens e in
    (λ h. ground (arith, there), λ h. ground (arith, back))
