-- ===== src/Rotation/Store.antt =====
-- The store of internal/channel/rotation_store.go: its routes by name, its policy and its lock. Each
-- operation is one critical section; the retirements that it emits to the observer are returned.
use llm_cluster_router.Prelude.{
  ℕ, zero, suc, List, [], ◌∷◌, Option, none, some, String, Bool, true, false, ltb, leb,
  if◌then◌else◌, ◌||◌,
}
use llm_cluster_router.Prelude.Int.{ℤ, pos, negsuc, positive_or}
use llm_cluster_router.Prelude.Maps.{lookup, adjust}
use llm_cluster_router.Rotation.Types.{
  RetireReason, UsageSample, reason_quota, outcome_completed, Ratio, Budget, Settings, Route,
  KeyState,
}
use llm_cluster_router.Rotation.Route.{
  new_route, Reservation, granted, refused_drained, refused_admission, reserve, record_sample,
  retire_with_reason, retire_for_window, retry_after, snapshot,
}

pub record Store (P : Type 0) : Type 0 where
  pub settings : Settings
  pub routes : List (String × Route)
  pub policy : P
  pub fallback : ℕ

-- What the options of `NewStore` leave in the store before its defaults are applied. Where no
-- option sets it, `max_retry_after` is one hour and `lease_timeout` is 0.
pub record Options : Type 0 where
  pub budget : Budget
  pub max_retry_after : ℤ
  pub lease_timeout : ℤ

-- `DefaultSoftRatio`, 0.8.
abbrev pub default_soft_ratio : Ratio
default_soft_ratio = record { num = 4; den = 5 }

-- One hour, and thirty minutes.
abbrev pub default_max_retry_after : ℕ
default_max_retry_after = 3_600_000_000_000

abbrev pub default_lease_timeout : ℕ
default_lease_timeout = 1_800_000_000_000

unfoldable pub settings_of : Options → Settings
settings_of o = record {
  budget = record b {
    soft_ratio =
        if leb b.soft_ratio.num 0 || ltb b.soft_ratio.den b.soft_ratio.num
        then default_soft_ratio
        else b.soft_ratio;
  };
  max_retry_after = positive_or default_max_retry_after o.max_retry_after;
  lease_timeout = positive_or default_lease_timeout o.lease_timeout;
}
  where
    open o use {budget as b}

-- The loop of `NewStore` over the key counts: a route without keys is not entered.
unfoldable pub new_routes : ℕ → List (String × ℤ) → List (String × Route)
new_routes start [] = []
new_routes start ((name, n) ∷ rest) = elim n [
  | pos zero ↦ new_routes start rest
  | pos (suc m) ↦ (name, new_route (suc m) start) ∷ new_routes start rest
  | negsuc _ ↦ new_routes start rest
]

unfoldable pub new_store : {P : Type 0} → Options → P → ℕ → List (String × ℤ) → Store P
new_store o policy start keys = record {
  settings = settings_of o;
  routes = new_routes start keys;
  policy = policy;
  fallback = 0;
}

-- A key lease: `once` is the flag of its `sync.Once`.
pub record KeyLease : Type 0 where
  pub route : String
  pub index : ℕ
  pub once : Bool

module _ {P : Type 0} where
  -- `s.routes[route]` under the lock; a name that is missing changes nothing.
  unfoldable pub on_route :
      String → (Route → Route × List RetireReason) → Store P → Store P × List RetireReason
  on_route name f st = elim (lookup name st.routes) [
    | none ↦ (st, [])
    | some r ↦ (record st { routes = adjust name (λ _. (f r).0) st.routes }, (f r).1)
  ]

  -- The same at an index: a negative one is out of range.
  unfoldable pub on_index :
      String → ℤ → (ℕ → Route → Route × List RetireReason) → Store P → Store P × List RetireReason
  unfolding on_route
  on_index name (pos i) f st = on_route name (f i) st
  on_index name (negsuc _) f st = (st, [])

  unfoldable pub record_sample_at :
      ℕ → String → ℤ → UsageSample → Store P → Store P × List RetireReason
  unfolding on_index
  record_sample_at now name idx u st = on_index name idx (λ i. record_sample st.settings now i u) st

  unfoldable pub record_usage : ℕ → String → ℤ → ℤ → Store P → Store P × List RetireReason
  unfolding record_sample_at
  record_usage now name idx tokens st =
      record_sample_at now name idx
        (record { outcome = outcome_completed; tokens = tokens; estimated = false }) st

  unfoldable pub retire_with_reason_at :
      ℕ → String → ℤ → ℕ → Option RetireReason → Store P → Store P × List RetireReason
  unfolding on_index
  retire_with_reason_at now name idx until reason st =
      on_index name idx (λ i. retire_with_reason st.settings now i until reason) st

  unfoldable pub retire_at : ℕ → String → ℤ → ℕ → Store P → Store P × List RetireReason
  unfolding retire_with_reason_at
  retire_at now name idx until st = retire_with_reason_at now name idx until (some reason_quota) st

  unfoldable pub retire_for_window_at :
      ℕ → String → ℤ → Option RetireReason → Store P → Store P × List RetireReason
  unfolding on_index
  retire_for_window_at now name idx reason st =
      on_index name idx (λ i. retire_for_window st.settings now i reason) st

  unfoldable pub retry_after_at : ℕ → String → Store P → Store P × Option ℕ
  retry_after_at now name st = elim (lookup name st.routes) [
    | none ↦ (st, none)
    | some r ↦
        let (r', wait) = retry_after st.settings now r in
        (record st { routes = adjust name (λ _. r') st.routes }, wait)
  ]

  unfoldable pub snapshot_at : ℕ → String → Store P → Store P × List KeyState
  snapshot_at now name st = elim (lookup name st.routes) [
    | none ↦ (st, [])
    | some r ↦
        let (r', states) = snapshot st.settings now r in
        (record st { routes = adjust name (λ _. r') st.routes }, states)
  ]

  -- `KeyLease.Settle`: the first call records the sample, and later ones do nothing.
  unfoldable pub settle_lease :
      ℕ → UsageSample → KeyLease → Store P → Store P × KeyLease × List RetireReason
  unfolding record_sample_at
  settle_lease now u l st =
      if l.once
      then (st, l, [])
      else let settled = record_sample_at now l.route (pos l.index) u st in
        (settled.0, record l { once = true }, settled.1)

module _ {P : Type 0} (select : P → List KeyState → P × ℤ) where
  unfoldable pub reserve_at : ℕ → String → Store P → Store P × Reservation
  reserve_at now name st = elim (lookup name st.routes) [
    | none ↦ (st, refused_drained)
    | some r ↦
        let (p', c', r', answer) = reserve select st.settings now st.policy st.fallback r in
        (record st { routes = adjust name (λ _. r') st.routes; policy = p'; fallback = c' }, answer)
  ]

  -- `Next`: the index, or -1.
  unfoldable pub next : ℕ → String → Store P → Store P × ℤ
  unfolding reserve_at
  next now name st =
      let (st', answer) = reserve_at now name st in
      (
        st',
        elim answer [
          | granted i ↦ pos i
          | refused_drained ↦ negsuc 0
          | refused_admission ↦ negsuc 0
        ],
      )

  -- `Acquire`: the lease, if one was granted.
  unfoldable pub acquire : ℕ → String → Store P → Store P × Option KeyLease
  unfolding reserve_at
  acquire now name st =
      let (st', answer) = reserve_at now name st in
      (
        st',
        elim answer [
          | granted i ↦ some (record { route = name; index = i; once = false })
          | refused_drained ↦ none
          | refused_admission ↦ none
        ],
      )
