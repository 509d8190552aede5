-- ===== src/Rotation/System.antt =====
-- The store of internal/channel/rotation_store.go among its callers: leases are taken by `Acquire`
-- and settled by `KeyLease.Settle`, in any order and at any instant; other callers retire keys and
-- read the store. Each call is one critical section, so a run is a list of calls.
pub mod Leases
pub mod Reachable
pub mod Caps
pub mod Runs
use llm_cluster_router.Prelude.{
  ℕ, List, [], ◌∷◌, ◌++◌, Option, none, some, String, Bool, true, false, get_elem?, modify,
}
use llm_cluster_router.Prelude.Int.{ℤ}
use llm_cluster_router.Rotation.Types.{RetireReason, UsageSample, KeyState}
use llm_cluster_router.Rotation.Store.{
  Store, Options, new_store, KeyLease, settle_lease, retire_with_reason_at, retire_for_window_at,
  retry_after_at, snapshot_at, acquire,
}

pub record System (P : Type 0) : Type 0 where
  pub store : Store P
  pub leases : List KeyLease

-- `settles j`: the holder of the lease at position `j` settles it, once more or for the first time.
pub data Call : Type 0 where
  acquires : String → Call
  settles : ℕ → UsageSample → Call
  retires : String → ℤ → ℕ → Option RetireReason → Call
  retires_for_window : String → ℤ → Option RetireReason → Call
  asks_retry_after snapshots : String → Call

-- A new store that nobody has called.
unfoldable pub new_system : {P : Type 0} → Options → P → ℕ → List (String × ℤ) → System P
new_system o policy start keys = record { store = new_store o policy start keys; leases = [] }

module _ {P : Type 0} where
  unfoldable pub granted_lease : System P → Store P × Option KeyLease → System P
  granted_lease y (st, none) = record y { store = st }
  granted_lease y (st, some l) = record y { store = st; leases = y.leases ++ l ∷ [] }

  unfoldable pub settle_at : ℕ → ℕ → UsageSample → System P → System P
  settle_at now j u y = elim (get_elem? y.leases j) [
    | none ↦ y
    | some l ↦
        let (st, l', events) = settle_lease now u l y.store in
        record y { store = st; leases = modify y.leases j (λ _. l') }
  ]

module _ {P : Type 0} (select : P → List KeyState → P × ℤ) where
  unfoldable pub step : System P → ℕ × Call → System P
  unfolding granted_lease settle_at
  step y (now, acquires name) = granted_lease y (acquire select now name y.store)
  step y (now, settles j u) = settle_at now j u y
  step y (now, retires name idx until reason) = record y {
    store = (retire_with_reason_at now name idx until reason y.store).0;
  }
  step y (now, retires_for_window name idx reason) = record y {
    store = (retire_for_window_at now name idx reason y.store).0;
  }
  step y (now, asks_retry_after name) = record y { store = (retry_after_at now name y.store).0 }
  step y (now, snapshots name) = record y { store = (snapshot_at now name y.store).0 }

  unfoldable pub run : System P → List (ℕ × Call) → System P
  run y [] = y
  run y (c ∷ cs) = run (step y c) cs
