-- ===== src/Rotation/System/Runs.antt =====
-- After any run of calls on a new store, in any order and at any instants.
use llm_cluster_router.Prelude.{
  ℕ, zero, suc, ◌+◌, ◌&&◌, ◌||◌, ltb, ◌≡◌, ◌≤◌, ◌<◌, refl, subst, ◌∙◌, List, [], ◌∷◌, some, String,
  get_elem?, arith, replicate, All-get_elem?,
}
use llm_cluster_router.Prelude.Int.{ℤ, pos, negsuc}
use llm_cluster_router.Prelude.Maps.{lookup, AllValues, AllValues-lookup}
use llm_cluster_router.Rotation.Types.{Settings, Key, Route, KeyState}
use llm_cluster_router.Rotation.Key.{fresh}
use llm_cluster_router.Rotation.Key.Slots.{IsCapped}
use llm_cluster_router.Rotation.Key.Flags.{IsFlagged, at_hard, at_soft}
use llm_cluster_router.Rotation.Route.{new_route}
use llm_cluster_router.Rotation.Route.Invariant.{new_route-IsCapped, new_route-IsFlagged}
use llm_cluster_router.Rotation.Route.Slots.{slots_at, slots_at-get_elem?}
use llm_cluster_router.Rotation.Store.{
  acquire, settle_lease, retire_with_reason_at, retire_for_window_at, retry_after_at, snapshot_at,
  Options, settings_of, new_routes, new_store,
}
use llm_cluster_router.Rotation.System.{
  System, Call, acquires, settles, retires, retires_for_window, asks_retry_after, snapshots,
  new_system, step, run,
}
use llm_cluster_router.Rotation.System.Leases.{slots_in, live, slots_in-lookup}
use llm_cluster_router.Rotation.System.Caps.{
  IsSound, IsGood, Kept, acquire-IsGood, settle-IsGood, retires-IsGood, retires_for_window-IsGood,
  asks-IsGood, snapshots-IsGood,
}

slots_at-replicate : (n i : ℕ) → slots_at (replicate n fresh) i ≡ 0
unfolding slots_at
slots_at-replicate zero i = refl
slots_at-replicate (suc n) zero = omega arith
slots_at-replicate (suc n) (suc i) = slots_at-replicate n i

slots_in-new_routes :
    (start : ℕ) (keys : List (String × ℤ)) (name : String) (i : ℕ)
    → slots_in (new_routes start keys) name i ≡ 0
unfolding slots_in new_routes new_route lookup
slots_in-new_routes start [] name i = refl
slots_in-new_routes start ((n, pos zero) ∷ keys) name i = slots_in-new_routes start keys name i
slots_in-new_routes start ((n, negsuc _) ∷ keys) name i = slots_in-new_routes start keys name i
slots_in-new_routes start ((n, pos (suc m)) ∷ keys) name i =
    ground (arith, slots_in-new_routes start keys name i, slots_at-replicate (suc m) i)

new_routes-IsSound :
    (s : Settings) (start : ℕ) (keys : List (String × ℤ))
    → 0 < s.budget.soft_ratio.num
    → AllValues (IsSound s) (new_routes start keys)
unfolding new_routes
new_routes-IsSound s start [] h = tt
new_routes-IsSound s start ((n, pos zero) ∷ keys) h = new_routes-IsSound s start keys h
new_routes-IsSound s start ((n, negsuc _) ∷ keys) h = new_routes-IsSound s start keys h
new_routes-IsSound s start ((n, pos (suc m)) ∷ keys) h = (
  record {
    capped = new_route-IsCapped s (suc m) start;
    flagged = new_route-IsFlagged s (suc m) start h;
  },
  new_routes-IsSound s start keys h,
)

-- The defaults of `NewStore` leave a soft ratio above 0.
pub settings_of-ratio : (o : Options) → 0 < (settings_of o).budget.soft_ratio.num
unfolding settings_of
settings_of-ratio o = ground arith

pub new_store-IsGood :
    {P : Type 0} (o : Options) (policy : P) (start : ℕ) (keys : List (String × ℤ))
    → IsGood (settings_of o) (new_store o policy start keys).routes []
unfolding new_store live
new_store-IsGood o policy start keys = record {
  alive = λ name i. slots_in-new_routes start keys name i;
  sound = new_routes-IsSound (settings_of o) start keys (settings_of-ratio o);
}

module _ {P : Type 0} (select : P → List KeyState → P × ℤ) where
  step_settings :
      (y : System P) (c : ℕ × Call) → (step select y c).store.settings ≡ y.store.settings
  unfolding step acquire settle_lease retire_with_reason_at retire_for_window_at retry_after_at
      snapshot_at
  step_settings y (now, acquires name) = ground arith
  step_settings y (now, settles j u) = ground arith
  step_settings y (now, retires name idx until x) = ground arith
  step_settings y (now, retires_for_window name idx x) = ground arith
  step_settings y (now, asks_retry_after name) = ground arith
  step_settings y (now, snapshots name) = ground arith

  step-IsGood :
      (y : System P) (c : ℕ × Call)
      → 0 < y.store.settings.budget.soft_ratio.num
      → Kept y.store.settings y
      → Kept y.store.settings (step select y c)
  unfolding step
  step-IsGood y (now, acquires name) h v = acquire-IsGood select y now name h v
  step-IsGood y (now, settles j u) h v = settle-IsGood select y now j u h v
  step-IsGood y (now, retires name idx until x) h v =
      retires-IsGood select y now name idx until x h v
  step-IsGood y (now, retires_for_window name idx x) h v =
      retires_for_window-IsGood select y now name idx x h v
  step-IsGood y (now, asks_retry_after name) h v = asks-IsGood select y now name h v
  step-IsGood y (now, snapshots name) h v = snapshots-IsGood select y now name h v

  pub run_settings :
      (y : System P) (cs : List (ℕ × Call)) → (run select y cs).store.settings ≡ y.store.settings
  unfolding run
  run_settings y [] = refl
  run_settings y (c ∷ cs) = run_settings (step select y c) cs ∙ step_settings y c

  pub run-IsGood :
      (y : System P) (cs : List (ℕ × Call))
      → 0 < y.store.settings.budget.soft_ratio.num
      → Kept y.store.settings y
      → Kept y.store.settings (run select y cs)
  unfolding run
  run-IsGood y [] h v = v
  run-IsGood y (c ∷ cs) h v =
      subst (λ s. Kept s (run select (step select y c) cs)) (step_settings y c)
        (run-IsGood (step select y c) cs (rw (step_settings y c) h)
          (rw (step_settings y c) (step-IsGood y c h v)))

  module _ (o : Options) (policy : P) (start : ℕ) (keys : List (String × ℤ))
      (cs : List (ℕ × Call)) where
    -- The system after the run.
    abbrev pub reached : System P
    reached = run select (new_system o policy start keys) cs

    reached-IsGood : Kept (settings_of o) reached
    unfolding new_system new_store
    reached-IsGood =
        run-IsGood (new_system o policy start keys) cs (settings_of-ratio o)
          (new_store-IsGood o policy start keys)

    -- The slots of a key are its unsettled leases, whatever was reclaimed in between.
    pub run_slots :
        (name : String) (i : ℕ) → slots_in reached.store.routes name i ≡ live name i reached.leases
    run_slots name i = reached-IsGood.alive name i

    key_of :
        (name : String) (i : ℕ) (r : Route) (k : Key)
        → lookup name reached.store.routes ≡ some r
        → get_elem? r.keys i ≡ some k
        → IsCapped (settings_of o) k × IsFlagged (settings_of o) k
    key_of name i r k at here =
        let sound =
          AllValues-lookup (IsSound (settings_of o)) name reached.store.routes reached-IsGood.sound
            at in
        (
          All-get_elem? (IsCapped (settings_of o)) r.keys i sound.capped here,
          All-get_elem? (IsFlagged (settings_of o)) r.keys i sound.flagged here,
        )

    -- No run spends more than the request cap of a key, but for the leases that were reclaimed: the
    -- requests settled in this window and the leases not yet settled are together at most the cap
    -- and the number of leases ever reclaimed.
    pub run_request_cap :
        (name : String) (i : ℕ) (r : Route) (k : Key)
        → lookup name reached.store.routes ≡ some r
        → get_elem? r.keys i ≡ some k
        → 0 < o.budget.window
        → 0 < o.budget.requests
        → k.requests + live name i reached.leases ≤ o.budget.requests + k.reclaimed
    unfolding settings_of
    run_request_cap name i r k at here w q = omega (
      arith,
      (key_of name i r k at here).0.capped (w, q),
      run_slots name i,
      slots_in-lookup reached.store.routes name i at,
      slots_at-get_elem? r.keys i here,
    )

    -- After any run the flags of a key say what its counters say.
    pub run_flags :
        (name : String) (i : ℕ) (r : Route) (k : Key)
        → lookup name reached.store.routes ≡ some r
        → get_elem? r.keys i ≡ some k
        → (k.drained ≡ ltb 0 o.budget.window && at_hard (settings_of o) k)
          × (k.soft_retired
              ≡ ltb 0 o.budget.window && (at_hard (settings_of o) k || at_soft (settings_of o) k))
    unfolding settings_of
    run_flags name i r k at here = let v = (key_of name i r k at here).1 in (v.hard, v.soft)
