-- ===== src/Gateway/Runs.antt =====
-- The gateway uses a store only by the calls of its protocol, and leaves no lease behind.
use llm_cluster_router.Prelude.{
  ℕ, ◌≡◌, refl, ◌∙◌, ap, List, [], ◌∷◌, ◌++◌, Option, none, some, String, true, false, ltb, length,
  All, Bool-cases, inl, inr, arith,
}
use llm_cluster_router.Prelude.Int.{ℤ, pos}
use llm_cluster_router.Rotation.Types.{UsageSample, reason_quota, KeyState}
use llm_cluster_router.Rotation.Route.{Reservation, granted, refused_drained, refused_admission}
use llm_cluster_router.Rotation.Store.{Store, KeyLease, settle_lease, reserve_at, acquire}
use llm_cluster_router.Rotation.System.{
  System, Call, acquires, settles, retires as calls_retires, retires_for_window, asks_retry_after,
  granted_lease, settle_at, step, run,
}
use llm_cluster_router.VendorError.{VendorSignal, retires, reason}
use llm_cluster_router.VendorError.Parse.{parse_vendor_signal, vendor_retire_until}
use llm_cluster_router.Usage.{observe_all, result}
use llm_cluster_router.Gateway.{chargeable_sample, is_quota_status}
use llm_cluster_router.Gateway.Request.{
  PoolRoute, Times, Forwarded, forward_failed, answered, failed_sample, wait_of, deny_unavailable,
  retire_on, signal_key, answer_request, forward_request, lease_for, leasing_of, serve_leasing,
  serve,
}

module _ {P : Type 0} (select : P → List KeyState → P × ℤ) where
  -- Some calls of the store's protocol lead from one system to another.
  abbrev Reaches : System P → System P → Type 0
  Reaches y y' = (cs : List (ℕ × Call)) × (run select y cs ≡ y')

  abbrev pub system : Store P → List KeyLease → System P
  system st ls = record { store = st; leases = ls }

  pub run-append :
      (y : System P) (cs ds : List (ℕ × Call))
      → run select y (cs ++ ds) ≡ run select (run select y cs) ds
  unfolding run
  run-append y [] ds = refl
  run-append y (c ∷ cs) ds = run-append (step select y c) cs ds

  Reaches-trans : (x y z : System P) → Reaches x y → Reaches y z → Reaches x z
  Reaches-trans x y z (cs, e) (ds, f) =
      (cs ++ ds, run-append x cs ds ∙ ap (λ w. run select w ds) e ∙ f)

  Reaches-step : (y y' : System P) (c : ℕ × Call) → step select y c ≡ y' → Reaches y y'
  unfolding run
  Reaches-step y y' c e = (c ∷ [], e)

  Reaches-refl : (y : System P) → Reaches y y
  unfolding run
  Reaches-refl y = ([], refl)

  settle-Reaches :
      (now : ℕ) (u : UsageSample) (l : KeyLease) (st : Store P)
      → Reaches
          (system st (l ∷ []))
          (system (settle_lease now u l st).0 ((settle_lease now u l st).1 ∷ []))
  unfolding step settle_at
  settle-Reaches now u l st = Reaches-step _ _ (now, settles 0 u) refl

  signal-Reaches :
      (now : ℕ) (name : String) (l : KeyLease) (status : ℕ) (o : Option VendorSignal) (st : Store P)
      → Reaches (system st (l ∷ [])) (system (retire_on now name l status o st) (l ∷ []))
  unfolding retire_on step
  signal-Reaches now name l status none st = elim (Bool-cases (is_quota_status status)) [
    | inl quota ↦
        let c : Call = retires_for_window name (pos l.index) (some reason_quota) in
        rw quota (Reaches-step _ _ (now, c) refl)
    | inr fine ↦ rw fine (Reaches-refl _)
  ]
  signal-Reaches now name l status (some v) st = elim (Bool-cases (retires v)) [
    | inl gone ↦
        let until = vendor_retire_until v now 0 in
        let c : Call = calls_retires name (pos l.index) until (some (reason v)) in
        rw gone (Reaches-step _ _ (now, c) refl)
    | inr stays ↦ rw stays (Reaches-refl _)
  ]

  settle_once :
      (now : ℕ) (u : UsageSample) (l : KeyLease) (st : Store P)
      → (settle_lease now u l st).1.once ≡ true
  unfolding settle_lease
  settle_once now u l st = ground arith

  -- Where a lease has led to a store with all leases settled.
  abbrev Settles : Store P → KeyLease → Store P → Type 0
  Settles st l st' =
      (l' : KeyLease) × Reaches (system st (l ∷ [])) (system st' (l' ∷ [])) × (l'.once ≡ true)

  forward-Settles :
      (t : Times) (route : PoolRoute) (l : KeyLease) (f : Forwarded) (st : Store P)
      → Settles st l (forward_request t route l f st).0
  unfolding forward_request answer_request signal_key
  forward-Settles t route l forward_failed st =
      (_, settle-Reaches t.settled failed_sample l st, settle_once t.settled failed_sample l st)
  forward-Settles t route l (answered status chunks) st =
      let tail = observe_all [] chunks in
      let o = parse_vendor_signal t.signalled tail in
      let st1 = retire_on t.signalled route.name l status o st in
      let u = chargeable_sample status (result tail) in
      let l1 = (settle_lease t.settled u l st1).1 in
      let st2 = (settle_lease t.settled u l st1).0 in
      (
        _,
        Reaches-trans _ _ _ (signal-Reaches t.signalled route.name l status o st) (
            Reaches-trans _ _ _ (settle-Reaches t.settled u l st1)
              (settle-Reaches t.settled failed_sample l1 st2)),
        settle_once t.settled failed_sample l1 st2,
      )

  -- Where the protocol has led from a system to a store with all leases settled.
  abbrev Serves : System P → Store P → Type 0
  Serves y st = (ls : List KeyLease) × Reaches y (system st ls) × All (λ l. l.once ≡ true) ls

  forward-Serves :
      (t : Times) (route : PoolRoute) (l : KeyLease) (f : Forwarded) (y : System P) (st : Store P)
      → Reaches y (system st (l ∷ []))
      → Serves y (forward_request t route l f st).0
  forward-Serves t route l f y st r =
      let (l', r', once) = forward-Settles t route l f st in
      (l' ∷ [], Reaches-trans _ _ _ r r', (once, tt))

  refused-Serves :
      (now : ℕ) (name : String) (a : Reservation) (y : System P) (st : Store P) (ls : List KeyLease)
      → Reaches y (system st ls)
      → All (λ l. l.once ≡ true) ls
      → Serves y (deny_unavailable now name a st).0
  unfolding deny_unavailable wait_of step
  refused-Serves now name refused_admission y st ls r all = (ls, r, all)
  refused-Serves now name refused_drained y st ls r all =
      (ls, Reaches-trans _ _ _ r (Reaches-step _ _ (now, asks_retry_after name) refl), all)
  refused-Serves now name (granted i) y st ls r all =
      (ls, Reaches-trans _ _ _ r (Reaches-step _ _ (now, asks_retry_after name) refl), all)

  -- `Acquire`, on the answer of the store.
  abbrev acquired : String → Reservation → Option KeyLease
  acquired name a = elim a [
    | granted i ↦ some (record { route = name; index = i; once = false })
    | refused_drained ↦ none
    | refused_admission ↦ none
  ]

  answered-Serves :
      (t : Times) (route : PoolRoute) (f : Forwarded) (y : System P) (st : Store P)
      (a : Reservation)
      → Reaches y (granted_lease (system st []) (st, acquired route.name a))
      → Serves y (serve_leasing t route f (leasing_of t.reserved route (st, a))).0
  unfolding granted_lease leasing_of serve_leasing
  answered-Serves t route f y st refused_drained r =
      refused-Serves t.reserved route.name refused_drained y st [] r tt
  answered-Serves t route f y st refused_admission r =
      refused-Serves t.reserved route.name refused_admission y st [] r tt
  answered-Serves t route f y st (granted i) r =
      let l : KeyLease = record { route = route.name; index = i; once = false } in
      elim (Bool-cases (ltb i (length route.keys))) [
        | inl known ↦ rw known (forward-Serves t route l f y st r)
        | inr unknown ↦ rw unknown (
            refused-Serves t.reserved route.name refused_drained y _ _
              (Reaches-trans _ _ _ r (settle-Reaches t.reserved failed_sample l st))
              (settle_once t.reserved failed_sample l st, tt))
      ]

  -- A request does to the store what some calls of its protocol do, by a caller that then holds no
  -- unsettled lease: whatever the pool answers, the upstream does and the vendor says.
  pub serve-refines :
      (t : Times) (route : PoolRoute) (f : Forwarded) (st : Store P)
      → (cs : List (ℕ × Call)) × (ls : List KeyLease) × (run select (system st []) cs
          ≡ system (serve select t route f st).0 ls)
        × All (λ l. l.once ≡ true) ls
  unfolding serve lease_for step acquire granted_lease
  serve-refines t route f st =
      let x = reserve_at select t.reserved route.name st in
      let (ls, (cs, e), all) =
        answered-Serves t route f (system st []) x.0 x.1
          (Reaches-step _ _ (t.reserved, acquires route.name) refl) in
      (cs, ls, e, all)
