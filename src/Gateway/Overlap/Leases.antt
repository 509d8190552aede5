-- ===== src/Gateway/Overlap/Leases.antt =====
-- Which handler has still to settle a lease.
use llm_cluster_router.Prelude.{
  ℕ, zero, suc, ◌≡◌, ◌≢◌, ◌⊎◌, refl, sym, ◌∙◌, ap, subst, List, [], ◌∷◌, ◌++◌, Option, none, some,
  true, false, ◌==◌, ltb, length, get_elem?, modify, Bool-cases, Option-cases,
  get_elem?-modify_self, get_elem?-modify_ne, some_inj, inl, inr, arith,
}
use llm_cluster_router.Prelude.Int.{ℤ}
use llm_cluster_router.Rotation.Types.{UsageSample, KeyState}
use llm_cluster_router.Rotation.Route.{Reservation, granted, refused_drained, refused_admission}
use llm_cluster_router.Rotation.Store.{Store, KeyLease, settle_lease, reserve_at, acquire}
use llm_cluster_router.Rotation.System.{System, acquires, settles, granted_lease, settle_at, step}
use llm_cluster_router.VendorError.{VendorSignal, retires}
use llm_cluster_router.VendorError.Parse.{parse_vendor_signal}
use llm_cluster_router.Usage.{observe_all}
use llm_cluster_router.Gateway.{is_quota_status}
use llm_cluster_router.Gateway.Request.{PoolRoute, Forwarded, forward_failed, answered}
use llm_cluster_router.Gateway.Overlap.{
  Handler, waiting, unmatched, denied, forwarding, charging, closing, finished, leased_by,
  signal_call, call_if, signal_lease, handle,
}

-- The position of the lease that a handler has still to settle.
abbrev pub holds : Handler → Option ℕ
holds (unmatched route j) = some j
holds (forwarding route j) = some j
holds (charging j status chunks) = some j
holds (closing j) = some j
holds h = none

nat_cases : (i j : ℕ) → (i ≡ j) ⊎ (i ≢ j)
nat_cases i j = elim (Bool-cases (i == j)) [
  | inl e ↦ inl (ground (arith, e))
  | inr e ↦ inr (λ s. ground (arith, e, s))
]

-- An element behind all others is at their number.
get_elem?-snoc :
    (ls : List KeyLease) (l : KeyLease) (j : ℕ) {x : KeyLease}
    → get_elem? (ls ++ l ∷ []) j ≡ some x
    → (length ls ≡ j) ⊎ (get_elem? ls j ≡ some x)
get_elem?-snoc [] l zero h = inl refl
get_elem?-snoc [] l (suc j) h = inr h
get_elem?-snoc (y ∷ ls) l zero h = inr h
get_elem?-snoc (y ∷ ls) l (suc j) h = elim (get_elem?-snoc ls l j h) [
  | inl e ↦ inl (ap suc e)
  | inr e ↦ inr e
]

module _ {P : Type 0} (select : P → List KeyState → P × ℤ) where
  -- A lease behind a step of handler `h` is settled, or held by the handler as it is now, or it was there
  -- before and not the one that the handler held.
  abbrev pub Moves : System P → Handler → System P × Handler → Type 0
  Moves y h x =
      (j : ℕ) (l : KeyLease)
      → get_elem? x.0.leases j ≡ some l
      → (l.once ≡ true)
        ⊎ (holds x.1 ≡ some j)
        ⊎ ((get_elem? y.leases j ≡ some l) × (holds h ≢ some j))

  idle-Moves :
      (y y' : System P) (h h' : Handler)
      → y'.leases ≡ y.leases
      → holds h' ≡ holds h
      → Moves y h (y', h')
  idle-Moves y y' h h' same held j l at = elim (Option-cases (holds h)) [
    | inl e ↦ inr (inr (subst (λ ls. get_elem? ls j ≡ some l) same at, (λ f. ground (arith, e, f))))
    | inr (k, e) ↦ elim (nat_cases k j) [
      | inl is ↦ inr (inl (held ∙ e ∙ ap some is))
      | inr not ↦
          inr
            (inr (subst (λ ls. get_elem? ls j ≡ some l) same at, (λ f. not (some_inj (sym e ∙ f)))))
    ]
  ]

  settles-none :
      (now k : ℕ) (u : UsageSample) (y : System P)
      → get_elem? y.leases k ≡ none
      → (step select y (now, settles k u)).leases ≡ y.leases
  unfolding step settle_at
  settles-none now k u y gone = rw (gone, settle_at) refl

  settles-some :
      (now k : ℕ) (u : UsageSample) (y : System P) (m : KeyLease)
      → get_elem? y.leases k ≡ some m
      → (step select y (now, settles k u)).leases
        ≡ modify y.leases k (λ _. (settle_lease now u m y.store).1)
  unfolding step settle_at
  settles-some now k u y m there = rw (there, settle_at) refl

  settled_once :
      (now : ℕ) (u : UsageSample) (y : System P) (m : KeyLease)
      → (settle_lease now u m y.store).1.once ≡ true
  unfolding settle_lease
  settled_once now u y m = ground arith

  settles-Moves :
      (now k : ℕ) (u : UsageSample) (y : System P) (h h' : Handler)
      → holds h ≡ some k
      → Moves y h (step select y (now, settles k u), h')
  settles-Moves now k u y h h' held j l at = elim (Option-cases (get_elem? y.leases k)) [
    | inl gone ↦
        let was : get_elem? y.leases j ≡ some l =
          subst (λ ls. get_elem? ls j ≡ some l) (settles-none now k u y gone) at in
        inr (
          inr (
            was,
            (λ f.
                let is : k ≡ j = some_inj (sym held ∙ f) in
                let lost : get_elem? y.leases j ≡ none =
                  subst (λ i. get_elem? y.leases i ≡ none) is gone in
                absurd (ground (arith, lost, was))),
          ))
    | inr (m, there) ↦
        let next = (settle_lease now u m y.store).1 in
        let now_at : get_elem? (modify y.leases k (λ _. next)) j ≡ some l =
          subst (λ ls. get_elem? ls j ≡ some l) (settles-some now k u y m there) at in
        elim (nat_cases k j) [
          | inl is ↦
              let here : get_elem? (modify y.leases k (λ _. next)) j ≡ some next =
                subst (λ i. get_elem? (modify y.leases k (λ _. next)) i ≡ some next) is
                  (get_elem?-modify_self y.leases k (λ _. next) there) in
              inl
                (subst (λ x. x.once ≡ true) (some_inj (sym here ∙ now_at)) (settled_once now u y m))
          | inr not ↦ inr (
              inr (
                sym (get_elem?-modify_ne y.leases (λ _. next) not) ∙ now_at,
                (λ f. not (some_inj (sym held ∙ f))),
              ))
        ]
  ]

  signal_lease-leases :
      (now : ℕ) (route : PoolRoute) (status : ℕ) (chunks : List (List ℕ)) (o : Option KeyLease)
      (y : System P)
      → (signal_lease select now route status chunks o y).leases ≡ y.leases
  unfolding signal_lease signal_call call_if step
  signal_lease-leases now route status chunks none y = refl
  signal_lease-leases now route status chunks (some l) y =
      go (parse_vendor_signal now (observe_all [] chunks))
    where
      go :
          (o : Option VendorSignal)
          → (call_if select now (signal_call now route status o l) y).leases ≡ y.leases
      go (some v) = elim (Bool-cases (retires v)) [
        | inl e ↦ rw (e, signal_call) refl
        | inr e ↦ rw (e, signal_call) refl
      ]
      go none = elim (Bool-cases (is_quota_status status)) [
        | inl e ↦ rw (e, signal_call) refl
        | inr e ↦ rw (e, signal_call) refl
      ]

  acquires-Moves :
      (now : ℕ) (route : PoolRoute) (y : System P)
      → Moves y (waiting route) (
        step select y (now, acquires route.name),
        leased_by route (length y.leases) (reserve_at select now route.name y.store).1,
      )
  unfolding step acquire granted_lease leased_by
  acquires-Moves now route y = go (reserve_at select now route.name y.store)
    where
      fresh_lease : ℕ → KeyLease
      fresh_lease i = record { route = route.name; index = i; once = false }

      go :
          (x : Store P × Reservation) (j : ℕ) (l : KeyLease)
          → get_elem?
              (granted_lease y (
                x.0,
                elim x.1 as (λ _. Option KeyLease) [
                  | granted i ↦ some (fresh_lease i)
                  | refused_drained ↦ none
                  | refused_admission ↦ none
                ],
              )).leases
              j
            ≡ some l
          → (l.once ≡ true)
            ⊎ (holds (leased_by route (length y.leases) x.1) ≡ some j)
            ⊎ ((get_elem? y.leases j ≡ some l) × (holds (waiting route) ≢ some j))
      go (st, granted i) j l at = elim (get_elem?-snoc y.leases (fresh_lease i) j at) [
        | inr before ↦ inr (inr (before, (λ e. ground (arith, e))))
        | inl is ↦ elim (Bool-cases (ltb i (length route.keys))) [
          | inl e ↦ rw (e, leased_by) (inr (inl (ap some is)))
          | inr e ↦ rw (e, leased_by) (inr (inl (ap some is)))
        ]
      ]
      go (st, refused_drained) j l at = inr (inr (at, (λ e. ground (arith, e))))
      go (st, refused_admission) j l at = inr (inr (at, (λ e. ground (arith, e))))

  pub handle-Moves :
      (f : Forwarded) (now : ℕ) (h : Handler) (y : System P) → Moves y h (handle select f now h y)
  unfolding handle step
  handle-Moves f now (waiting route) y = acquires-Moves now route y
  handle-Moves f now (unmatched route j) y =
      settles-Moves now j _ y (unmatched route j) (denied route refused_drained) refl
  handle-Moves f now (denied route refused_admission) y =
      idle-Moves y (handle select f now (denied route refused_admission) y).0
        (denied route refused_admission) finished refl refl
  handle-Moves f now (denied route refused_drained) y =
      idle-Moves y (handle select f now (denied route refused_drained) y).0
        (denied route refused_drained) finished refl refl
  handle-Moves f now (denied route (granted i)) y =
      idle-Moves y (handle select f now (denied route (granted i)) y).0 (denied route (granted i))
        finished refl refl
  handle-Moves forward_failed now (forwarding route j) y =
      settles-Moves now j _ y (forwarding route j) finished refl
  handle-Moves (answered status chunks) now (forwarding route j) y =
      idle-Moves y (handle select (answered status chunks) now (forwarding route j) y).0
        (forwarding route j) (charging j status chunks)
        (signal_lease-leases now route status chunks (get_elem? y.leases j) y) refl
  handle-Moves f now (charging j status chunks) y =
      settles-Moves now j _ y (charging j status chunks) (closing j) refl
  handle-Moves f now (closing j) y = settles-Moves now j _ y (closing j) finished refl
  handle-Moves f now finished y = idle-Moves y y finished finished refl refl

  -- Every lease is settled, or some handler has still to settle it.
  abbrev pub IsCared : System P × List Handler → Type 0
  IsCared (y, hs) =
      (j : ℕ) (l : KeyLease)
      → get_elem? y.leases j ≡ some l
      → (l.once ≡ true) ⊎ ((i : ℕ) × (h : Handler) × (get_elem? hs i ≡ some h) × (holds h ≡ some j))

  pub moved-IsCared :
      (y : System P) (hs : List Handler) (i : ℕ) (h : Handler) (x : System P × Handler)
      → get_elem? hs i ≡ some h
      → Moves y h x
      → IsCared (y, hs)
      → IsCared (x.0, modify hs i (λ _. x.1))
  moved-IsCared y hs i h x at moves cared j l there = elim (moves j l there) [
    | inl once ↦ inl once
    | inr (inl held) ↦ inr (i, x.1, get_elem?-modify_self hs i (λ _. x.1) at, held)
    | inr (inr (was, not_its)) ↦ elim (cared j l was) [
      | inl once ↦ inl once
      | inr (k, g, at_k, held) ↦ elim (nat_cases i k) [
        | inl is ↦
            let same : h ≡ g =
              some_inj (sym at ∙ subst (λ m. get_elem? hs m ≡ some g) (sym is) at_k) in
            absurd (not_its (ap holds same ∙ held))
        | inr other ↦ inr (k, g, get_elem?-modify_ne hs (λ _. x.1) other ∙ at_k, held)
      ]
    ]
  ]
