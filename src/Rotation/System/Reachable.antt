-- ===== src/Rotation/System/Reachable.antt =====
-- After any run the slots of every key are its unsettled leases, and no call of the program can
-- make them differ.
use text.Mathlib.TextEquality.{eq_iff}
use llm_cluster_router.Prelude.{
  ℕ, ◌+◌, ◌≡◌, ◌<◌, ◌∙◌, List, [], ◌∷◌, ◌++◌, none, some, String, true, false, if◌then◌else◌,
  get_elem?, modify, Option-cases, Bool-cases, inl, inr, arith,
}
use llm_cluster_router.Prelude.Int.{ℤ}
use llm_cluster_router.Prelude.Maps.{lookup, adjust}
use llm_cluster_router.Rotation.Types.{UsageSample, Settings, Route, KeyState}
use llm_cluster_router.Rotation.Route.{
  Reservation, granted, refused_drained, refused_admission, advance, add_lease, reserve,
  record_sample,
}
use llm_cluster_router.Rotation.Route.Admission.{
  reserve-Explains, reserve_route, route_after, Explains,
}
use llm_cluster_router.Rotation.Route.Slots.{
  slots_at, slots_at-add_lease, slots_at-advance, record_sample_slots,
}
use llm_cluster_router.Rotation.Store.{KeyLease, settle_lease, acquire}
use llm_cluster_router.Rotation.System.{System, acquires, settle_at, step}
use llm_cluster_router.Rotation.System.Leases.{
  slots_in, is_live, live, slots_in-lookup, slots_in-none, slots_in-adjust, slots_in_kept,
  live-append, live-modify, live_pos,
}

-- Every slot of the store is held by a lease that is not settled, and every such lease has a slot.
abbrev pub IsLive : List (String × Route) → List KeyLease → Type 0
IsLive m ls = (name : String) (i : ℕ) → slots_in m name i ≡ live name i ls

-- A new lease on key `k` of a route.
abbrev pub new_lease : String → ℕ → KeyLease
new_lease name k = record { route = name; index = k; once = false }

granted_slots :
    (s : Settings) (m : List (String × Route)) (name j : String) (now k i : ℕ) (r : Route)
    → lookup name m ≡ some r
    → Explains s now (advance s now r).keys (granted k)
    → slots_in (adjust name (λ _. add_lease now k (advance s now r)) m) j i
      ≡ slots_in m j i + (if is_live j i (new_lease name k) then 1 else 0)
granted_slots s m name j now k i r h (key, at, adm) = ground (
  arith,
  slots_in-adjust m name j i r (add_lease now k (advance s now r)) h,
  slots_in-lookup m name i h,
  slots_at-add_lease now (advance s now r) k i at,
  slots_at-advance s now r i,
  eq_iff name j,
)

pub settled_slots :
    (s : Settings) (m : List (String × Route)) (name j : String) (now k i : ℕ) (u : UsageSample)
    (r : Route)
    → lookup name m ≡ some r
    → 0 < slots_at r.keys k
    → slots_in (adjust name (λ _. (record_sample s now k u r).0) m) j i
        + (if is_live j i (new_lease name k) then 1 else 0)
      ≡ slots_in m j i
settled_slots s m name j now k i u r h p = ground (
  arith,
  slots_in-adjust m name j i r (record_sample s now k u r).0 h,
  slots_in-lookup m name i h,
  record_sample_slots s now k i u r p,
  eq_iff name j,
)

-- A lease that is not settled has a slot, so its route is there.
pub held_route :
    (m : List (String × Route)) (ls : List KeyLease) (j : ℕ) (l : KeyLease)
    → IsLive m ls
    → get_elem? ls j ≡ some l
    → l.once ≡ false
    → (r : Route) × (lookup l.route m ≡ some r) × (0 < slots_at r.keys l.index)
held_route m ls j l v e o =
    let held : 0 < slots_in m l.route l.index =
      ground
        (arith, v l.route l.index, live_pos l.route l.index j ls l e, eq_iff l.route l.route) in
    elim (Option-cases (lookup l.route m)) [
      | inl gone ↦ absurd (slots_in-none m l.route l.index gone held)
      | inr (r, at) ↦ (r, at, omega (arith, slots_in-lookup m l.route l.index at))
    ]

-- The leases behind an answer of `reserve`.
abbrev pub leases_after : String → Reservation → List KeyLease → List KeyLease
leases_after name (granted k) ls = ls ++ new_lease name k ∷ []
leases_after name refused_drained ls = ls
leases_after name refused_admission ls = ls

pub answered_slots :
    (s : Settings) (m : List (String × Route)) (ls : List KeyLease) (name : String) (now : ℕ)
    (r : Route) (a : Reservation)
    → lookup name m ≡ some r
    → Explains s now (advance s now r).keys a
    → IsLive m ls
    → IsLive (adjust name (λ _. route_after now (advance s now r) a) m) (leases_after name a ls)
answered_slots s m ls name now r (granted k) h x v = λ j i.
    omega
      (arith, granted_slots s m name j now k i r h x, live-append j i ls (new_lease name k), v j i)
answered_slots s m ls name now r refused_drained h x v =
    λ j i. slots_in_kept m name j i r (advance s now r) h (slots_at-advance s now r i) ∙ v j i
answered_slots s m ls name now r refused_admission h x v =
    λ j i. slots_in_kept m name j i r (advance s now r) h (slots_at-advance s now r i) ∙ v j i

module _ {P : Type 0} (select : P → List KeyState → P × ℤ) where
  -- `Acquire` on a route that is there.
  pub acquire_some :
      (now : ℕ) (name : String) (y : System P) (r : Route)
      → lookup name y.store.routes ≡ some r
      → let st = y.store in
        let reserved = reserve select st.settings now st.policy st.fallback r in
        ((step select y (now, acquires name)).store.routes
          ≡ adjust name (λ _. reserved.2) st.routes)
        × ((step select y (now, acquires name)).leases ≡ leases_after name reserved.3 y.leases)
  unfolding step acquire
  acquire_some now name y r h = ground (arith, h)

  pub acquire_none :
      (now : ℕ) (name : String) (y : System P)
      → lookup name y.store.routes ≡ none
      → step select y (now, acquires name) ≡ y
  unfolding step acquire
  acquire_none now name y h = ground (arith, h)

  pub acquire-IsLive :
      (now : ℕ) (name : String) (y : System P)
      → IsLive y.store.routes y.leases
      → IsLive
          (step select y (now, acquires name)).store.routes
          (step select y (now, acquires name)).leases
  acquire-IsLive now name y v = elim (Option-cases (lookup name y.store.routes)) [
    | inl e ↦ rw (acquire_none now name y e) v
    | inr (r, e) ↦
        let st = y.store in
        let s = st.settings in
        let (routes, leases) = acquire_some now name y r e in
        rw (routes, leases, reserve_route select s now st.policy st.fallback r)
          (answered_slots s st.routes y.leases name now r _ e
            (reserve-Explains select s now st.policy st.fallback r) v)
  ]

module _ {P : Type 0} where
  settle_once :
      (now j : ℕ) (u : UsageSample) (y : System P) (l : KeyLease)
      → get_elem? y.leases j ≡ some l
      → l.once ≡ true
      → ((settle_at now j u y).store ≡ y.store)
        × ((settle_at now j u y).leases ≡ modify y.leases j (λ _. l))
  unfolding settle_at settle_lease
  settle_once now j u y l h o = ground (arith, h, o)

  settle_first :
      (now j : ℕ) (u : UsageSample) (y : System P) (l : KeyLease) (r : Route)
      → get_elem? y.leases j ≡ some l
      → l.once ≡ false
      → lookup l.route y.store.routes ≡ some r
      → ((settle_at now j u y).store.routes
          ≡ adjust l.route (λ _. (record_sample y.store.settings now l.index u r).0) y.store.routes)
        × ((settle_at now j u y).leases ≡ modify y.leases j (λ _. record l { once = true }))
  unfolding settle_at settle_lease
  settle_first now j u y l r h o e = ground (arith, h, o, e)

  settle_missing :
      (now j : ℕ) (u : UsageSample) (y : System P)
      → get_elem? y.leases j ≡ none
      → settle_at now j u y ≡ y
  unfolding settle_at
  settle_missing now j u y h = ground (arith, h)

  -- What a settlement does, for a predicate of the routes and the leases: nothing if there is no
  -- such lease, nothing to the routes if it is settled, and else one settlement of its key.
  pub settle_cases {ℓ} :
      (Q : List (String × Route) → List KeyLease → Type ℓ) (now j : ℕ) (u : UsageSample)
      (y : System P)
      → IsLive y.store.routes y.leases
      → Q y.store.routes y.leases
      → ((l : KeyLease)
          → get_elem? y.leases j ≡ some l
          → l.once ≡ true
          → Q y.store.routes (modify y.leases j (λ _. l)))
      → ((l : KeyLease) (r : Route)
          → get_elem? y.leases j ≡ some l
          → lookup l.route y.store.routes ≡ some r
          → 0 < slots_at r.keys l.index
          → l.once ≡ false
          → Q
              (adjust l.route
                (λ _. (record_sample y.store.settings now l.index u r).0)
                y.store.routes)
              (modify y.leases j (λ _. record l { once = true })))
      → Q (settle_at now j u y).store.routes (settle_at now j u y).leases
  settle_cases Q now j u y v missing again first = elim (Option-cases (get_elem? y.leases j)) [
    | inl e ↦ rw (settle_missing now j u y e) missing
    | inr (l, e) ↦ elim (Bool-cases l.once) [
      | inl o ↦ let (st, ls) = settle_once now j u y l e o in rw (st, ls) (again l e o)
      | inr o ↦
          let (r, at, p) = held_route y.store.routes y.leases j l v e o in
          let (routes, ls) = settle_first now j u y l r e o at in
          rw (routes, ls) (first l r e at p o)
    ]
  ]

  pub settle-IsLive :
      (now j : ℕ) (u : UsageSample) (y : System P)
      → IsLive y.store.routes y.leases
      → IsLive (settle_at now j u y).store.routes (settle_at now j u y).leases
  settle-IsLive now j u y v =
      settle_cases IsLive now j u y v v
        (λ l e o name i. ground (arith, v name i, live-modify name i j y.leases l l e))
        (λ l r e at p o name i. ground (
          arith,
          v name i,
          settled_slots y.store.settings y.store.routes l.route name now l.index i u r at p,
          live-modify name i j y.leases l (record l { once = true }) e,
        ))
