-- ===== src/Rotation/Route/Admission.antt =====
-- What `reserve` grants and why it refuses, for any policy, one that breaks its contract included.
use llm_cluster_router.Prelude.{
  ℕ, suc, ◌+◌, ◌≡◌, ◌↔◌, refl, List, [], ◌∷◌, some, true, false, ltb, Bool-cases, inl, inr, length,
  get_elem?, All, All-imp, All-get_elem?, get_elem?_of_lt, get_or-get_elem?, ltb→lt, arith,
}
use llm_cluster_router.Prelude.Int.{ℤ, pos, negsuc, in_range}
use llm_cluster_router.Rotation.Types.{Settings, Key, Route, KeyState}
use llm_cluster_router.Rotation.Key.{selectable_at, admissible, key_state}
use llm_cluster_router.Rotation.Policy.{round_robin}
use llm_cluster_router.Rotation.Route.{
  advance, collect, Reservation, granted, refused_drained, refused_admission, state_at, choose,
  add_lease, reserve_from, reserve,
}

abbrev pub NoneSelectable : ℕ → List Key → Type 0
NoneSelectable now ks = All (λ k. selectable_at k now ≡ false) ks

abbrev pub NoneAdmissible : Settings → ℕ → List Key → Type 0
NoneAdmissible s now ks = All (λ k. admissible s k now ≡ false) ks

-- The key at an index may take one more reservation.
abbrev pub AdmissibleAt : Settings → ℕ → List Key → ℕ → Type 0
AdmissibleAt s now ks i = (k : Key) × (get_elem? ks i ≡ some k) × (admissible s k now ≡ true)

-- What each answer of `reserve` says of the keys. The three cases exclude one another.
abbrev pub Explains : Settings → ℕ → List Key → Reservation → Type 0
Explains s now ks (granted i) = AdmissibleAt s now ks i
Explains s now ks refused_drained = NoneSelectable now ks
Explains s now ks refused_admission = NoneAdmissible s now ks × ¬ NoneSelectable now ks

admissible-selectable :
    (s : Settings) (now : ℕ) (k : Key) → admissible s k now ≡ true → selectable_at k now ≡ true
unfolding admissible
admissible-selectable s now k h = ground arith

-- The states that `collect` yields stand for admissible keys, by their indices from `i` on.
abbrev StandsFor : Settings → ℕ → ℕ → List Key → KeyState → Type 0
StandsFor s now i ks x = (j : ℕ) × (x.index ≡ i + j) × AdmissibleAt s now ks j

key_state_index : (now i : ℕ) (k : Key) → (key_state now i k).index ≡ i + 0
unfolding key_state
key_state_index now i k = omega arith

collect-StandsFor :
    (s : Settings) (now i : ℕ) (ks : List Key) → All (StandsFor s now i ks) (collect s now i ks).1
unfolding collect
collect-StandsFor s now i [] = tt
collect-StandsFor s now i (k ∷ ks) =
    let later : All (StandsFor s now i (k ∷ ks)) (collect s now (i + 1) ks).1 =
      All-imp _ _ (collect s now (i + 1) ks).1 (λ x (j, e, a). (suc j, omega arith, a))
        (collect-StandsFor s now (i + 1) ks) in
    elim (Bool-cases (selectable_at k now)) [
      | inr no_sel ↦ rw no_sel later
      | inl sel ↦ elim (Bool-cases (admissible s k now)) [
        | inr no_adm ↦ rw (sel, no_adm) later
        | inl adm ↦ rw (sel, adm) ((0, key_state_index now i k, (k, refl, adm)), later)
      ]
    ]

collect-none :
    (s : Settings) (now i : ℕ) (ks : List Key)
    → (collect s now i ks).1 ≡ []
    → NoneAdmissible s now ks
unfolding collect
collect-none s now i [] h = tt
collect-none s now i (k ∷ ks) h =
    ground (arith, admissible-selectable s now k, collect-none s now (i + 1) ks)

collect_selectable :
    (s : Settings) (now i : ℕ) (ks : List Key)
    → ((collect s now i ks).0 ≡ 0) ↔ NoneSelectable now ks
unfolding collect
collect_selectable s now i [] = (λ _. tt, λ _. refl)
collect_selectable s now i (k ∷ ks) =
    let (there, back) = collect_selectable s now (i + 1) ks in
    (λ h. ground (arith, there), λ h. ground (arith, back h.1))

-- Whatever a policy answers, the choice is one of the candidates.
state_at-All {ℓ} :
    (Q : KeyState → Type ℓ) (x : KeyState) (xs : List KeyState) (a : ℤ)
    → in_range a (length (x ∷ xs)) ≡ true
    → All Q (x ∷ xs)
    → Q (state_at x xs a)
state_at-All Q x xs (pos i) h q =
    let (y, e) = get_elem?_of_lt (x ∷ xs) i (ltb→lt i _ h) in
    rw (get_or-get_elem? (x ∷ xs) i x e) (All-get_elem? Q (x ∷ xs) i q e)
state_at-All Q x xs (negsuc i) h q = cc

-- The route that each answer leaves behind.
abbrev pub route_after : ℕ → Route → Reservation → Route
route_after now r (granted i) = add_lease now i r
route_after now r _ = r

module _ {P : Type 0} (select : P → List KeyState → P × ℤ) where
  choose-All {ℓ} :
      (Q : KeyState → Type ℓ) (p : P) (c : ℕ) (x : KeyState) (xs : List KeyState)
      → All Q (x ∷ xs)
      → Q (choose select p c x xs).2
  unfolding choose
  choose-All Q p c x xs q =
      let a = (select p (x ∷ xs)).1 in
      let b = (round_robin c (x ∷ xs)).1 in
      elim (Bool-cases (in_range a (length (x ∷ xs)))) [
        | inl e ↦ rw e (state_at-All Q x xs a e q)
        | inr e ↦ elim (Bool-cases (in_range b (length (x ∷ xs)))) [
          | inl e' ↦ rw (e, e') (state_at-All Q x xs b e' q)
          | inr e' ↦ rw (e, e') q.0
        ]
      ]

  reserve_from-Explains :
      (s : Settings) (now : ℕ) (p : P) (c : ℕ) (r : Route) (n : ℕ) (states : List KeyState)
      → All (StandsFor s now 0 r.keys) states
      → (states ≡ [] → NoneAdmissible s now r.keys)
      → ((n ≡ 0) ↔ NoneSelectable now r.keys)
      → Explains s now r.keys (reserve_from select now p c r n states).3
  unfolding reserve_from
  reserve_from-Explains s now p c r n [] st na sel = elim (Bool-cases (ltb 0 n)) [
    | inl e ↦ rw e (na refl, λ all. absurd (ground (arith, sel.1 all)))
    | inr e ↦ rw e (sel.0 (ground arith))
  ]
  reserve_from-Explains s now p c r n (x ∷ xs) st na sel =
      let (j, e, a) = choose-All (StandsFor s now 0 r.keys) p c x xs st in
      let e' : (choose select p c x xs).2.index ≡ j = omega arith in rw e' a

  -- The answer of `reserve` says exactly how the keys stood: a granted key was selectable and below
  -- its hard caps with the leases in flight counted; a refusal names the filter that left none.
  pub reserve-Explains :
      (s : Settings) (now : ℕ) (p : P) (c : ℕ) (r : Route)
      → Explains s now (advance s now r).keys (reserve select s now p c r).3
  unfolding reserve
  reserve-Explains s now p c r =
      let ks = (advance s now r).keys in
      reserve_from-Explains s now p c (advance s now r) _ _ (collect-StandsFor s now 0 ks)
        (collect-none s now 0 ks) (collect_selectable s now 0 ks)

  reserve_from_route :
      (now : ℕ) (p : P) (c : ℕ) (r : Route) (n : ℕ) (states : List KeyState)
      → (reserve_from select now p c r n states).2
        ≡ route_after now r (reserve_from select now p c r n states).3
  unfolding reserve_from
  reserve_from_route now p c r n [] = ground arith
  reserve_from_route now p c r n (x ∷ xs) = refl

  -- A reservation appends one lease to the granted key; a refusal changes nothing but the window.
  pub reserve_route :
      (s : Settings) (now : ℕ) (p : P) (c : ℕ) (r : Route)
      → (reserve select s now p c r).2
        ≡ route_after now (advance s now r) (reserve select s now p c r).3
  unfolding reserve
  reserve_route s now p c r = reserve_from_route now p c (advance s now r) _ _
