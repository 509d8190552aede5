-- ===== src/Rotation/Policy/Minimum.antt =====
-- The shipped policies keep the contract, and the least-used ones pick a minimum.
use mathlib.Core.List.{append_assoc, append-nil}
use llm_cluster_router.Prelude.{
  ℕ, ◌+◌, ◌%◌, ◌≡◌, ◌≤◌, ◌<◌, refl, sym, subst, ap, if◌then◌else◌, List, [], ◌∷◌, ◌++◌, true, ltb,
  ◌==◌, Bool-cases, inl, inr, length, get_elem?, some, All, All-append, All-imp, All-get_elem?,
  length-append, get_elem?-append_left, get_elem?-append_length, get_or-get_elem?, get_elem?_of_lt,
  get_elem?-lt, lt→ltb, ltb→lt, ==_iff, arith,
}
use llm_cluster_router.Prelude.Int.{pos, in_range}
use llm_cluster_router.Rotation.Types.{KeyState}
use llm_cluster_router.Rotation.Policy.{
  round_robin, tied_from, pick_min, by_load, least_used, least_tokens, IsPolicy,
}

module _ (score : KeyState → ℕ) where
  -- Position `j` of `xs` holds a state with score `v`.
  abbrev pub ScoreAt : List KeyState → ℕ → ℕ → Type 0
  ScoreAt xs v j = (x : KeyState) × (get_elem? xs j ≡ some x) × (score x ≡ v)

  -- All of `tied` are positions of the least score `v` of `xs`, and there is one.
  pub record IsTied (xs : List KeyState) (v : ℕ) (tied : List ℕ) : Type 0 where
    pub least : All (λ y. v ≤ score y) xs
    pub attained : All (ScoreAt xs v) tied
    pub some_tied : 0 < length tied

  IsTied-step :
      (pre : List KeyState) (x : KeyState) (best : ℕ) (tied : List ℕ)
      → IsTied pre best tied
      → best ≤ score x
      → IsTied (pre ++ x ∷ []) best tied
  IsTied-step pre x best tied h le = record {
    least = All-append _ pre (x ∷ []) h.least (le, tt);
    attained =
        All-imp _ _ tied (λ j (y, e, s). (y, get_elem?-append_left pre (x ∷ []) j e, s)) h.attained;
    some_tied = h.some_tied;
  }

  here : (pre : List KeyState) (x : KeyState) → ScoreAt (pre ++ x ∷ []) (score x) (length pre)
  here pre x = (x, get_elem?-append_length pre x, refl)

  IsTied-less :
      (pre : List KeyState) (x : KeyState) (best : ℕ) (tied : List ℕ)
      → IsTied pre best tied
      → score x < best
      → IsTied (pre ++ x ∷ []) (score x) (length pre ∷ [])
  IsTied-less pre x best tied h lt = record {
    least =
        All-append _ pre (x ∷ []) (All-imp _ _ pre (λ y le. omega arith) h.least) (omega arith, tt);
    attained = (here pre x, tt);
    some_tied = omega arith;
  }

  IsTied-equal :
      (pre : List KeyState) (x : KeyState) (tied : List ℕ)
      → IsTied pre (score x) tied
      → IsTied (pre ++ x ∷ []) (score x) (tied ++ length pre ∷ [])
  IsTied-equal pre x tied h =
      let old = IsTied-step pre x (score x) tied h (omega arith) in
      record {
        least = old.least;
        attained = All-append _ tied _ old.attained (here pre x, tt);
        some_tied = omega (arith, length-append tied (length pre ∷ []), h.some_tied);
      }

  -- One round of the loop.
  IsTied-next :
      (pre : List KeyState) (x : KeyState) (i best : ℕ) (tied : List ℕ)
      → i ≡ length pre
      → IsTied pre best tied
      → IsTied
          (pre ++ x ∷ [])
          (if ltb (score x) best then score x else best)
          (if ltb (score x) best then i ∷ [] else if score x == best then tied ++ i ∷ [] else tied)
  IsTied-next pre x i best tied at h = rw at (elim (Bool-cases (ltb (score x) best)) [
    | inl lt ↦ rw lt (IsTied-less pre x best tied h (ltb→lt _ _ lt))
    | inr ge ↦ elim (Bool-cases (score x == best)) [
      | inl e ↦
          let e' : best ≡ score x = sym ((==_iff _ _).0 e) in
          rw (ge, e)
            (subst (λ b. IsTied (pre ++ x ∷ []) b (tied ++ length pre ∷ [])) (sym e')
              (IsTied-equal pre x tied (subst (λ b. IsTied pre b tied) e' h)))
      | inr ne ↦ rw (ge, ne) (IsTied-step pre x best tied h (ground arith))
    ]
  ])

  tied_from-IsTied :
      (pre xs : List KeyState) (i best : ℕ) (tied : List ℕ)
      → i ≡ length pre
      → IsTied pre best tied
      → (v : ℕ) × IsTied (pre ++ xs) v (tied_from score i best tied xs)
  unfolding tied_from
  tied_from-IsTied pre [] i best tied e h = (best, rw append-nil h)
  tied_from-IsTied pre (x ∷ xs) i best tied e h =
      subst (λ l. (v : ℕ) × IsTied l v (tied_from score i best tied (x ∷ xs)))
        (append_assoc pre (x ∷ []) xs)
        (tied_from-IsTied (pre ++ x ∷ []) xs (i + 1) _ _
          (omega (arith, e, length-append pre (x ∷ []))) (IsTied-next pre x i best tied e h))

  -- `pick_min` answers with a position whose score is the least of all.
  pub pick_min-least :
      (c : ℕ) (x : KeyState) (xs : List KeyState)
      → (j : ℕ) × (y : KeyState) × ((pick_min c score (x ∷ xs)).1 ≡ pos j)
        × (get_elem? (x ∷ xs) j ≡ some y)
        × All (λ z. score y ≤ score z) (x ∷ xs)
  unfolding pick_min
  pick_min-least c x xs =
      let tied = tied_from score 1 (score x) (0 ∷ []) xs in
      let (v, h) = tied_from-IsTied (x ∷ []) xs 1 (score x) (0 ∷ []) refl (record {
        least = (omega arith, tt);
        attained = ((x, refl, refl), tt);
        some_tied = omega arith;
      }) in
      let pos_tied : 0 < length tied = h.some_tied in
      let (j, e) = get_elem?_of_lt tied (c % length tied) (omega arith) in
      let (y, at, s) = All-get_elem? (ScoreAt (x ∷ xs) v) tied (c % length tied) h.attained e in
      (
        j,
        y,
        ap pos (get_or-get_elem? tied (c % length tied) 0 e),
        at,
        subst (λ b. All (λ z. b ≤ score z) (x ∷ xs)) (sym s) h.least,
      )

  pub pick_min-in_bounds :
      (c : ℕ) (x : KeyState) (xs : List KeyState)
      → in_range (pick_min c score (x ∷ xs)).1 (length (x ∷ xs)) ≡ true
  pick_min-in_bounds c x xs =
      let (j, y, e, at, least) = pick_min-least c x xs in
      rw e (lt→ltb j _ (get_elem?-lt (x ∷ xs) j at))

pub round_robin-IsPolicy : IsPolicy round_robin
unfolding round_robin
round_robin-IsPolicy = record { in_bounds = λ c x xs. ground arith }

pub least_used-IsPolicy : IsPolicy least_used
unfolding least_used
least_used-IsPolicy = record { in_bounds = λ c x xs. pick_min-in_bounds by_load c x xs }

pub least_tokens-IsPolicy : IsPolicy least_tokens
unfolding least_tokens
least_tokens-IsPolicy = record {
  in_bounds = λ c x xs.
      ground (arith, pick_min-in_bounds by_load c x xs, pick_min-in_bounds (λ k. k.tokens) c x xs);
}

-- The least-used policy never picks a key that is busier than another candidate, whatever its
-- cursor.
pub least_used-least :
    (c : ℕ) (x : KeyState) (xs : List KeyState)
    → (j : ℕ) × (y : KeyState) × ((least_used c (x ∷ xs)).1 ≡ pos j)
      × (get_elem? (x ∷ xs) j ≡ some y)
      × All (λ z. y.requests + y.in_flight ≤ z.requests + z.in_flight) (x ∷ xs)
unfolding least_used by_load
least_used-least c x xs = pick_min-least by_load c x xs
