-- ===== src/Selection/Choice.antt =====
-- The buckets of candidates that the selection of main.go builds, and the lowest of them.
use llm_cluster_router.Prelude.{
  ℕ, zero, suc, ◌+◌, ◌%◌, ◌^◌, ◌≡◌, ◌<◌, refl, sym, subst, List, [], ◌∷◌, ◌++◌, some, Bool, true,
  false, ◌&&◌, ltb, if◌then◌else◌, length, get_elem?, replicate, All, All-append, All-replicate,
  All-get_or, Bool-cases, inl, inr, some_inj, arith,
}
use llm_cluster_router.Prelude.Int.{ℤ}
use llm_cluster_router.Selection.Order.{
  lt_int, eq_int, eq_int_iff, lt_int_irrefl, lt_int-false_trans, lt_int_asym,
}
use llm_cluster_router.Selection.{
  Node, Query, consult, serves, add_candidates, visit, lowest, chosen, pick,
}

-- A node that passes every filter, the breaker's and the model's included.
abbrev pub Eligible : ℕ → Query → Node → Type 0
Eligible now q n = ((consult now q n).1 ≡ true) × (serves q n ≡ true)

abbrev pub takes : ℕ → Query → Node → Bool
takes now q n = (consult now q n).1 && serves q n

Eligible-takes : (now : ℕ) (q : Query) (n : Node) → Eligible now q n → takes now q n ≡ true
Eligible-takes now q n h = ground (arith, h.0, h.1)

-- The nodes that `buildReloadable` makes have a weight above 0.
abbrev pub Weighted : List Node → Type 0
Weighted nodes = All (λ n. 0 < n.weight) nodes

module _ (E : ℕ → ℤ → Type 0) where
  -- Every candidate of a bucket meets `E` at the priority of the bucket.
  abbrev pub IsBucket : ℤ × List ℕ → Type 0
  IsBucket b = (0 < length b.1) × All (λ i. E i b.0) b.1

  add_candidates-IsBucket :
      (p : ℤ) (w i : ℕ) (bs : List (ℤ × List ℕ))
      → 0 < w
      → E i p
      → All IsBucket bs
      → All IsBucket (add_candidates p w i bs)
  unfolding add_candidates
  add_candidates-IsBucket p zero i bs h e v = absurd (omega arith)
  add_candidates-IsBucket p (suc w) i [] h e v =
      ((omega arith, All-replicate (λ j. E j p) (suc w) e), tt)
  add_candidates-IsBucket p (suc w) i ((p', c) ∷ bs) h e v = elim (Bool-cases (eq_int p' p)) [
    | inl here ↦
        let e' : E i p' = subst (E i) (sym ((eq_int_iff p' p).0 here)) e in
        rw here (
          (
            grown c (suc w) i v.0.0,
            All-append (λ j. E j p') c (replicate (suc w) i) v.0.1
                (All-replicate (λ j. E j p') (suc w) e'),
          ),
          v.1,
        )
    | inr there ↦ rw there (v.0, add_candidates-IsBucket p (suc w) i bs h e v.1)
  ]
    where
      grown : (c : List ℕ) (k j : ℕ) → 0 < length c → 0 < length (c ++ replicate k j)
      grown [] k j l = absurd (omega arith)
      grown (x ∷ xs) k j l = omega arith

  pub visit-IsBucket :
      (now : ℕ) (q : Query) (i : ℕ) (ns : List Node) (bs : List (ℤ × List ℕ))
      → Weighted ns
      → ((k : ℕ) (n : Node) → get_elem? ns k ≡ some n → Eligible now q n → E (i + k) n.priority)
      → All IsBucket bs
      → All IsBucket (visit now q i ns bs).1
  unfolding visit
  visit-IsBucket now q i [] bs w f v = v
  visit-IsBucket now q i (n ∷ ns) bs w f v = elim (Bool-cases (takes now q n)) [
    | inl t ↦
        let e : E i n.priority =
          subst (λ j. E j n.priority) (omega arith) (f 0 n refl (ground arith, ground arith)) in
        rw t (
          visit-IsBucket now q (i + 1) ns _ w.1 next
            (add_candidates-IsBucket n.priority n.weight i bs w.0 e v))
    | inr other ↦ rw other (visit-IsBucket now q (i + 1) ns bs w.1 next v)
  ]
    where
      next :
          (k : ℕ) (m : Node) → get_elem? ns k ≡ some m → Eligible now q m → E (i + 1 + k) m.priority
      next k m at h = subst (λ j. E j m.priority) (omega arith) (f (suc k) m at h)

  pub lowest-IsBucket :
      (b : ℤ × List ℕ) (bs : List (ℤ × List ℕ))
      → IsBucket b
      → All IsBucket bs
      → IsBucket (lowest b bs)
  unfolding lowest
  lowest-IsBucket b [] h v = h
  lowest-IsBucket b (c ∷ cs) h v = elim (Bool-cases (lt_int c.0 b.0)) [
    | inl lt ↦ rw (lowest, lt) (lowest-IsBucket c cs v.0 v.1)
    | inr ge ↦ rw (lowest, ge) (lowest-IsBucket b cs h v.1)
  ]

-- Whether a priority has a bucket.
unfoldable pub has_bucket : ℤ → List (ℤ × List ℕ) → Bool
has_bucket p [] = false
has_bucket p (b ∷ bs) = if eq_int b.0 p then true else has_bucket p bs

has_bucket-add_candidates :
    (p p' : ℤ) (w i : ℕ) (bs : List (ℤ × List ℕ))
    → (has_bucket p' (add_candidates p' w i bs) ≡ true)
      × (has_bucket p bs ≡ true → has_bucket p (add_candidates p' w i bs) ≡ true)
unfolding add_candidates has_bucket
has_bucket-add_candidates p p' w i [] = (ground (arith, eq_int_iff p' p'), λ h. ground arith)
has_bucket-add_candidates p p' w i (b ∷ bs) =
    let (found, kept) = has_bucket-add_candidates p p' w i bs in
    (ground (arith, found), λ h. ground (arith, kept))

has_bucket-visit :
    (now : ℕ) (q : Query) (i : ℕ) (ns : List Node) (bs : List (ℤ × List ℕ)) (p : ℤ)
    → has_bucket p bs ≡ true
    → has_bucket p (visit now q i ns bs).1 ≡ true
unfolding visit
has_bucket-visit now q i [] bs p h = h
has_bucket-visit now q i (n ∷ ns) bs p h = elim (Bool-cases (takes now q n)) [
  | inl t ↦ rw t (
      has_bucket-visit now q (i + 1) ns _ p
        ((has_bucket-add_candidates p n.priority n.weight i bs).1 h))
  | inr other ↦ rw other (has_bucket-visit now q (i + 1) ns bs p h)
]

-- Every eligible node has a bucket.
pub visit_finds :
    (now : ℕ) (q : Query) (i : ℕ) (ns : List Node) (bs : List (ℤ × List ℕ)) (k : ℕ) (n : Node)
    → get_elem? ns k ≡ some n
    → Eligible now q n
    → has_bucket n.priority (visit now q i ns bs).1 ≡ true
unfolding visit
visit_finds now q i [] bs k n at h = ground arith
visit_finds now q i (m ∷ ns) bs zero n at h =
    let same : m ≡ n = some_inj at in
    let t : takes now q m ≡ true =
      subst (λ x. takes now q x ≡ true) (sym same) (Eligible-takes now q n h) in
    rw t (
      has_bucket-visit now q (i + 1) ns _ n.priority
        (rw same (has_bucket-add_candidates n.priority n.priority n.weight i bs).0))
visit_finds now q i (m ∷ ns) bs (suc k) n at h = visit_finds now q (i + 1) ns _ k n at h

lowest-le : (b : ℤ × List ℕ) (bs : List (ℤ × List ℕ)) → lt_int b.0 (lowest b bs).0 ≡ false
unfolding lowest
lowest-le b [] = lt_int_irrefl b.0
lowest-le b (c ∷ cs) = elim (Bool-cases (lt_int c.0 b.0)) [
  | inl lt ↦
      rw (lowest, lt)
        (lt_int-false_trans b.0 c.0 (lowest c cs).0 (lt_int_asym c.0 b.0 lt) (lowest-le c cs))
  | inr ge ↦ rw (lowest, ge) (lowest-le b cs)
]

lowest-least :
    (p : ℤ) (b : ℤ × List ℕ) (bs : List (ℤ × List ℕ))
    → has_bucket p bs ≡ true
    → lt_int p (lowest b bs).0 ≡ false
unfolding has_bucket lowest
lowest-least p b [] h = ground arith
lowest-least p b (c ∷ cs) h = elim (Bool-cases (lt_int c.0 b.0)) [
  | inl lt ↦ elim (Bool-cases (eq_int c.0 p)) [
    | inl here ↦ subst Above ((eq_int_iff c.0 p).0 here) (rw (lowest, lt) (lowest-le c cs))
    | inr there ↦ rw (lowest, lt) (lowest-least p c cs (rw there at h))
  ]
  | inr ge ↦ elim (Bool-cases (eq_int c.0 p)) [
    | inl here ↦
        subst Above ((eq_int_iff c.0 p).0 here)
          (rw (lowest, ge) (lt_int-false_trans c.0 b.0 (lowest b cs).0 ge (lowest-le b cs)))
    | inr there ↦ rw (lowest, ge) (lowest-least p b cs (rw there at h))
  ]
]
  where
    Above : ℤ → Type 0
    Above x = lt_int x (lowest b (c ∷ cs)).0 ≡ false

-- A bucket that is there is not above the lowest one.
pub lowest-least_cons :
    (p : ℤ) (b : ℤ × List ℕ) (bs : List (ℤ × List ℕ))
    → has_bucket p (b ∷ bs) ≡ true
    → lt_int p (lowest b bs).0 ≡ false
unfolding has_bucket
lowest-least_cons p b bs h = elim (Bool-cases (eq_int b.0 p)) [
  | inl here ↦
      subst (λ x. lt_int x (lowest b bs).0 ≡ false) ((eq_int_iff b.0 p).0 here) (lowest-le b bs)
  | inr there ↦ lowest-least p b bs (rw there at h)
]

pub pick-All : (P : ℕ → Type 0) (rr : ℕ) (c : List ℕ) (i : ℕ) → All P c → pick rr c ≡ chosen i → P i
unfolding pick
pick-All P rr [] i v h = ground arith
pick-All P rr (c ∷ cs) i v h = elim (Bool-cases (ltb (rr % 2 ^ 64) (2 ^ 63))) [
  | inl small ↦
      subst P (ground (arith, small))
        (All-get_or P (c ∷ cs) (rr % 2 ^ 64 % length (c ∷ cs)) c v.0 v)
  | inr large ↦ ground (arith, large)
]
