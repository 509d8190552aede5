-- ===== src/RouterConfig/Hosts.antt =====
-- Which hosts a node may not have.
use llm_cluster_router.Prelude.{
  ℕ, ◌≡◌, ◌≢◌, refl, List, [], ◌∷◌, ◌++◌, true, false, ◌||◌, Bool-cases, inl, inr, subst, sym,
  arith,
}
use llm_cluster_router.Prelude.Bytes.{bytes_eq, has_suffix}
use llm_cluster_router.Prelude.Texts.{bytes_eq_refl}
use llm_cluster_router.RouterConfig.Nodes.{is_forbidden}

has_suffix_self : (s : List ℕ) → has_suffix s s ≡ true
unfolding has_suffix
has_suffix_self [] = bytes_eq_refl []
has_suffix_self (b ∷ bs) = rw (bytes_eq_refl (b ∷ bs)) refl

has_suffix-append : (p s : List ℕ) → has_suffix (p ++ s) s ≡ true
unfolding has_suffix
has_suffix-append [] s = has_suffix_self s
has_suffix-append (b ∷ bs) s = elim (Bool-cases (bytes_eq (b ∷ (bs ++ s)) s)) [
  | inl e ↦ rw e refl
  | inr e ↦ rw e (has_suffix-append bs s)
]

-- A host that is none of the suffixes, and no subdomain of one.
abbrev pub OutsideOf : List (List ℕ) → List ℕ → Type 0
OutsideOf [] host = Unit
OutsideOf (s ∷ ss) host = (host ≢ s) × ((sub : List ℕ) → host ≢ sub ++ 46 ∷ s) × OutsideOf ss host

pub is_forbidden-OutsideOf :
    (ss : List (List ℕ)) (host : List ℕ) → is_forbidden ss host ≡ false → OutsideOf ss host
unfolding is_forbidden
is_forbidden-OutsideOf [] host h = tt
is_forbidden-OutsideOf (s ∷ ss) host h =
    elim (Bool-cases (bytes_eq host s || has_suffix host (46 ∷ s))) [
      | inl e ↦ absurd (ground (arith, rw e at h))
      | inr e ↦ (
        (λ same.
            let equal : bytes_eq host s ≡ true =
              subst (λ x. bytes_eq host x ≡ true) same (bytes_eq_refl host) in
            absurd (ground (arith, e, equal))),
        (λ sub same.
            let ends : has_suffix host (46 ∷ s) ≡ true =
              subst (λ x. has_suffix x (46 ∷ s) ≡ true) (sym same)
                (has_suffix-append sub (46 ∷ s)) in
            absurd (ground (arith, e, ends))),
        is_forbidden-OutsideOf ss host (rw e at h),
      )
    ]
