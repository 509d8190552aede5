-- ===== src/Prelude/Maps.antt =====
-- Go maps keyed by strings, as association lists: the first entry for a key counts.
use text.Mathlib.Text.{◌==◌ as str_eq}
use text.Mathlib.TextEquality.{eq_iff}
use mathlib.Core.Option
use llm_cluster_router.Prelude.{
  ◌≡◌, Option, none, some, List, [], ◌∷◌, String, Bool, Bool-cases, some_inj, subst, inl, inr,
  arith, if◌then◌else◌, All,
}

infix 50 ◌==◌
abbrev pub ◌==◌ : String → String → Bool
s == t = str_eq s t

module _ {ℓ} {V : Type ℓ} where
  unfoldable pub lookup : String → List (String × V) → Option V
  lookup k [] = none
  lookup k ((j, v) ∷ m) = if j == k then some v else lookup k m

  -- Replace the value of a key that is present.
  unfoldable pub adjust : String → (V → V) → List (String × V) → List (String × V)
  adjust k f [] = []
  adjust k f ((j, v) ∷ m) = if j == k then (j, f v) ∷ m else (j, v) ∷ adjust k f m

  pub lookup-adjust :
      (k j : String) (f : V → V) (m : List (String × V))
      → lookup j (adjust k f m) ≡ (if k == j then Option.map f (lookup j m) else lookup j m)
  unfolding lookup adjust
  lookup-adjust k j f [] = ground arith
  lookup-adjust k j f ((i, v) ∷ m) =
      ground (arith, eq_iff k j, eq_iff i k, eq_iff i j, lookup-adjust k j f m)

-- A predicate on every value.
abbrev pub AllValues {ℓ κ} : {V : Type ℓ} → (V → Type κ) → List (String × V) → Type κ
AllValues P m = All (λ e. P e.1) m

module _ {ℓ κ} {V : Type ℓ} (P : V → Type κ) where
  pub AllValues-lookup :
      (k : String) (m : List (String × V)) {v : V} → AllValues P m → lookup k m ≡ some v → P v
  unfolding lookup
  AllValues-lookup k [] h e = ground arith
  AllValues-lookup k ((j, w) ∷ m) {v} h e = elim (Bool-cases (j == k)) [
    | inl here ↦ subst P (some_inj (rw here at e)) h.0
    | inr there ↦ AllValues-lookup k m h.1 (rw there at e)
  ]

  pub AllValues-adjust :
      (k : String) (v : V) (m : List (String × V))
      → P v
      → AllValues P m
      → AllValues P (adjust k (λ _. v) m)
  unfolding adjust
  AllValues-adjust k v [] p h = h
  AllValues-adjust k v ((j, w) ∷ m) p h = elim (Bool-cases (j == k)) [
    | inl here ↦ rw here (p, h.1)
    | inr there ↦ rw there (h.0, AllValues-adjust k v m p h.1)
  ]
