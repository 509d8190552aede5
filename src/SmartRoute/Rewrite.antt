-- ===== src/SmartRoute/Rewrite.antt =====
-- `Rewrite` of internal/smartroute/smartroute.go. A payload is a list of keys and values, as decoding
-- a JSON object yields it, with each key once.
use llm_cluster_router.Prelude.{
  ℕ, ◌≡◌, ◌∙◌, List, [], ◌∷◌, Option, none, some, Bool, true, false, ◌&&◌, ◌==◌, if◌then◌else◌,
  length, Bool-cases, Option-cases, inl, inr, arith,
}
use llm_cluster_router.Prelude.Bytes.{bytes_eq}
use llm_cluster_router.Prelude.Texts.{bytes_eq_sound}
use llm_cluster_router.SmartRoute.Decide.{Source, source_explicit_model, source_disabled, Decision}

-- The bytes of `model`.
abbrev pub model_key : List ℕ
model_key = 109 ∷ 111 ∷ 100 ∷ 101 ∷ 108 ∷ []

-- Whether the decision leaves the body alone.
unfoldable pub keeps_body : Source → Bool
keeps_body source_disabled = true
keeps_body source_explicit_model = true
keeps_body s = false

-- A body: one that does not decode into a map, `null`, which leaves the map nil, or an object.
pub data Parsed (V : Type 0) : Type 0 where
  not_parsed parsed_null : Parsed V
  parsed : List (List ℕ × V) → Parsed V

-- The body as it came, `null` written anew, a panic because nothing can be put into a nil map, or a
-- payload to be written.
pub data Rewritten (V : Type 0) : Type 0 where
  body_kept null_written write_panics : Rewritten V
  rewritten : List (List ℕ × V) → Rewritten V

module _ {V : Type 0} where
  unfoldable pub lookup_key : List ℕ → List (List ℕ × V) → Option V
  unfolding bytes_eq
  lookup_key k [] = none
  lookup_key k ((j, v) ∷ m) = if bytes_eq j k then some v else lookup_key k m

  -- `payload[k] = v`.
  unfoldable pub set_key : List ℕ → V → List (List ℕ × V) → List (List ℕ × V)
  unfolding bytes_eq
  set_key k v [] = (k, v) ∷ []
  set_key k v ((j, w) ∷ m) =
      let rest = set_key k v m in if bytes_eq j k then (j, v) ∷ m else (j, w) ∷ rest

  -- The loop over the parameters: a key that is present stays.
  unfoldable pub add_params : List (List ℕ × V) → List (List ℕ × V) → List (List ℕ × V)
  unfolding lookup_key set_key
  add_params [] payload = payload
  add_params ((k, v) ∷ ps) payload = elim (lookup_key k payload) [
    | some _ ↦ add_params ps payload
    | none ↦ add_params ps (set_key k v payload)
  ]

  -- `Rewrite`, for the value that stands for a text.
  unfoldable pub rewrite : (List ℕ → V) → Decision V → Parsed V → Rewritten V
  unfolding add_params keeps_body
  rewrite text d b = if keeps_body d.source then body_kept else elim b [
    | not_parsed ↦ body_kept
    | parsed_null ↦
        if length d.model == 0 && length d.params == 0 then null_written else write_panics
    | parsed payload ↦
        if length d.model == 0
        then rewritten (add_params d.params payload)
        else rewritten (add_params d.params (set_key model_key (text d.model) payload))
  ]

  pub lookup-set_key_ne :
      (k j : List ℕ) (v : V) (m : List (List ℕ × V))
      → bytes_eq k j ≡ false
      → lookup_key j (set_key k v m) ≡ lookup_key j m
  unfolding lookup_key set_key
  lookup-set_key_ne k j v [] h = ground (arith, h)
  lookup-set_key_ne k j v ((i, w) ∷ m) h = elim (Bool-cases (bytes_eq i k)) [
    | inl here ↦
        let same : bytes_eq i j ≡ false = rw (bytes_eq_sound i k here) h in
        ground (arith, here, h, same)
    | inr there ↦ ground (arith, there, lookup-set_key_ne k j v m h)
  ]

  -- A parameter never replaces a value that is there.
  lookup-add_params :
      (k : List ℕ) (ps payload : List (List ℕ × V)) {v : V}
      → lookup_key k payload ≡ some v
      → lookup_key k (add_params ps payload) ≡ some v
  unfolding add_params
  lookup-add_params k [] payload h = h
  lookup-add_params k ((j, w) ∷ ps) payload {v} h = elim (Option-cases (lookup_key j payload)) [
    | inr (x, present) ↦ rw (add_params, present) (lookup-add_params k ps payload h)
    | inl free ↦ elim (Bool-cases (bytes_eq j k)) [
      | inl same ↦ absurd (clash free (rw (bytes_eq_sound j k same) h))
      | inr other ↦
          rw (add_params, free)
            (lookup-add_params k ps (set_key j w payload)
              (lookup-set_key_ne j k w payload other ∙ h))
    ]
  ]
    where
      clash : {o : Option V} → o ≡ none → o ≡ some v → ⊥
      clash e e' = ground (arith, e, e')

  -- What holds of the body that is sent on, of a payload.
  abbrev pub ForSent : (List (List ℕ × V) → Type 0) → List (List ℕ × V) → Rewritten V → Type 0
  ForSent P payload body_kept = P payload
  ForSent P payload null_written = ⊥
  ForSent P payload write_panics = ⊥
  ForSent P payload (rewritten p) = P p

  -- Rewriting an object does not panic, and never replaces a value that the caller has set, but for the
  -- model: every other key keeps its value, whatever the parameters of the decision are.
  pub rewrite-keeps :
      (text : List ℕ → V) (d : Decision V) (payload : List (List ℕ × V)) (k : List ℕ) (v : V)
      → bytes_eq model_key k ≡ false
      → lookup_key k payload ≡ some v
      → ForSent (λ p. lookup_key k p ≡ some v) payload (rewrite text d (parsed payload))
  unfolding rewrite
  rewrite-keeps text d payload k v other h = elim (Bool-cases (keeps_body d.source)) [
    | inl kept ↦ rw (rewrite, kept) h
    | inr routed ↦ elim (Bool-cases (length d.model == 0)) [
      | inl unnamed ↦ rw (rewrite, routed, unnamed) (lookup-add_params k d.params payload h)
      | inr named ↦
          rw (rewrite, routed, named)
            (lookup-add_params k d.params _
              (lookup-set_key_ne model_key k (text d.model) payload other ∙ h))
    ]
  ]
