-- ===== src/Router/Kept.antt =====
-- What a candidate gets of the caller's body.
use llm_cluster_router.Prelude.{
  ℕ, ◌≡◌, refl, sym, ◌∙◌, inl, inr, List, [], ◌∷◌, Option, none, some, Bool, true, false, ◌==◌,
  length, Bool-cases, Option-cases, subst, arith,
}
use mathlib.Core.Option
use llm_cluster_router.Prelude.Bytes.{bytes_eq}
use llm_cluster_router.Prelude.Texts.{bytes_eq_sound}
use llm_cluster_router.SmartRoute.Rewrite.{model_key, lookup_key, set_key, lookup-set_key_ne}
use llm_cluster_router.Router.Body.{
  Payload, Decoded, object, Edited, unedited, edit_panics, edited, from_encoder, add_defaults,
  encode_if, merge_request_defaults, with_defaults, rewrite_to, apply_model_rewrite, forward_body,
}

lookup-add_defaults :
    (k : List ℕ) (ds payload : Payload) (changed : Bool) {v : List ℕ}
    → lookup_key k payload ≡ some v
    → lookup_key k (add_defaults ds payload changed).0 ≡ some v
unfolding add_defaults
lookup-add_defaults k [] payload changed h = h
lookup-add_defaults k ((j, w) ∷ ds) payload changed {v} h = elim (Bool-cases (length j == 0)) [
  | inl e ↦ rw (add_defaults, e) (lookup-add_defaults k ds payload changed h)
  | inr e ↦ elim (Option-cases (lookup_key j payload)) [
    | inr (x, present) ↦ rw (add_defaults, e, present) (lookup-add_defaults k ds payload changed h)
    | inl free ↦ elim (Bool-cases (bytes_eq j k)) [
      | inl same ↦
          let gone : none ≡ some v =
            sym free
            ∙ subst (λ i. lookup_key i payload ≡ some v) (sym (bytes_eq_sound j k same)) h in
          absurd (ground (arith, gone))
      | inr other ↦
          rw (add_defaults, e, free)
            (lookup-add_defaults k ds (set_key j w payload) true
              (lookup-set_key_ne j k w payload other ∙ h))
    ]
  ]
]

module _ (canon : List ℕ → List ℕ) where
  -- A value that was there is there, up to the form that the encoder gives it.
  abbrev pub IsKept : Option (List ℕ) → Option (List ℕ) → Type 0
  IsKept none after = Unit
  IsKept (some v) none = ⊥
  IsKept (some v) (some w) = canon w ≡ canon v

  IsKept-refl : (o : Option (List ℕ)) → IsKept o o
  IsKept-refl none = tt
  IsKept-refl (some v) = refl

  IsKept-add_defaults :
      (k : List ℕ) (ds payload : Payload) (o : Option (List ℕ))
      → IsKept o (lookup_key k payload)
      → IsKept o (lookup_key k (add_defaults ds payload false).0)
  IsKept-add_defaults k ds payload none h = tt
  IsKept-add_defaults k ds payload (some v) h = elim (Option-cases (lookup_key k payload)) [
    | inl e ↦ absurd (subst (IsKept (some v)) e h)
    | inr (w, e) ↦
        subst (IsKept (some v)) (sym (lookup-add_defaults k ds payload false e))
          (subst (IsKept (some v)) e h)
  ]

  IsKept-canon :
      ((v : List ℕ) → canon (canon v) ≡ canon v)
      → (o after : Option (List ℕ)) → IsKept o after
      → IsKept o (Option.map canon after)
  IsKept-canon idem none after h = tt
  IsKept-canon idem (some v) none h = h
  IsKept-canon idem (some v) (some w) h = idem w ∙ h

module _ (decode : List ℕ → Decoded) (encode : Payload → Option (List ℕ))
    (canon : List ℕ → List ℕ) where
  -- What the program relies on of encoding/json: what is encoded is read back as an object with the same
  -- keys, each with its value in the form that the encoder gives it, which is compact and has some
  -- characters escaped; and a value that has this form keeps it.
  pub record IsCodec : Type 0 where
    pub reads :
        (p : Payload) (b : List ℕ)
        → encode p ≡ some b
        → (p' : Payload) × (decode b ≡ object p')
          × ((k : List ℕ) → lookup_key k p' ≡ Option.map canon (lookup_key k p))
    pub canon_idem : (v : List ℕ) → canon (canon v) ≡ canon v

  -- A body that is an object, with what was there for a key.
  abbrev pub HasKept : List ℕ → Option (List ℕ) → List ℕ → Type 0
  HasKept k o body = (p : Payload) × (decode body ≡ object p) × IsKept canon o (lookup_key k p)

  -- What is made of it: such a body, or nil, and no panic.
  abbrev Keeps : List ℕ → Option (List ℕ) → Edited → Type 0
  Keeps k o unedited = Unit
  Keeps k o edit_panics = ⊥
  Keeps k o (edited b) = HasKept k o b

  -- Such a body, and neither nil nor a panic.
  abbrev pub Sends : List ℕ → Option (List ℕ) → Edited → Type 0
  Sends k o e = (b : List ℕ) × (e ≡ edited b) × HasKept k o b

  module _ (codec : IsCodec) (k : List ℕ) (o : Option (List ℕ)) where
    encoder-Keeps :
        (p : Payload) → IsKept canon o (lookup_key k p) → Keeps k o (from_encoder (encode p))
    encoder-Keeps p at = elim (Option-cases (encode p)) [
      | inl e ↦ rw e tt
      | inr (b, e) ↦
          let (p', d, same) = codec.reads p b e in
          let kept = IsKept-canon canon codec.canon_idem o (lookup_key k p) at in
          rw e (p', d, subst (IsKept canon o) (sym (same k)) kept)
    ]

    encode_if-Keeps :
        (r : Payload × Bool)
        → IsKept canon o (lookup_key k r.0)
        → Keeps k o (encode_if decode encode r)
    unfolding encode_if
    encode_if-Keeps (p, true) at = encoder-Keeps p at
    encode_if-Keeps (p, false) at = tt

    merge-Keeps :
        (body : List ℕ) (ds : Payload)
        → HasKept k o body
        → Keeps k o (merge_request_defaults decode encode body ds)
    unfolding merge_request_defaults
    merge-Keeps body [] h = tt
    merge-Keeps body (d ∷ ds) (p, read, at) =
        rw (read, merge_request_defaults)
          (encode_if-Keeps (add_defaults (d ∷ ds) p false)
            (IsKept-add_defaults canon k (d ∷ ds) p o at))

    with_defaults-Sends :
        (body : List ℕ) (ds : Payload)
        → HasKept k o body
        → Sends k o (with_defaults decode encode body ds)
    unfolding with_defaults
    with_defaults-Sends body ds h =
        go (merge_request_defaults decode encode body ds) (merge-Keeps body ds h)
      where
        go :
            (e : Edited)
            → Keeps k o e
            → Sends k o (elim e [
              | unedited ↦ edited body
              | edit_panics ↦ edit_panics
              | edited b ↦ edited b
            ])
        go unedited kept = (body, refl, h)
        go edit_panics kept = absurd kept
        go (edited b) kept = (b, refl, kept)

    module _ (extract : List ℕ → List ℕ) (quote : List ℕ → Option (List ℕ))
        (other : bytes_eq model_key k ≡ false) where
      rewrite_to-Keeps :
          (body to : List ℕ)
          → HasKept k o body
          → Keeps k o (rewrite_to decode encode extract quote body to)
      unfolding rewrite_to
      rewrite_to-Keeps body to (p, read, at) = elim (Option-cases (quote to)) [
        | inl e ↦ rw (read, e, rewrite_to) tt
        | inr (q, e) ↦
            rw (read, e, rewrite_to)
              (encoder-Keeps (set_key model_key q p)
                (subst (IsKept canon o) (sym (lookup-set_key_ne model_key k q p other)) at))
      ]

      rewrite-Keeps :
          (body : List ℕ) (rewrites : Payload)
          → HasKept k o body
          → Keeps k o (apply_model_rewrite decode encode extract quote body rewrites)
      unfolding apply_model_rewrite
      rewrite-Keeps body rewrites has = elim (Option-cases (lookup_key (extract body) rewrites)) [
        | inl e ↦ rw (e, apply_model_rewrite) tt
        | inr (to, e) ↦ elim (Bool-cases (length to == 0)) [
          | inl f ↦ rw (e, f, apply_model_rewrite) tt
          | inr f ↦ elim (Bool-cases (bytes_eq to (extract body))) [
            | inl g ↦ rw (e, f, g, apply_model_rewrite) tt
            | inr g ↦ rw (e, f, g, apply_model_rewrite) (rewrite_to-Keeps body to has)
          ]
        ]
      ]

      forward-Sends :
          (body : List ℕ) (rewrites defaults : Payload)
          → HasKept k o body
          → Sends k o (forward_body decode encode extract quote body rewrites defaults)
      unfolding forward_body
      forward-Sends body rewrites defaults has =
          go (apply_model_rewrite decode encode extract quote body rewrites)
            (rewrite-Keeps body rewrites has)
        where
          go :
              (e : Edited)
              → Keeps k o e
              → Sends k o (elim e [
                | unedited ↦ with_defaults decode encode body defaults
                | edit_panics ↦ edit_panics
                | edited b ↦ with_defaults decode encode b defaults
              ])
          go unedited kept = with_defaults-Sends body defaults has
          go edit_panics kept = absurd kept
          go (edited b) kept = with_defaults-Sends b defaults kept

  -- Whatever the rewrites and the defaults of a node are, a body that is an object is sent on as an
  -- object, without a panic; and for any key but the model, what the caller has set stays, up to the
  -- form that the encoder of JSON gives to a value. A key that the caller has not set may get a default.
  pub forward_body-Sends :
      IsCodec
      → (extract : List ℕ → List ℕ) (quote : List ℕ → Option (List ℕ)) (k body : List ℕ)
        (rewrites defaults p : Payload)
      → bytes_eq model_key k ≡ false
      → decode body ≡ object p
      → Sends k (lookup_key k p) (forward_body decode encode extract quote body rewrites defaults)
  forward_body-Sends codec extract quote k body rewrites defaults p other read =
      forward-Sends codec k (lookup_key k p) extract quote other body rewrites defaults
        (p, read, IsKept-refl canon (lookup_key k p))
