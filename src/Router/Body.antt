-- ===== src/Router/Body.antt =====
-- The body of one hop: ApplyModelRewrite and MergeRequestDefaults of internal/router/helpers.go, and how
-- the failover loop of main.go applies them. `decode` reads a JSON value into a map, `encode` writes one and `quote`
-- a text; `extract` is ExtractModel, whose decoder matches keys in any case.
use llm_cluster_router.Prelude.{
  ℕ, List, [], ◌∷◌, Option, none, some, Bool, true, false, ◌==◌, if◌then◌else◌, length,
}
use llm_cluster_router.Prelude.Bytes.{bytes_eq}
use llm_cluster_router.SmartRoute.Rewrite.{model_key, lookup_key, set_key}

abbrev pub Payload : Type 0
Payload = List (List ℕ × List ℕ)

-- The loop of MergeRequestDefaults: the payload, and whether a default landed.
unfoldable pub add_defaults : Payload → Payload → Bool → Payload × Bool
unfolding lookup_key set_key
add_defaults [] payload changed = (payload, changed)
add_defaults ((k, v) ∷ ds) payload changed =
    let taken = lookup_key k payload in
    let skipped = add_defaults ds payload changed in
    let landed = add_defaults ds (set_key k v payload) true in
    if length k == 0 then skipped else elim taken [ none ↦ landed | some _ ↦ skipped ]

-- What decoding a body into a map yields: an error, the map that is nil, which `null` leaves, or an
-- object. Nothing can be put into a nil map: the assignment panics.
pub data Decoded : Type 0 where
  undecodable nil_map : Decoded
  object : Payload → Decoded

-- What is made of a body: nil, a panic, or another body.
pub data Edited : Type 0 where
  unedited edit_panics : Edited
  edited : List ℕ → Edited

abbrev pub from_encoder : Option (List ℕ) → Edited
from_encoder none = unedited
from_encoder (some b) = edited b

-- Whether a default has a name, so that the loop puts it into an empty map.
unfoldable pub has_named : Payload → Bool
has_named [] = false
has_named ((k, v) ∷ ds) = if length k == 0 then has_named ds else true

module _ (decode : List ℕ → Decoded) (encode : Payload → Option (List ℕ)) where
  -- The end of MergeRequestDefaults.
  unfoldable pub encode_if : Payload × Bool → Edited
  encode_if (payload, changed) = if changed then from_encoder (encode payload) else unedited

  -- `MergeRequestDefaults`.
  unfoldable pub merge_request_defaults : List ℕ → Payload → Edited
  unfolding add_defaults has_named encode_if
  merge_request_defaults body [] = unedited
  merge_request_defaults body (d ∷ ds) = elim (decode body) [
    | undecodable ↦ unedited
    | nil_map ↦ if has_named (d ∷ ds) then edit_panics else unedited
    | object payload ↦ encode_if (add_defaults (d ∷ ds) payload false)
  ]

  -- What follows the rewrite of the model.
  unfoldable pub with_defaults : List ℕ → Payload → Edited
  unfolding merge_request_defaults
  with_defaults fwd defaults = elim (merge_request_defaults fwd defaults) [
    | unedited ↦ edited fwd
    | edit_panics ↦ edit_panics
    | edited b ↦ edited b
  ]

  module _ (extract : List ℕ → List ℕ) (quote : List ℕ → Option (List ℕ)) where
    -- What follows the test of the name: the object with its new model.
    unfoldable pub rewrite_to : List ℕ → List ℕ → Edited
    unfolding set_key
    rewrite_to body to = elim (decode body) [
      | undecodable ↦ unedited
      | nil_map ↦ elim (quote to) [ none ↦ unedited | some _ ↦ edit_panics ]
      | object payload ↦ elim (quote to) [
        | none ↦ unedited
        | some q ↦ from_encoder (encode (set_key model_key q payload))
      ]
    ]

    -- `ApplyModelRewrite`. A lookup in an empty map finds nothing.
    unfoldable pub apply_model_rewrite : List ℕ → Payload → Edited
    unfolding lookup_key rewrite_to bytes_eq
    apply_model_rewrite body rewrites = elim (lookup_key (extract body) rewrites) [
      | none ↦ unedited
      | some to ↦
          if length to == 0
          then unedited
          else if bytes_eq to (extract body)
          then unedited
          else rewrite_to body to
    ]

    -- The body that a candidate is sent; never nil.
    unfoldable pub forward_body : List ℕ → Payload → Payload → Edited
    unfolding apply_model_rewrite with_defaults
    forward_body body rewrites defaults = elim (apply_model_rewrite body rewrites) [
      | unedited ↦ with_defaults body defaults
      | edit_panics ↦ edit_panics
      | edited b ↦ with_defaults b defaults
    ]
