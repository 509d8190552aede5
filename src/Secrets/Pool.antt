-- ===== src/Secrets/Pool.antt =====
-- Key pools of internal/channel/secret.go: secretRefs, keySlots, declaredKeyCount, resolveKeyPool and
-- rejectDuplicateCredentials. The provider is any function that may keep a state of its own.
use llm_cluster_router.Prelude.{
  ℕ, ◌+◌, List, [], ◌∷◌, ◌++◌, Option, none, some, if◌then◌else◌, length, ◌==◌,
}
use llm_cluster_router.Prelude.Bytes.{bytes_eq, trim_space}
use llm_cluster_router.Config.Secret.{scheme_env, scheme_file}
use llm_cluster_router.Config.Route.{RouteConfig}
use llm_cluster_router.Secrets.{SecretError, Resolution}
use llm_cluster_router.Secrets.Resolver.{usable_or_error, value_of}

-- A reference, if its field is set.
abbrev named : List ℕ → List ℕ → List (List ℕ)
named scheme field = if length field == 0 then [] else (scheme ++ field) ∷ []

-- `secretRefs`: the reference, then the variable, then the file.
unfoldable pub secret_refs : List ℕ → List ℕ → List ℕ → List (List ℕ)
secret_refs ref env_name file_path =
    named [] ref ++ (named scheme_env env_name ++ named scheme_file file_path)

pub data SlotField : Type 0 where
  key_envs_field key_files_field key_refs_field : SlotField

-- A slot, by its label and its reference.
pub record KeySlot : Type 0 where
  pub field : SlotField
  pub index : ℕ
  pub ref : List ℕ

abbrev pub items_of : Option (List (List ℕ)) → List (List ℕ)
items_of none = []
items_of (some items) = items

unfoldable pub number_slots : SlotField → List ℕ → ℕ → List (List ℕ) → List KeySlot
number_slots field scheme i [] = []
number_slots field scheme i (x ∷ xs) =
    record { field = field; index = i; ref = scheme ++ x } ∷ number_slots field scheme (i + 1) xs

-- `keySlots`: the frozen order.
unfoldable pub key_slots : RouteConfig → List KeySlot
unfolding number_slots
key_slots r =
    number_slots key_envs_field scheme_env 0 (items_of r.key_envs)
    ++ (number_slots key_files_field scheme_file 0 (items_of r.key_files)
        ++ number_slots key_refs_field [] 0 (items_of r.key_refs))

-- `declaredKeyCount`.
unfoldable pub declared_key_count : RouteConfig → ℕ
declared_key_count r =
    length (items_of r.key_envs) + length (items_of r.key_files) + length (items_of r.key_refs)

pub data PoolError : Type 0 where
  slot_failed : KeySlot → SecretError → PoolError
  pool_empty : PoolError
  same_credential : KeySlot → KeySlot → PoolError

pub data PoolResult : Type 0 where
  pool_refused : PoolError → PoolResult
  pool_of : List (List ℕ) → PoolResult

unfoldable pub add_key : List ℕ → PoolResult → PoolResult
add_key v (pool_refused e) = pool_refused e
add_key v (pool_of vs) = pool_of (v ∷ vs)

module _ {S : Type 0} (sp : S → List ℕ → S × Resolution) where
  -- The loop over the slots.
  unfoldable pub resolve_slots : S → List KeySlot → S × PoolResult
  unfolding usable_or_error trim_space add_key
  resolve_slots s [] = (s, pool_of [])
  resolve_slots s (k ∷ ks) =
      let asked = sp s k.ref in
      elim (usable_or_error k.ref asked.1) [
        | none ↦
            let rest = resolve_slots asked.0 ks in
            (rest.0, add_key (trim_space (value_of asked.1)) rest.1)
        | some e ↦ (asked.0, pool_refused (slot_failed k e))
      ]

-- `firstAt`: the slot that a value was first seen at.
unfoldable pub first_at : List ℕ → List (List ℕ × KeySlot) → Option KeySlot
unfolding bytes_eq
first_at v [] = none
first_at v ((w, k) ∷ seen) = if bytes_eq w v then some k else first_at v seen

-- `rejectDuplicateCredentials`, over the keys and the slots from one position on.
unfoldable pub same_credential_in :
    List (List ℕ × KeySlot) → List (List ℕ) → List KeySlot → Option PoolError
unfolding first_at
same_credential_in seen [] slots = none
same_credential_in seen (v ∷ vs) [] = none
same_credential_in seen (v ∷ vs) (k ∷ ks) = elim (first_at v seen) [
  | none ↦ same_credential_in ((v, k) ∷ seen) vs ks
  | some j ↦ some (same_credential k j)
]

-- The tests behind the loop: no key at all, and two slots with one credential.
unfoldable pub check_pool : List KeySlot → PoolResult → PoolResult
unfolding same_credential_in
check_pool slots (pool_refused e) = pool_refused e
check_pool slots (pool_of []) = pool_refused pool_empty
check_pool slots (pool_of (v ∷ vs)) = elim (same_credential_in [] (v ∷ vs) slots) [
  | none ↦ pool_of (v ∷ vs)
  | some e ↦ pool_refused e
]

module _ {S : Type 0} (sp : S → List ℕ → S × Resolution) where
  -- `resolveKeyPool`.
  unfoldable pub resolve_key_pool : S → RouteConfig → S × PoolResult
  unfolding key_slots resolve_slots check_pool
  resolve_key_pool s r =
      let read = resolve_slots sp s (key_slots r) in (read.0, check_pool (key_slots r) read.1)
