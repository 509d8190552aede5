-- ===== src/Config/Secret.antt =====
-- `validateSecretRef` of internal/channel/secret.go with schemeOf and parseOPRef. A space or a control
-- character is one of ASCII.
use llm_cluster_router.Prelude.{
  ℕ, List, [], ◌∷◌, Bool, true, false, ◌&&◌, ◌||◌, not, leb, ◌==◌, if◌then◌else◌, length, drop,
}
use llm_cluster_router.Prelude.Bytes.{starts_with}
use llm_cluster_router.Connect.Address.{split_at}

-- `env:`, `file:` and `op://`.
abbrev pub scheme_env : List ℕ
scheme_env = 101 ∷ 110 ∷ 118 ∷ 58 ∷ []

abbrev pub scheme_file : List ℕ
scheme_file = 102 ∷ 105 ∷ 108 ∷ 101 ∷ 58 ∷ []

abbrev pub scheme_op : List ℕ
scheme_op = 111 ∷ 112 ∷ 58 ∷ 47 ∷ 47 ∷ []

unfoldable pub has_unusable_byte : List ℕ → Bool
has_unusable_byte [] = false
has_unusable_byte (b ∷ bs) = if leb b 32 || b == 127 then true else has_unusable_byte bs

unfoldable pub are_segments : List (List ℕ) → Bool
unfolding has_unusable_byte
are_segments [] = true
are_segments (s ∷ ss) = if length s == 0 || has_unusable_byte s then false else are_segments ss

-- Whether `parseOPRef` reads the part behind the scheme; 47 is the slash.
unfoldable pub is_op_path : List ℕ → Bool
unfolding are_segments split_at
is_op_path path = let parts = split_at 47 path in length parts == 3 && are_segments parts

-- Whether `validateSecretRef` has no error.
unfoldable pub is_secret_ref : List ℕ → Bool
unfolding starts_with is_op_path
is_secret_ref ref =
    if length ref == 0
    then true
    else if starts_with ref scheme_env
    then not (length (drop (length scheme_env) ref) == 0)
    else if starts_with ref scheme_file
    then not (length (drop (length scheme_file) ref) == 0)
    else if starts_with ref scheme_op
    then is_op_path (drop (length scheme_op) ref)
    else false
