-- ===== src/Config/Route.antt =====
-- One route of internal/channel/config.go: validateKeySources, validateAuthMode, validateKeyHeader,
-- validateRotation and validateBudget. `clean` is `filepath.Clean`.
use llm_cluster_router.Prelude.{
  ℕ, List, [], ◌∷◌, Option, none, some, Bool, true, false, ◌&&◌, ◌||◌, not, ltb, leb, ◌==◌,
  if◌then◌else◌, length,
}
use llm_cluster_router.Prelude.Int.{ℤ, pos, negsuc}
use llm_cluster_router.Prelude.Bytes.{bytes_eq, lower, trim_space}
use llm_cluster_router.Config.{
  ConfigError, mixed_sources, empty_sources, blank_source, duplicate_source, secret_ref_malformed,
  header_only_with_header_auth, credentials_required, credentials_forbidden, auth_unknown,
  key_header_required, key_header_malformed, key_header_hop_by_hop, key_header_host,
  rotation_forbidden, rotation_needs_pool, policy_unknown, policy_not_supported, soft_ratio_range,
  window_negative, window_required, estimate_required, max_retry_after_negative, Checked, rejected,
  accepted, and_then, refuse_if, or_default,
}
use llm_cluster_router.Config.Secret.{is_secret_ref}

-- `AuthMode`: inject, header and passthrough, or any other text.
pub data AuthMode : Type 0 where
  auth_inject auth_header_inject auth_passthrough auth_other : AuthMode

-- The float64 `SoftRatio`, as a fraction of a positive denominator.
pub record SoftRatio : Type 0 where
  pub num : ℤ
  pub den : ℕ

-- `Budget` as it is written.
pub record BudgetConfig : Type 0 where
  pub window : ℤ
  pub tokens : ℤ
  pub requests : ℤ
  pub soft_ratio : SoftRatio
  pub estimate_tokens : ℤ

pub record RotationConfig : Type 0 where
  pub policy : List ℕ
  pub budget : BudgetConfig
  pub max_retry_after : ℤ

-- `Route`. A list that the file does not have is `none`.
pub record RouteConfig : Type 0 where
  pub enabled : Bool
  pub name : List ℕ
  pub prefix : List ℕ
  pub upstream : List ℕ
  pub auth : AuthMode
  pub timeout : ℤ
  pub key_env : List ℕ
  pub key_file : List ℕ
  pub key_ref : List ℕ
  pub key_envs : Option (List (List ℕ))
  pub key_files : Option (List (List ℕ))
  pub key_refs : Option (List (List ℕ))
  pub key_header : List ℕ
  pub key_prefix : List ℕ
  pub rotation : Option RotationConfig

-- `hasSingularKeys` and `hasPluralKeys`.
unfoldable pub has_singular_keys : RouteConfig → Bool
has_singular_keys r =
    not (length r.key_env == 0) || (not (length r.key_file == 0) || not (length r.key_ref == 0))

abbrev pub is_set : Option (List (List ℕ)) → Bool
is_set o = elim o [ none ↦ false | some _ ↦ true ]

unfoldable pub has_plural_keys : RouteConfig → Bool
has_plural_keys r = is_set r.key_envs || (is_set r.key_files || is_set r.key_refs)

unfoldable pub is_among : List (List ℕ) → List ℕ → Bool
unfolding bytes_eq
is_among [] x = false
is_among (y ∷ ys) x = if bytes_eq y x then true else is_among ys x

-- `rejectDuplicateSources`, for the key of an entry.
unfoldable pub check_sources :
    (List ℕ → List ℕ) → List (List ℕ) → List (List ℕ) → Option ConfigError
unfolding is_among trim_space
check_sources key seen [] = none
check_sources key seen (x ∷ xs) =
    let later = check_sources key (key x ∷ seen) xs in
    if length (trim_space x) == 0
    then some blank_source
    else if is_among seen (key x)
    then some duplicate_source
    else later

-- One of the three lists.
unfoldable pub check_list : (List ℕ → List ℕ) → Option (List (List ℕ)) → Option ConfigError
unfolding check_sources
check_list key none = none
check_list key (some []) = some empty_sources
check_list key (some (x ∷ xs)) = check_sources key [] (x ∷ xs)

unfoldable pub are_secret_refs : List (List ℕ) → Bool
unfolding is_secret_ref
are_secret_refs [] = true
are_secret_refs (r ∷ rs) = if is_secret_ref r then are_secret_refs rs else false

abbrev first_error : Option ConfigError → Option ConfigError → Option ConfigError
first_error a b = elim a [ none ↦ b | some e ↦ some e ]

abbrev error_if : Bool → ConfigError → Option ConfigError
error_if b e = if b then some e else none

-- `validateKeySources`.
unfoldable pub validate_key_sources : (List ℕ → List ℕ) → RouteConfig → Option ConfigError
unfolding has_singular_keys has_plural_keys check_list are_secret_refs
validate_key_sources clean r =
    first_error (error_if (has_singular_keys r && has_plural_keys r) mixed_sources) (
      first_error (check_list (λ x. x) r.key_envs) (
        first_error (check_list clean r.key_files) (
          first_error (check_list (λ x. x) r.key_refs) (
            first_error (error_if (not (is_secret_ref r.key_ref)) secret_ref_malformed)
              (elim r.key_refs [
                | none ↦ none
                | some refs ↦ error_if (not (are_secret_refs refs)) secret_ref_malformed
              ])))))

-- The punctuation of a header name: !#$%&'*+-.^_`|~.
abbrev header_marks : List ℕ
header_marks = 33 ∷ 35 ∷ 36 ∷ 37 ∷ 38 ∷ 39 ∷ 42 ∷ 43 ∷ 45 ∷ 46 ∷ 94 ∷ 95 ∷ 96 ∷ 124 ∷ 126 ∷ []

unfoldable pub is_header_byte : ℕ → Bool
is_header_byte c =
    (leb 97 c && leb c 122)
    || ((leb 65 c && leb c 90) || ((leb 48 c && leb c 57) || is_mark header_marks))
  where
    is_mark : List ℕ → Bool
    is_mark [] = false
    is_mark (m ∷ ms) = if m == c then true else is_mark ms

unfoldable pub are_header_bytes : List ℕ → Bool
unfolding is_header_byte
are_header_bytes [] = true
are_header_bytes (c ∷ cs) = if is_header_byte c then are_header_bytes cs else false

-- `validHeaderName`.
unfoldable pub valid_header_name : List ℕ → Bool
unfolding are_header_bytes
valid_header_name name = not (length name == 0) && are_header_bytes name

-- `hopByHop` of internal/channel/forward.go.
abbrev pub hop_by_hop : List (List ℕ)
hop_by_hop =
    (99 ∷ 111 ∷ 110 ∷ 110 ∷ 101 ∷ 99 ∷ 116 ∷ 105 ∷ 111 ∷ 110 ∷ [])
    ∷ (107 ∷ 101 ∷ 101 ∷ 112 ∷ 45 ∷ 97 ∷ 108 ∷ 105 ∷ 118 ∷ 101 ∷ [])
    ∷ (112 ∷ 114 ∷ 111 ∷ 120 ∷ 121 ∷ 45 ∷ 97 ∷ 117 ∷ 116 ∷ 104 ∷ 101 ∷ 110 ∷ 116 ∷ 105 ∷ 99 ∷ 97
        ∷ 116 ∷ 101 ∷ [])
    ∷ (112 ∷ 114 ∷ 111 ∷ 120 ∷ 121 ∷ 45 ∷ 97 ∷ 117 ∷ 116 ∷ 104 ∷ 111 ∷ 114 ∷ 105 ∷ 122 ∷ 97 ∷ 116
        ∷ 105 ∷ 111 ∷ 110 ∷ [])
    ∷ (116 ∷ 101 ∷ [])
    ∷ (116 ∷ 114 ∷ 97 ∷ 105 ∷ 108 ∷ 101 ∷ 114 ∷ [])
    ∷ (116 ∷ 114 ∷ 97 ∷ 110 ∷ 115 ∷ 102 ∷ 101 ∷ 114 ∷ 45 ∷ 101 ∷ 110 ∷ 99 ∷ 111 ∷ 100 ∷ 105 ∷ 110
        ∷ 103 ∷ [])
    ∷ (117 ∷ 112 ∷ 103 ∷ 114 ∷ 97 ∷ 100 ∷ 101 ∷ [])
    ∷ []

-- `host`.
abbrev host_name : List ℕ
host_name = 104 ∷ 111 ∷ 115 ∷ 116 ∷ []

-- `validateKeyHeader`.
unfoldable pub validate_key_header : RouteConfig → Option ConfigError
unfolding valid_header_name is_among bytes_eq lower
validate_key_header r =
    if length r.key_header == 0
    then some key_header_required
    else if not (valid_header_name r.key_header)
    then some key_header_malformed
    else if is_among hop_by_hop (lower r.key_header)
    then some key_header_hop_by_hop
    else if bytes_eq (lower r.key_header) host_name
    then some key_header_host
    else none

-- The header settings that only one mode has.
unfoldable pub has_stray_header : RouteConfig → Bool
has_stray_header r = elim r.auth [
  | auth_header_inject ↦ false
  | _ ↦ not (length r.key_header == 0) || not (length r.key_prefix == 0)
]

-- `validateAuthMode`.
unfoldable pub validate_auth_mode : RouteConfig → Option ConfigError
unfolding has_stray_header has_singular_keys has_plural_keys validate_key_header
validate_auth_mode r =
    let has_keys = has_singular_keys r || has_plural_keys r in
    if has_stray_header r then some header_only_with_header_auth else elim r.auth [
      | auth_inject ↦ if has_keys then none else some credentials_required
      | auth_header_inject ↦ if has_keys then validate_key_header r else some credentials_required
      | auth_passthrough ↦ if has_keys then some credentials_forbidden else none
      | auth_other ↦ some auth_unknown
    ]

-- Whether the ratio is from 0 to 1.
unfoldable pub is_ratio : SoftRatio → Bool
is_ratio s = elim s.num [ pos n ↦ leb n s.den | negsuc _ ↦ false ]

abbrev pub is_positive : ℤ → Bool
is_positive x = elim x [ pos n ↦ ltb 0 n | negsuc _ ↦ false ]

abbrev is_negative : ℤ → Bool
is_negative x = elim x [ pos n ↦ false | negsuc _ ↦ true ]

-- A ratio of 0 is the default, 0.8.
unfoldable pub ratio_or_default : SoftRatio → SoftRatio
ratio_or_default s = elim s.num [
  | pos n ↦ if n == 0 then record { num = pos 4; den = 5 } else s
  | negsuc _ ↦ s
]

-- `validateBudget`.
unfoldable pub validate_budget : BudgetConfig → Checked BudgetConfig
unfolding is_ratio ratio_or_default
validate_budget b = refuse_if (not (is_ratio b.soft_ratio)) soft_ratio_range (
    refuse_if (is_negative b.window) window_negative (
      refuse_if (not (is_positive b.window) && (is_positive b.tokens || is_positive b.requests))
        window_required
        (refuse_if (is_positive b.tokens && not (is_positive b.estimate_tokens)) estimate_required
          (accepted (record b { soft_ratio = ratio_or_default b.soft_ratio })))))

-- The names of the policies, and the least-tokens one.
abbrev round_robin_name : List ℕ
round_robin_name = 114 ∷ 111 ∷ 117 ∷ 110 ∷ 100 ∷ 95 ∷ 114 ∷ 111 ∷ 98 ∷ 105 ∷ 110 ∷ []

abbrev least_used_name : List ℕ
least_used_name = 108 ∷ 101 ∷ 97 ∷ 115 ∷ 116 ∷ 95 ∷ 117 ∷ 115 ∷ 101 ∷ 100 ∷ []

abbrev least_tokens_name : List ℕ
least_tokens_name = 108 ∷ 101 ∷ 97 ∷ 115 ∷ 116 ∷ 95 ∷ 116 ∷ 111 ∷ 107 ∷ 101 ∷ 110 ∷ 115 ∷ []

-- Whether `NewPolicy` knows a name; the empty one is the round robin's.
unfoldable pub is_policy : List ℕ → Bool
unfolding bytes_eq
is_policy name =
    length name == 0
    || (bytes_eq name round_robin_name
        || (bytes_eq name least_used_name || bytes_eq name least_tokens_name))

-- One hour.
abbrev pub default_max_retry_after : ℕ
default_max_retry_after = 3_600_000_000_000

abbrev is_header_mode : AuthMode → Bool
is_header_mode a = elim a [ auth_header_inject ↦ true | _ ↦ false ]

-- `validateRotation` behind the test of the mode.
unfoldable pub check_rotation : RouteConfig → RotationConfig → Checked RotationConfig
unfolding has_plural_keys is_policy bytes_eq validate_budget or_default
check_rotation r rot = refuse_if (not (has_plural_keys r)) rotation_needs_pool (
    refuse_if (not (is_policy rot.policy)) policy_unknown (
      refuse_if (is_header_mode r.auth && bytes_eq rot.policy least_tokens_name)
        policy_not_supported
        (and_then (validate_budget rot.budget) (λ b.
          and_then (or_default max_retry_after_negative default_max_retry_after rot.max_retry_after)
            (λ w. accepted (record {
              policy = if length rot.policy == 0 then round_robin_name else rot.policy;
              budget = b;
              max_retry_after = w;
            }))))))

-- `validateRotation`: the route with its block as it is used.
unfoldable pub validate_rotation : RouteConfig → Checked RouteConfig
unfolding check_rotation
validate_rotation r = elim r.rotation [
  | none ↦ accepted r
  | some rot ↦ elim r.auth [
    | auth_passthrough ↦ rejected rotation_forbidden
    | _ ↦ and_then (check_rotation r rot) (λ rot'. accepted (record r { rotation = some rot' }))
  ]
]

-- `validateRouteAuth`.
unfoldable pub validate_route_auth : (List ℕ → List ℕ) → RouteConfig → Checked RouteConfig
unfolding validate_key_sources validate_auth_mode validate_rotation
validate_route_auth clean r = elim (validate_key_sources clean r) [
  | some e ↦ rejected e
  | none ↦ elim (validate_auth_mode r) [ some e ↦ rejected e | none ↦ validate_rotation r ]
]
