-- ===== src/Usage.antt =====
-- What a response says it used: internal/channel/usage.go. Bytes are numbers. The loop of `Result`
-- runs on fuel; it has an outcome of its own for running out, which the callers' fuel never meets.
pub mod Tail
use llm_cluster_router.Prelude.{
  ℕ, zero, suc, ◌+◌, ◌-◌, ◌*◌, ◌^◌, List, [], ◌∷◌, ◌++◌, Option, none, some, Bool, true, false,
  ◌&&◌, ◌||◌, ltb, leb, ◌==◌, if◌then◌else◌, length, drop, take,
}
use llm_cluster_router.Prelude.Int.{ℤ, pos, negsuc}
use llm_cluster_router.VendorError.{has_prefix, is_one_of}
use llm_cluster_router.Rotation.Types.{UsageSample, outcome_completed}

-- `UsageTailBytes`, 8 KiB.
abbrev pub usage_tail_bytes : ℕ
usage_tail_bytes = 8192

-- The bytes of "total_tokens" in its quotes.
abbrev pub usage_marker : List ℕ
usage_marker = 34 ∷ 116 ∷ 111 ∷ 116 ∷ 97 ∷ 108 ∷ 95 ∷ 116 ∷ 111 ∷ 107 ∷ 101 ∷ 110 ∷ 115 ∷ 34 ∷ []

-- `Observe`: the tail keeps at most its last bytes.
unfoldable pub observe : List ℕ → List ℕ → List ℕ
observe tail chunk =
    if length chunk == 0
    then tail
    else if ltb usage_tail_bytes (length (tail ++ chunk))
    then drop (length (tail ++ chunk) - usage_tail_bytes) (tail ++ chunk)
    else tail ++ chunk

-- The reads of a body, one after another.
unfoldable pub observe_all : List ℕ → List (List ℕ) → List ℕ
unfolding observe
observe_all tail [] = tail
observe_all tail (c ∷ cs) = observe_all (observe tail c) cs

-- `skipSpace`, which yields the rest instead of its index.
unfoldable pub skip_space : List ℕ → List ℕ
skip_space [] = []
skip_space (b ∷ bs) = if is_one_of b (32 ∷ 9 ∷ 10 ∷ 13 ∷ []) then skip_space bs else b ∷ bs

-- `endsJSONValue`: a comma, a closing brace or bracket, or a space.
unfoldable pub ends_json_value : ℕ → Bool
ends_json_value c = is_one_of c (44 ∷ 125 ∷ 93 ∷ 32 ∷ 9 ∷ 10 ∷ 13 ∷ [])

abbrev pub is_digit : ℕ → Bool
is_digit b = leb 48 b && leb b 57

-- The digits of `parseUsageValue`, after `acc` and `seen` of them: the value, where a byte that can
-- end a JSON value follows and it fits an int64.
unfoldable pub value_digits : ℕ → ℕ → List ℕ → Option ℕ
unfolding ends_json_value
value_digits acc seen [] = none
value_digits acc seen (b ∷ bs) =
    let rest = value_digits (acc * 10 + (b - 48)) (suc seen) bs in
    if is_digit b
    then rest
    else if seen == 0
    then none
    else if ends_json_value b && ltb acc (2 ^ 63)
    then some acc
    else none

-- Behind the colon of `parseUsageValue`.
unfoldable pub after_colon : List ℕ → Option ℕ
unfolding skip_space value_digits
after_colon [] = none
after_colon (b ∷ bs) = if b == 58 then value_digits 0 0 (skip_space bs) else none

-- `parseUsageValue`.
unfoldable pub parse_usage_value : List ℕ → Option ℕ
unfolding skip_space after_colon
parse_usage_value b = after_colon (skip_space b)

-- `bytes.LastIndex`, and `none` for -1.
unfoldable pub last_index : List ℕ → List ℕ → Option ℕ
unfolding has_prefix
last_index m [] = if has_prefix [] m then some 0 else none
last_index m (b ∷ bs) = elim (last_index m bs) [
  | some i ↦ some (suc i)
  | none ↦ if has_prefix (b ∷ bs) m then some 0 else none
]

pub data Search : Type 0 where
  found : ℕ → Search
  absent out_of_fuel : Search

-- The loop of `Result`: the last marker whose value parses.
unfoldable pub search_from : ℕ → List ℕ → Search
unfolding last_index parse_usage_value
search_from zero rest = out_of_fuel
search_from (suc fuel) rest = elim (last_index usage_marker rest) [
  | none ↦ absent
  | some at ↦
      let earlier = search_from fuel (take at rest) in
      elim (parse_usage_value (drop (at + length usage_marker) rest)) [
        | some n ↦ found n
        | none ↦ earlier
      ]
]

-- `Result`.
unfoldable pub result : List ℕ → UsageSample
unfolding search_from
result tail = elim (search_from (suc (length tail)) tail) [
  | found n ↦ record { outcome = outcome_completed; tokens = pos n; estimated = false }
  | absent ↦ record { outcome = outcome_completed; tokens = negsuc 0; estimated = true }
  | out_of_fuel ↦ record { outcome = outcome_completed; tokens = negsuc 0; estimated = true }
]
