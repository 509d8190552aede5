-- ===== src/PiiRoute.antt =====
-- Personal information in a request: internal/piiroute/piiroute.go, as far as it does not depend on
-- what a regular expression matches. Text is a list of character codes, and the candidates and the
-- two keyword tests that regular expressions find are arguments.
pub mod Checksums
use llm_cluster_router.Prelude.{
  ℕ, ◌+◌, ◌-◌, ◌*◌, ◌%◌, List, [], ◌∷◌, String, Bool, true, false, ◌&&◌, ◌||◌, not, ltb, leb,
  ◌==◌ as eq_nat, if◌then◌else◌, length,
}
use llm_cluster_router.Prelude.Maps.{◌==◌}

-- `keepDigits`.
unfoldable pub keep_digits : List ℕ → List ℕ
keep_digits [] = []
keep_digits (c ∷ cs) = let rest = keep_digits cs in if leb 48 c && leb c 57 then c ∷ rest else rest

-- What a digit adds to the sum of `luhnValid`.
unfoldable pub luhn_digit : Bool → ℕ → ℕ
luhn_digit alt d = if alt then (if ltb 9 (d * 2) then d * 2 - 9 else d * 2) else d

-- The loop of `luhnValid`, which starts at the last digit: the sum, and whether the next digit
-- counts twice.
unfoldable pub luhn_loop : List ℕ → ℕ × Bool
unfolding luhn_digit
luhn_loop [] = (0, false)
luhn_loop (c ∷ cs) = let rest = luhn_loop cs in (rest.0 + luhn_digit rest.1 (c - 48), not rest.1)

unfoldable pub luhn_valid : List ℕ → Bool
unfolding luhn_loop
luhn_valid digits = eq_nat ((luhn_loop digits).0 % 10) 0

abbrev pub tfn_weights : List ℕ
tfn_weights = 1 ∷ 4 ∷ 3 ∷ 7 ∷ 5 ∷ 8 ∷ 6 ∷ 9 ∷ 2 ∷ []

unfoldable pub weighted_sum : List ℕ → List ℕ → ℕ
weighted_sum [] ws = 0
weighted_sum (c ∷ cs) [] = 0
weighted_sum (c ∷ cs) (w ∷ ws) = (c - 48) * w + weighted_sum cs ws

-- `tfnValid`.
unfoldable pub tfn_valid : List ℕ → Bool
unfolding weighted_sum
tfn_valid digits =
    if eq_nat (length digits) 9 then eq_nat (weighted_sum digits tfn_weights % 11) 0 else false

-- `strings.ContainsAny(m, " .-")`.
unfoldable pub is_grouped : List ℕ → Bool
is_grouped [] = false
is_grouped (c ∷ cs) = if eq_nat c 32 || eq_nat c 46 || eq_nat c 45 then true else is_grouped cs

-- The switch of `panOrTFN` for one candidate.
unfoldable pub confirms : Bool → Bool → List ℕ → Bool
unfolding keep_digits luhn_valid tfn_valid is_grouped
confirms card_ctx tfn_ctx m =
    let digits = keep_digits m in
    if eq_nat (length digits) 9 && tfn_valid digits
    then tfn_ctx || is_grouped m
    else if leb 13 (length digits) && luhn_valid digits
    then card_ctx || is_grouped m
    else false

-- `panOrTFN`, over the candidates.
unfoldable pub pan_or_tfn : Bool → Bool → List (List ℕ) → Bool
unfolding confirms
pan_or_tfn card_ctx tfn_ctx [] = false
pan_or_tfn card_ctx tfn_ctx (m ∷ ms) =
    let rest = pan_or_tfn card_ctx tfn_ctx ms in if confirms card_ctx tfn_ctx m then true else rest

-- `RuleArmed`.
unfoldable pub rule_armed : String → Bool → Bool
rule_armed mode any_local =
    if mode == "enforce" then true else if mode == "off" then false else any_local
