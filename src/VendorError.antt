-- ===== src/VendorError.antt =====
-- What an upstream's error means for its key: internal/channel/vendor_error.go. Bytes are numbers, an
-- instant is nanoseconds since Go's zero time, and the zero instant is 0.
pub mod Parse
pub mod Signals
use llm_cluster_router.Prelude.{
  ℕ, ◌+◌, ◌-◌, ◌*◌, ◌^◌, List, [], ◌∷◌, ◌++◌, Option, none, some, Bool, true, false, ◌&&◌, ◌||◌,
  ltb, leb, ◌==◌, if◌then◌else◌, length, drop,
}
use llm_cluster_router.Prelude.Int.{ℤ, pos, negsuc}
use llm_cluster_router.Rotation.Types.{
  RetireReason, reason_quota, reason_error, reason_rate_limit, reason_balance,
}

pub data VendorClass : Type 0 where
  vendor_none vendor_transient vendor_rate_limited vendor_quota_window : VendorClass
  vendor_balance vendor_request vendor_auth : VendorClass

-- 30 seconds, 15 minutes and 5 hours.
abbrev pub vendor_rate_cooldown : ℕ
vendor_rate_cooldown = 30_000_000_000

abbrev pub vendor_balance_cooldown : ℕ
vendor_balance_cooldown = 900_000_000_000

abbrev pub vendor_quota_fallback_window : ℕ
vendor_quota_fallback_window = 18_000_000_000_000

pub record VendorSignal : Type 0 where
  pub code : ℤ
  pub class_ : VendorClass
  pub reset_at : ℕ

-- `Retires`.
unfoldable pub retires : VendorSignal → Bool
retires v = elim v.class_ [
  | vendor_rate_limited ↦ true
  | vendor_quota_window ↦ true
  | vendor_balance ↦ true
  | _ ↦ false
]

-- `Reason`.
unfoldable pub reason : VendorSignal → RetireReason
reason v = elim v.class_ [
  | vendor_rate_limited ↦ reason_rate_limit
  | vendor_balance ↦ reason_balance
  | vendor_quota_window ↦ reason_quota
  | _ ↦ reason_error
]

abbrev pub is_one_of : ℕ → List ℕ → Bool
is_one_of x [] = false
is_one_of x (y ∷ ys) = if x == y then true else is_one_of x ys

-- `classifyVendorCode`.
unfoldable pub classify_vendor_code : ℤ → VendorClass
classify_vendor_code (negsuc _) = vendor_none
classify_vendor_code (pos code) =
    if code == 0
    then vendor_none
    else if is_one_of code (1002 ∷ 1041 ∷ 2045 ∷ [])
    then vendor_rate_limited
    else if code == 2056
    then vendor_quota_window
    else if code == 1008
    then vendor_balance
    else if is_one_of code (1004 ∷ 2049 ∷ [])
    then vendor_auth
    else if is_one_of code (1039 ∷ 2013 ∷ 1026 ∷ 1027 ∷ 1042 ∷ [])
    then vendor_request
    else if is_one_of code (1000 ∷ 1001 ∷ 1024 ∷ 1033 ∷ [])
    then vendor_transient
    else vendor_none

-- Whether bytes start with a marker.
unfoldable pub has_prefix : List ℕ → List ℕ → Bool
has_prefix bs [] = true
has_prefix [] (m ∷ ms) = false
has_prefix (b ∷ bs) (m ∷ ms) = if b == m then has_prefix bs ms else false

-- `b[bytes.Index(b, m):]`, and `none` for the index -1.
unfoldable pub from_first : List ℕ → List ℕ → Option (List ℕ)
unfolding has_prefix
from_first m [] = if has_prefix [] m then some [] else none
from_first m (b ∷ bs) =
    let rest = from_first m bs in if has_prefix (b ∷ bs) m then some (b ∷ bs) else rest

-- `b[bytes.LastIndex(b, m):]`.
unfoldable pub from_last : List ℕ → List ℕ → Option (List ℕ)
unfolding has_prefix
from_last m [] = if has_prefix [] m then some [] else none
from_last m (b ∷ bs) = elim (from_last m bs) [
  | none ↦ if has_prefix (b ∷ bs) m then some (b ∷ bs) else none
  | some later ↦ some later
]

-- The bytes that `parseIntAfter` skips: a colon, a blank, a tab, a line end or a quote.
abbrev pub is_skipped : ℕ → Bool
is_skipped b = is_one_of b (58 ∷ 32 ∷ 9 ∷ 10 ∷ 13 ∷ 34 ∷ [])

unfoldable pub skip : List ℕ → List ℕ
skip [] = []
skip (b ∷ bs) = if is_skipped b then skip bs else b ∷ bs

-- The leading decimal digits and their value, after `acc`.
unfoldable pub digits_from : ℕ → List ℕ → ℕ
digits_from acc [] = acc
digits_from acc (b ∷ bs) =
    if leb 48 b && leb b 57 then digits_from (acc * 10 + (b - 48)) bs else acc

abbrev pub starts_with_digit : List ℕ → Bool
starts_with_digit [] = false
starts_with_digit (b ∷ bs) = leb 48 b && leb b 57

-- `strconv.Atoi` of an optional sign and the digits: no digits and a value out of the range of an
-- int64 are errors.
unfoldable pub atoi : Bool → List ℕ → Option ℤ
unfolding digits_from
atoi negative bs =
    let n = digits_from 0 bs in
    if not_a_number
    then none
    else if negative
    then if ltb (2 ^ 63) n then none else some (negated n)
    else if leb (2 ^ 63) n
    then none
    else some (pos n)
  where
    not_a_number : Bool
    not_a_number = if starts_with_digit bs then false else true

    negated : ℕ → ℤ
    negated n = if n == 0 then pos 0 else negsuc (n - 1)

unfoldable pub parse_signed : List ℕ → Option ℤ
unfolding atoi
parse_signed [] = none
parse_signed (b ∷ bs) = if b == 45 then atoi true bs else atoi false (b ∷ bs)

-- `parseIntAfter`.
unfoldable pub parse_int_after : List ℕ → Option ℤ
unfolding skip parse_signed
parse_int_after bs = parse_signed (skip bs)

-- Midnight of 1 January 1970.
abbrev pub unix_epoch : ℕ
unix_epoch = 62_135_596_800_000_000_000

-- Seconds and milliseconds are told apart by their size.
abbrev pub reset_instant : ℕ → ℕ
reset_instant n =
    if ltb 100_000_000_000 n then unix_epoch + n * 1_000_000 else unix_epoch + n * 1_000_000_000

-- What one marker of the loop of `parseResetAt` yields; 0 goes on to the next.
unfoldable pub reset_after : ℕ → List ℕ → List ℕ → ℕ
unfolding from_first parse_int_after
reset_after now m b = elim (from_first m b) [
  | none ↦ 0
  | some found ↦ elim (parse_int_after (drop (length m) found)) [
    | none ↦ 0
    | some (negsuc _) ↦ 0
    | some (pos n) ↦ if leb n 0 then 0 else if ltb now (reset_instant n) then reset_instant n else 0
  ]
]

-- `parseResetAt`, over the list of markers.
unfoldable pub parse_reset_at : ℕ → List (List ℕ) → List ℕ → ℕ
unfolding reset_after
parse_reset_at now [] b = 0
parse_reset_at now (m ∷ ms) b =
    let rest = parse_reset_at now ms b in
    if reset_after now m b == 0 then rest else reset_after now m b
