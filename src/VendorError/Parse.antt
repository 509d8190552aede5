-- ===== src/VendorError/Parse.antt =====
-- The reading of a response's tail in internal/channel/vendor_error.go, and the end of a retirement.
use llm_cluster_router.Prelude.{
  ℕ, ◌+◌, List, [], ◌∷◌, Option, none, some, ltb, ◌==◌, if◌then◌else◌, length, drop,
}
use llm_cluster_router.Prelude.Int.{ℤ}
use llm_cluster_router.VendorError.{
  vendor_none, vendor_rate_limited, vendor_quota_window, vendor_balance, vendor_rate_cooldown,
  vendor_balance_cooldown, vendor_quota_fallback_window, VendorSignal, classify_vendor_code,
  from_first, from_last, parse_int_after, parse_reset_at,
}

-- The bytes of "base_resp" in its quotes.
abbrev pub base_resp_marker : List ℕ
base_resp_marker = 34 ∷ 98 ∷ 97 ∷ 115 ∷ 101 ∷ 95 ∷ 114 ∷ 101 ∷ 115 ∷ 112 ∷ 34 ∷ []

-- The bytes of "status_code" in its quotes.
abbrev pub status_code_field : List ℕ
status_code_field = 34 ∷ 115 ∷ 116 ∷ 97 ∷ 116 ∷ 117 ∷ 115 ∷ 95 ∷ 99 ∷ 111 ∷ 100 ∷ 101 ∷ 34 ∷ []

-- The fields reset_at, reset_time, reset, next_reset_time and recovery_time, in their quotes.
abbrev pub reset_markers : List (List ℕ)
reset_markers =
    (34 ∷ 114 ∷ 101 ∷ 115 ∷ 101 ∷ 116 ∷ 95 ∷ 97 ∷ 116 ∷ 34 ∷ [])
    ∷ (34 ∷ 114 ∷ 101 ∷ 115 ∷ 101 ∷ 116 ∷ 95 ∷ 116 ∷ 105 ∷ 109 ∷ 101 ∷ 34 ∷ [])
    ∷ (34 ∷ 114 ∷ 101 ∷ 115 ∷ 101 ∷ 116 ∷ 34 ∷ [])
    ∷ (34 ∷ 110 ∷ 101 ∷ 120 ∷ 116 ∷ 95 ∷ 114 ∷ 101 ∷ 115 ∷ 101 ∷ 116 ∷ 95 ∷ 116 ∷ 105 ∷ 109 ∷ 101
        ∷ 34 ∷ [])
    ∷ (34 ∷ 114 ∷ 101 ∷ 99 ∷ 111 ∷ 118 ∷ 101 ∷ 114 ∷ 121 ∷ 95 ∷ 116 ∷ 105 ∷ 109 ∷ 101 ∷ 34 ∷ [])
    ∷ []

-- The part of the tail that is searched: from the last marker of the envelope on, else the whole.
unfoldable pub search_part : List ℕ → List ℕ
unfolding from_last
search_part tail = elim (from_last base_resp_marker tail) [ none ↦ tail | some part ↦ part ]

-- The field of the code in that part, else the last one in the tail, with what the reset is read
-- from.
unfoldable pub find_code : List ℕ → Option (List ℕ × List ℕ)
unfolding search_part from_first from_last
find_code tail = elim (from_first status_code_field (search_part tail)) [
  | some found ↦ some (found, search_part tail)
  | none ↦ elim (from_last status_code_field tail) [ none ↦ none | some found ↦ some (found, tail) ]
]

-- The signal of a code, which only a class that is known has.
unfoldable pub signal_of : ℕ → List ℕ → ℤ → Option VendorSignal
unfolding classify_vendor_code parse_reset_at
signal_of now search code = elim (classify_vendor_code code) [
  | vendor_none ↦ none
  | c ↦
      some (record { code = code; class_ = c; reset_at = parse_reset_at now reset_markers search })
]

-- What follows a code that is found and read.
unfoldable pub signal_at : ℕ → List ℕ → Option ℤ → Option VendorSignal
unfolding signal_of
signal_at now search none = none
signal_at now search (some code) = signal_of now search code

unfoldable pub signal_in : ℕ → Option (List ℕ × List ℕ) → Option VendorSignal
unfolding signal_at parse_int_after
signal_in now none = none
signal_in now (some (found, search)) =
    signal_at now search (parse_int_after (drop (length status_code_field) found))

-- `parseVendorSignal`, at the instant `now` of its clock; `none` is a false result.
unfoldable pub parse_vendor_signal : ℕ → List ℕ → Option VendorSignal
unfolding find_code signal_in
parse_vendor_signal now tail = if length tail == 0 then none else signal_in now (find_code tail)

-- `vendorRetireUntil`: 0 is the zero instant.
unfoldable pub vendor_retire_until : VendorSignal → ℕ → ℕ → ℕ
vendor_retire_until v now window_end = elim v.class_ [
  | vendor_rate_limited ↦ now + vendor_rate_cooldown
  | vendor_balance ↦ now + vendor_balance_cooldown
  | vendor_quota_window ↦
      if ltb now v.reset_at
      then v.reset_at
      else if ltb now window_end
      then window_end
      else now + vendor_quota_fallback_window
  | _ ↦ 0
]
