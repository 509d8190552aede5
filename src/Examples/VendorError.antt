-- ===== src/Examples/VendorError.antt =====
-- A burst limit, the tail of a response that names it, and the digits of its code.
use llm_cluster_router.Prelude.{ℕ, ◌≡◌, ◌↔◌, ◌<◌, refl, List, [], ◌∷◌, ◌++◌, some, true}
use llm_cluster_router.Prelude.Int.{pos}
use llm_cluster_router.VendorError.{VendorSignal, vendor_rate_limited, retires}
use llm_cluster_router.VendorError.Parse.{
  status_code_field, base_resp_marker, parse_vendor_signal, vendor_retire_until,
}
use llm_cluster_router.VendorError.Signals.{vendor_retire_until-retires}

abbrev burst : VendorSignal
burst = record { code = pos 1002; class_ = vendor_rate_limited; reset_at = 0 }

-- The marker, the field, a colon, the digits of 1002 and a closing brace.
abbrev tail : List ℕ
tail = base_resp_marker ++ status_code_field ++ 58 ∷ 49 ∷ 48 ∷ 48 ∷ 50 ∷ 125 ∷ []

tail_burst : parse_vendor_signal 7 tail ≡ some burst
unfolding parse_vendor_signal
tail_burst = refl

vendor_retire_until-retires_example : (retires burst ≡ true) ↔ (7 < vendor_retire_until burst 7 0)
vendor_retire_until-retires_example = vendor_retire_until-retires burst 7 0
