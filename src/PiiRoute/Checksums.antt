-- ===== src/PiiRoute/Checksums.antt =====
-- What the checksum of card numbers in internal/piiroute/piiroute.go detects.
use llm_cluster_router.Prelude.{
  ℕ, ◌+◌, ◌-◌, ◌≡◌, ◌≢◌, ◌<◌, refl, List, [], ◌∷◌, ◌++◌, Bool, true, false, arith,
}
use llm_cluster_router.PiiRoute.{luhn_digit, luhn_loop, luhn_valid}

luhn_digit-lt : (alt : Bool) (d : ℕ) → d < 10 → luhn_digit alt d < 10
unfolding luhn_digit
luhn_digit-lt true d h = ground arith
luhn_digit-lt false d h = ground arith

luhn_digit_inj :
    (alt : Bool) (d e : ℕ) → d < 10 → e < 10 → luhn_digit alt d ≡ luhn_digit alt e → d ≡ e
unfolding luhn_digit
luhn_digit_inj true d e h h' same = ground arith
luhn_digit_inj false d e h h' same = ground arith

-- The digits before a place add the same, whatever digit stands at the place.
luhn_loop_before :
    (pre : List ℕ) (x y : ℕ) (post : List ℕ)
    → ((luhn_loop (pre ++ x ∷ post)).0 + (luhn_loop (y ∷ post)).0
        ≡ (luhn_loop (pre ++ y ∷ post)).0 + (luhn_loop (x ∷ post)).0)
      × ((luhn_loop (pre ++ x ∷ post)).1 ≡ (luhn_loop (pre ++ y ∷ post)).1)
unfolding luhn_loop
luhn_loop_before [] x y post = (omega arith, refl)
luhn_loop_before (c ∷ pre) x y post =
    let (sum, same) = luhn_loop_before pre x y post in (rw same (omega (arith, sum)), rw same refl)

-- A card number with one digit misread is never valid: of two texts of digits that differ in one
-- place, at most one passes the checksum.
pub luhn_valid-one_digit :
    (pre post : List ℕ) (d e : ℕ)
    → d < 10
    → e < 10
    → d ≢ e
    → luhn_valid (pre ++ (48 + d) ∷ post) ≡ true
    → luhn_valid (pre ++ (48 + e) ∷ post) ≡ false
unfolding luhn_valid
luhn_valid-one_digit pre post d e hd he apart valid =
    let (sum, _) = luhn_loop_before pre (48 + d) (48 + e) post in
    let alt = (luhn_loop post).1 in
    let at_d : (luhn_loop ((48 + d) ∷ post)).0 ≡ (luhn_loop post).0 + luhn_digit alt d =
      unfold luhn_loop in rw (shifted d) refl in
    let at_e : (luhn_loop ((48 + e) ∷ post)).0 ≡ (luhn_loop post).0 + luhn_digit alt e =
      unfold luhn_loop in rw (shifted e) refl in
    let differ : luhn_digit alt d ≢ luhn_digit alt e =
      λ same. apart (luhn_digit_inj alt d e hd he same) in
    ground (arith, valid, sum, at_d, at_e, differ, luhn_digit-lt alt d hd, luhn_digit-lt alt e he)
  where
    shifted : (n : ℕ) → 48 + n - 48 ≡ n
    shifted n = omega arith
