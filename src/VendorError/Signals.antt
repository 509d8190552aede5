-- ===== src/VendorError/Signals.antt =====
-- What the reading of a vendor's error and the retirement for it promise.
use llm_cluster_router.Prelude.{
  ℕ, ◌+◌, ◌-◌, ◌*◌, ◌^◌, ◌≡◌, ◌≢◌, ◌↔◌, ◌≤◌, ◌<◌, ◌⊎◌, ◌∙◌, ap, refl, inl, inr, List, [], ◌∷◌, ◌++◌,
  map, All, Option, none, some, true, false, ◌&&◌, leb, ◌==◌, length, drop, Bool-cases, arith,
}
use llm_cluster_router.Prelude.Int.{ℤ, pos}
use llm_cluster_router.VendorError.{
  vendor_none, VendorSignal, retires, classify_vendor_code, is_skipped, skip, digits_from, atoi,
  parse_signed, parse_int_after, reset_after, parse_reset_at,
}
use llm_cluster_router.VendorError.Parse.{
  reset_markers, find_code, signal_of, signal_at, signal_in, parse_vendor_signal,
  vendor_retire_until, status_code_field,
}

-- A signal takes its key out of rotation exactly when the end of the retirement lies in the future.
pub vendor_retire_until-retires :
    (v : VendorSignal) (now window_end : ℕ)
    → (retires v ≡ true) ↔ (now < vendor_retire_until v now window_end)
unfolding retires vendor_retire_until
vendor_retire_until-retires v now window_end = (λ h. ground arith, λ h. ground arith)

-- A reset instant that is found lies in the future.
reset_after_future :
    (now : ℕ) (m b : List ℕ) → (reset_after now m b ≡ 0) ⊎ (now < reset_after now m b)
unfolding reset_after
reset_after_future now m b = ground arith

parse_reset_at_future :
    (now : ℕ) (ms : List (List ℕ)) (b : List ℕ)
    → (parse_reset_at now ms b ≡ 0) ⊎ (now < parse_reset_at now ms b)
unfolding parse_reset_at
parse_reset_at_future now [] b = inl refl
parse_reset_at_future now (m ∷ ms) b =
    ground (arith, parse_reset_at_future now ms b, reset_after_future now m b)

-- What a signal read at the instant `now` says of itself.
abbrev pub IsRead : ℕ → VendorSignal → Type 0
IsRead now v =
    (v.class_ ≢ vendor_none)
    × (v.class_ ≡ classify_vendor_code v.code)
    × ((v.reset_at ≡ 0) ⊎ (now < v.reset_at))

signal_of-IsRead :
    (now : ℕ) (search : List ℕ) (code : ℤ) {v : VendorSignal}
    → signal_of now search code ≡ some v
    → IsRead now v
unfolding signal_of
signal_of-IsRead now search code h = ground (arith, parse_reset_at_future now reset_markers search)

signal_at-IsRead :
    (now : ℕ) (search : List ℕ) (o : Option ℤ) {v : VendorSignal}
    → signal_at now search o ≡ some v
    → IsRead now v
unfolding signal_at
signal_at-IsRead now search none h = ground arith
signal_at-IsRead now search (some code) h = signal_of-IsRead now search code h

signal_in-IsRead :
    (now : ℕ) (o : Option (List ℕ × List ℕ)) {v : VendorSignal}
    → signal_in now o ≡ some v
    → IsRead now v
unfolding signal_in
signal_in-IsRead now none h = ground arith
signal_in-IsRead now (some (found, search)) h =
    signal_at-IsRead now search (parse_int_after (drop (length status_code_field) found)) h

-- A signal that is read from a response has a known class, the one of its code, and a reset instant
-- that is either absent or in the future.
pub parse_vendor_signal-IsRead :
    (now : ℕ) (tail : List ℕ) {v : VendorSignal}
    → parse_vendor_signal now tail ≡ some v
    → IsRead now v
unfolding parse_vendor_signal
parse_vendor_signal-IsRead now tail {v} h = elim (Bool-cases (length tail == 0)) [
  | inl e ↦ signal_in-IsRead now none (unfold signal_in in rw e at h)
  | inr e ↦ signal_in-IsRead now (find_code tail) (rw e at h)
]

-- The value of decimal digits, read from the left after `acc`.
unfoldable pub value_from : ℕ → List ℕ → ℕ
value_from acc [] = acc
value_from acc (d ∷ ds) = value_from (acc * 10 + d) ds

digits_from-value_from :
    (acc : ℕ) (ds : List ℕ) (stop : ℕ) (rest : List ℕ)
    → All (λ d. d < 10) ds
    → leb 48 stop && leb stop 57 ≡ false
    → digits_from acc (map (λ d. 48 + d) ds ++ stop ∷ rest) ≡ value_from acc ds
unfolding digits_from value_from
digits_from-value_from acc [] stop rest v h = rw h refl
digits_from-value_from acc (d ∷ ds) stop rest v h =
    let digit : leb 48 (48 + d) && leb (48 + d) 57 ≡ true = ground (arith, v.0) in
    let same : 48 + d - 48 ≡ d = omega arith in
    rw (digit, same) (digits_from-value_from (acc * 10 + d) ds stop rest v.1 h)

skip-append : (pre bs : List ℕ) → All (λ b. is_skipped b ≡ true) pre → skip (pre ++ bs) ≡ skip bs
unfolding skip
skip-append [] bs v = refl
skip-append (b ∷ pre) bs v = rw v.0 (skip-append pre bs v.1)

skip_digit : (x : ℕ) (bs : List ℕ) → 48 ≤ x → x ≤ 57 → skip (x ∷ bs) ≡ x ∷ bs
unfolding skip
skip_digit x bs low high = ground arith

parse_signed_digit :
    (x : ℕ) (bs : List ℕ)
    → 48 ≤ x
    → x ≤ 57
    → digits_from 0 (x ∷ bs) < 2 ^ 63
    → parse_signed (x ∷ bs) ≡ some (pos (digits_from 0 (x ∷ bs)))
unfolding parse_signed atoi
parse_signed_digit x bs low high small = ground (arith, small)

-- Behind any separators, decimal digits that end at another byte and whose value fits an int64 are
-- read as their value.
pub parse_int_after-value :
    (pre : List ℕ) (d : ℕ) (ds : List ℕ) (stop : ℕ) (rest : List ℕ)
    → All (λ b. is_skipped b ≡ true) pre
    → All (λ x. x < 10) (d ∷ ds)
    → leb 48 stop && leb stop 57 ≡ false
    → value_from 0 (d ∷ ds) < 2 ^ 63
    → parse_int_after (pre ++ (map (λ x. 48 + x) (d ∷ ds) ++ stop ∷ rest))
      ≡ some (pos (value_from 0 (d ∷ ds)))
unfolding parse_int_after
parse_int_after-value pre d ds stop rest sep v h small =
    let bs = map (λ x. 48 + x) (d ∷ ds) ++ stop ∷ rest in
    let whole : digits_from 0 bs ≡ value_from 0 (d ∷ ds) =
      digits_from-value_from 0 (d ∷ ds) stop rest v h in
    let low : 48 ≤ 48 + d = omega arith in
    let high : 48 + d ≤ 57 = omega (arith, v.0) in
    let tail = map (λ x. 48 + x) ds ++ stop ∷ rest in
    ap parse_signed (skip-append pre bs sep ∙ skip_digit (48 + d) tail low high)
    ∙ parse_signed_digit (48 + d) tail low high (omega (arith, whole, small))
    ∙ ap (λ n. some (pos n)) whole
