-- ===== src/Usage/Tail.antt =====
-- What the usage extractor keeps, and that its search ends.
use llm_cluster_router.Prelude.{
  ℕ, zero, suc, ◌+◌, ◌-◌, ◌≡◌, ◌≢◌, ◌≤◌, ◌<◌, inl, inr, refl, sym, ◌∙◌, ap, List, [], ◌∷◌, ◌++◌,
  some, true, ltb, ◌==◌, length, drop, take, length-drop, length-append, Bool-cases, Option-cases,
  arith,
}
use mathlib.Core.List.{append_assoc, append-nil}
use llm_cluster_router.VendorError.{has_prefix}
use llm_cluster_router.Usage.{
  usage_tail_bytes, usage_marker, observe, observe_all, last_index, out_of_fuel, search_from,
}

-- The last bytes of a list.
unfoldable pub last_bytes : ℕ → List ℕ → List ℕ
last_bytes n bs = drop (length bs - n) bs

-- A body, whole.
unfoldable pub concat : List (List ℕ) → List ℕ
concat [] = []
concat (c ∷ cs) = c ++ concat cs

drop-append : (k : ℕ) (xs ys : List ℕ) → k ≤ length xs → drop k (xs ++ ys) ≡ drop k xs ++ ys
drop-append zero xs ys h = refl
drop-append (suc k) [] ys h = absurd (omega arith)
drop-append (suc k) (x ∷ xs) ys h = drop-append k xs ys (omega arith)

drop-nil : (k : ℕ) → drop {A = ℕ} k [] ≡ []
drop-nil zero = refl
drop-nil (suc k) = refl

drop-drop : (j k : ℕ) (xs : List ℕ) → drop j (drop k xs) ≡ drop (k + j) xs
drop-drop j zero xs = ap (λ n. drop n xs) (omega arith)
drop-drop j (suc k) [] = drop-nil j ∙ sym (drop-nil (suc k + j))
drop-drop j (suc k) (x ∷ xs) =
    let shifted : suc k + j ≡ suc (k + j) = omega arith in
    drop-drop j k xs ∙ ap (λ n. drop n (x ∷ xs)) (sym shifted)

-- Only the last bytes of what came before matter for the last bytes with a new piece.
last_bytes-append :
    (n : ℕ) (xs ys : List ℕ) → last_bytes n (last_bytes n xs ++ ys) ≡ last_bytes n (xs ++ ys)
unfolding last_bytes
last_bytes-append n xs ys =
    let k = length xs - n in
    let joined : drop k xs ++ ys ≡ drop k (xs ++ ys) = sym (drop-append k xs ys (omega arith)) in
    ap (λ l. drop (length l - n) l) joined
    ∙ drop-drop (length (drop k (xs ++ ys)) - n) k (xs ++ ys)
    ∙ ap (λ j. drop j (xs ++ ys)) (omega (arith, length-drop k (xs ++ ys), length-append xs ys))

no_bytes : (bs : List ℕ) → (length bs == 0) ≡ true → bs ≡ []
no_bytes [] g = refl
no_bytes (b ∷ bs) g = ground arith

observe-last_bytes :
    (tail c : List ℕ)
    → length tail ≤ usage_tail_bytes
    → observe tail c ≡ last_bytes usage_tail_bytes (tail ++ c)
unfolding observe last_bytes
observe-last_bytes tail c h = elim (Bool-cases (length c == 0)) [
  | inl e ↦
      let none_new : c ≡ [] = no_bytes c e in
      let short : length tail - usage_tail_bytes ≡ 0 = omega (arith, h) in
      rw (none_new, append-nil tail, short) refl
  | inr e ↦ elim (Bool-cases (ltb usage_tail_bytes (length (tail ++ c)))) [
    | inl long ↦ rw (e, long) refl
    | inr short ↦
        let all_kept : length (tail ++ c) - usage_tail_bytes ≡ 0 = ground (arith, short) in
        rw (e, short, all_kept) refl
  ]
]

length-last_bytes : (n : ℕ) (xs : List ℕ) → length (last_bytes n xs) ≤ n
unfolding last_bytes
length-last_bytes n xs = omega (arith, length-drop (length xs - n) xs)

observe_all-last_bytes :
    (tail : List ℕ) (cs : List (List ℕ))
    → length tail ≤ usage_tail_bytes
    → observe_all tail cs ≡ last_bytes usage_tail_bytes (tail ++ concat cs)
unfolding observe_all concat
observe_all-last_bytes tail [] h =
    let short : length tail - usage_tail_bytes ≡ 0 = omega (arith, h) in
    unfold last_bytes in rw (append-nil tail, short) refl
observe_all-last_bytes tail (c ∷ cs) h =
    let n = usage_tail_bytes in
    let kept : observe tail c ≡ last_bytes n (tail ++ c) = observe-last_bytes tail c h in
    let small : length (observe tail c) ≤ n = rw kept (length-last_bytes n (tail ++ c)) in
    observe_all-last_bytes (observe tail c) cs small
    ∙ ap (λ t. last_bytes n (t ++ concat cs)) kept
    ∙ last_bytes-append n (tail ++ c) (concat cs)
    ∙ ap (last_bytes n) (append_assoc tail c (concat cs))

-- However a body is cut into reads, the extractor keeps its last 8 KiB.
pub observe_all-body :
    (cs : List (List ℕ)) → observe_all [] cs ≡ last_bytes usage_tail_bytes (concat cs)
observe_all-body cs = observe_all-last_bytes [] cs (omega arith)

last_index-lt :
    (b : ℕ) (ms rest : List ℕ) {i : ℕ} → last_index (b ∷ ms) rest ≡ some i → i < length rest
unfolding last_index
last_index-lt b ms [] h = unfold has_prefix in ground arith
last_index-lt b ms (c ∷ cs) {i} h = elim (Option-cases (last_index (b ∷ ms) cs)) [
  | inl e ↦ ground (arith, e)
  | inr (j, e) ↦ ground (arith, e, last_index-lt b ms cs e)
]

length-take : (k : ℕ) (xs : List ℕ) → k ≤ length xs → length (take k xs) ≡ k
length-take zero xs h = refl
length-take (suc k) [] h = absurd (omega arith)
length-take (suc k) (x ∷ xs) h = ap suc (length-take k xs (omega arith))

search_from_fuel :
    (fuel : ℕ) (rest : List ℕ) → length rest < fuel → search_from fuel rest ≢ out_of_fuel
unfolding search_from
search_from_fuel zero rest h e = omega arith
search_from_fuel (suc fuel) rest h e = elim (Option-cases (last_index usage_marker rest)) [
  | inl gone ↦ ground (arith, gone)
  | inr (i, at) ↦
      let before : i < length rest = last_index-lt 34 (drop 1 usage_marker) rest at in
      let shorter : length (take i rest) < fuel = omega (arith, length-take i rest) in
      ground (arith, at, search_from_fuel fuel (take i rest) shorter)
]

-- The search of Result ends: each round looks at fewer bytes than the one before.
pub search_from-terminates : (tail : List ℕ) → search_from (suc (length tail)) tail ≢ out_of_fuel
search_from-terminates tail = search_from_fuel (suc (length tail)) tail (omega arith)
