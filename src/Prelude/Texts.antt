-- ===== src/Prelude/Texts.antt =====
-- What the functions on texts promise: equality of bytes, and the trimming of spaces.
use llm_cluster_router.Prelude.{
  ℕ, ◌≤◌, ◌≡◌, refl, ap, ◌∙◌, inl, inr, List, [], ◌∷◌, true, false, ◌&&◌, ◌==◌, length, Bool-cases,
  arith,
}
use llm_cluster_router.Prelude.Bytes.{bytes_eq, is_space, trim_left, trim_right, trim_space}

pub bytes_eq_refl : (bs : List ℕ) → bytes_eq bs bs ≡ true
unfolding bytes_eq
bytes_eq_refl [] = refl
bytes_eq_refl (b ∷ bs) = ground (arith, bytes_eq_refl bs)

pub bytes_eq_sound : (bs cs : List ℕ) → bytes_eq bs cs ≡ true → bs ≡ cs
unfolding bytes_eq
bytes_eq_sound [] [] h = refl
bytes_eq_sound [] (c ∷ cs) h = cc
bytes_eq_sound (b ∷ bs) [] h = cc
bytes_eq_sound (b ∷ bs) (c ∷ cs) h =
    let here : b ≡ c = ground (arith, h) in
    let rest : bytes_eq bs cs ≡ true = ground (arith, h) in
    ap (λ x. x ∷ bs) here ∙ ap (λ xs. c ∷ xs) (bytes_eq_sound bs cs rest)

pub bytes_eq_sym : (bs cs : List ℕ) → bytes_eq bs cs ≡ bytes_eq cs bs
unfolding bytes_eq
bytes_eq_sym [] [] = refl
bytes_eq_sym [] (c ∷ cs) = refl
bytes_eq_sym (b ∷ bs) [] = refl
bytes_eq_sym (b ∷ bs) (c ∷ cs) = ground (arith, bytes_eq_sym bs cs)

-- A text with no space at its ends.
abbrev pub IsTrimmed : List ℕ → Type 0
IsTrimmed bs = trim_space bs ≡ bs

trim_right_idem : (bs : List ℕ) → trim_right (trim_right bs) ≡ trim_right bs
unfolding trim_right
trim_right_idem [] = refl
trim_right_idem (b ∷ bs) = elim (Bool-cases (is_space b && length (trim_right bs) == 0)) [
  | inl e ↦ rw e refl
  | inr e ↦ rw e (rw (trim_right_idem bs, e) refl)
]

-- The first byte of what is trimmed on the left is no space, or nothing is left.
trim_left-head : (bs : List ℕ) → trim_left (trim_left bs) ≡ trim_left bs
unfolding trim_left
trim_left-head [] = refl
trim_left-head (b ∷ bs) = elim (Bool-cases (is_space b)) [
  | inl e ↦ rw e (trim_left-head bs)
  | inr e ↦ rw (e, e) refl
]

length-trim_left : (bs : List ℕ) → length (trim_left bs) ≤ length bs
unfolding trim_left
length-trim_left [] = omega arith
length-trim_left (b ∷ bs) = ground (arith, length-trim_left bs)

-- A text that trimming on the left keeps does not begin with a space.
no_space : (b : ℕ) (bs : List ℕ) → trim_left (b ∷ bs) ≡ b ∷ bs → is_space b ≡ false
unfolding trim_left
no_space b bs h = elim (Bool-cases (is_space b)) [
  | inl e ↦
      let shorter : trim_left bs ≡ b ∷ bs = rw e at h in
      absurd (omega (arith, length-trim_left bs, ap (λ l. length l) shorter))
  | inr e ↦ e
]

-- Trimming on the right keeps the first byte, if any is left.
trim_left-trim_right : (bs : List ℕ) → trim_left bs ≡ bs → trim_left (trim_right bs) ≡ trim_right bs
unfolding trim_left trim_right
trim_left-trim_right [] h = refl
trim_left-trim_right (b ∷ bs) h = let e : is_space b ≡ false = no_space b bs h in rw (e, e) refl

pub trim_space-IsTrimmed : (bs : List ℕ) → IsTrimmed (trim_space bs)
unfolding trim_space
trim_space-IsTrimmed bs =
    ap trim_right (trim_left-trim_right (trim_left bs) (trim_left-head bs))
    ∙ trim_right_idem (trim_left bs)
