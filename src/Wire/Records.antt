-- ===== src/Wire/Records.antt =====
-- What the framing of a reader makes of the bytes of a connection.
use mathlib.Core.List.{append_assoc, append-nil}
use llm_cluster_router.Prelude.{
  ℕ, zero, suc, ◌+◌, ◌≡◌, ◌≤◌, ◌<◌, refl, ◌∙◌, ap, subst, List, [], ◌∷◌, ◌++◌, some, true, false,
  ltb, leb, leb→le, if◌then◌else◌, length, take, drop, length-append, length-drop, Bool-cases, inl,
  inr, arith,
}
use llm_cluster_router.Wire.{
  Aead, max_frame, nonce_size, gcm_tag_size, max_record, put_uint32, uint32_from, write_record,
  write_from, write, in_frame, Framer, FrameEvent, pending, plaintext, reset, finish_frame,
  check_length, accept,
}

-- What the program relies on of AES-GCM.
pub record IsAead (a : Aead) : Type 0 where
  pub opens : (nonce p : List ℕ) → a.open_sealed nonce (a.seal nonce p) ≡ some p
  pub grows : (nonce p : List ℕ) → length (a.seal nonce p) ≡ length p + gcm_tag_size

uint32_from-put_uint32 : (n : ℕ) → n ≤ max_record → uint32_from 0 (put_uint32 n) ≡ n
unfolding uint32_from put_uint32
uint32_from-put_uint32 n h = omega (arith, h)

-- The plaintext of an event.
abbrev pub plain_of : FrameEvent → List ℕ
plain_of (plaintext p) = p
plain_of e = []

module _ (a : Aead) where
  -- All bytes of a connection: the framing after them, and all plaintext in them.
  unfoldable pub read_all : Framer → List ℕ → Framer × List ℕ
  unfolding accept
  read_all f [] = (f, [])
  read_all f (b ∷ bs) =
      let (f', e) = accept a f.tamper_count f.framing b in
      let rest = read_all f' bs in (rest.0, plain_of e ++ rest.1)

  -- What a reader hands out, ahead of what it hands out later.
  abbrev after : Framer × FrameEvent → List ℕ → Framer × List ℕ
  after x more = let rest = read_all x.0 more in (rest.0, plain_of x.1 ++ rest.1)

  read_header :
      (t n : ℕ) (more : List ℕ)
      → n ≤ max_record
      → read_all (reset t) (put_uint32 n ++ more) ≡ after (check_length t n) more
  unfolding read_all accept put_uint32
  read_header t n more h = ap (λ k. after (check_length t k) more) (uint32_from-put_uint32 n h)

  read_frame :
      (t n : ℕ) (f : List ℕ) (b : ℕ) (bs more : List ℕ)
      → length f + suc (length bs) ≡ n
      → read_all (record { framing = in_frame n f; tamper_count = t }) (b ∷ bs ++ more)
        ≡ after
            (finish_frame t
              (a.open_sealed (take nonce_size (f ++ b ∷ bs)) (drop nonce_size (f ++ b ∷ bs))))
            more
  unfolding read_all accept
  read_frame t n f b [] more h =
      let full : ltb (length (f ++ b ∷ [])) n ≡ false =
        ground (arith, length-append f (b ∷ []), h) in
      rw full refl
  read_frame t n f b (c ∷ bs) more h =
      let more_to_come : ltb (length (f ++ b ∷ [])) n ≡ true =
        ground (arith, length-append f (b ∷ []), h) in
      let rest =
        read_frame t n (f ++ b ∷ []) c bs more (omega (arith, h, length-append f (b ∷ []))) in
      rw more_to_come (
        subst
          (λ g.
            read_all (record { framing = in_frame n (f ++ b ∷ []); tamper_count = t })
              (c ∷ bs ++ more)
            ≡ after (finish_frame t (a.open_sealed (take nonce_size g) (drop nonce_size g))) more)
          (append_assoc f (b ∷ []) (c ∷ bs)) rest)

pub take-append : (xs ys : List ℕ) → take (length xs) (xs ++ ys) ≡ xs
take-append [] ys = refl
take-append (x ∷ xs) ys = ap (λ zs. x ∷ zs) (take-append xs ys)

drop-append : (xs ys : List ℕ) → drop (length xs) (xs ++ ys) ≡ ys
drop-append [] ys = refl
drop-append (x ∷ xs) ys = drop-append xs ys

pub take_append_drop : (n : ℕ) (xs : List ℕ) → take n xs ++ drop n xs ≡ xs
take_append_drop zero xs = refl
take_append_drop (suc n) [] = refl
take_append_drop (suc n) (x ∷ xs) = ap (λ zs. x ∷ zs) (take_append_drop n xs)

take_all : (n : ℕ) (xs : List ℕ) → length xs ≤ n → take n xs ≡ xs
take_all zero [] h = refl
take_all zero (x ∷ xs) h = absurd (omega arith)
take_all (suc n) [] h = refl
take_all (suc n) (x ∷ xs) h = ap (λ zs. x ∷ zs) (take_all n xs (omega arith))

length-take_le : (n : ℕ) (xs : List ℕ) → length (take n xs) ≤ n
length-take_le zero xs = omega arith
length-take_le (suc n) [] = omega arith
length-take_le (suc n) (x ∷ xs) = omega (arith, length-take_le n xs)

drop_shorter :
    (m : ℕ) (p : List ℕ) (fuel : ℕ)
    → 0 < m
    → leb (length p) m ≡ false
    → length p < suc fuel
    → length (drop m p) < fuel
drop_shorter m p fuel positive long h =
    let above : m < length p = ground (arith, long) in
    omega (arith, length-drop m p, above, positive, h)

module _ (a : Aead) (aead : IsAead a) (nonces : ℕ → List ℕ)
    (sized : (k : ℕ) → length (nonces k) ≡ nonce_size) where
  read_whole :
      (t n : ℕ) (s more : List ℕ)
      → length s ≡ n
      → 0 < n
      → read_all a (record { framing = in_frame n []; tamper_count = t }) (s ++ more)
        ≡ after a (finish_frame t (a.open_sealed (take nonce_size s) (drop nonce_size s))) more
  read_whole t n [] more h k = absurd (omega (arith, h, k))
  read_whole t n (b ∷ bs) more h k = read_frame a t n [] b bs more (omega (arith, h))

  check_length-fits :
      (t n : ℕ)
      → 28 ≤ n
      → n ≤ max_record
      → check_length t n ≡ (record { framing = in_frame n []; tamper_count = t }, pending)
  unfolding check_length
  check_length-fits t n low high = ground (arith, low, high)

  sealed_opens :
      (k : ℕ) (chunk : List ℕ)
      → let s = nonces k ++ a.seal (nonces k) chunk in
        a.open_sealed (take nonce_size s) (drop nonce_size s) ≡ some chunk
  sealed_opens k chunk =
      let n = nonces k in
      let c = a.seal n chunk in
      let front : take nonce_size (n ++ c) ≡ n =
        subst (λ m. take m (n ++ c) ≡ n) (sized k) (take-append n c) in
      let back : drop nonce_size (n ++ c) ≡ c =
        subst (λ m. drop m (n ++ c) ≡ c) (sized k) (drop-append n c) in
      rw (front, back) (aead.opens n chunk)

  -- A record of at most `maxFrame` bytes is read back.
  read_chunk :
      (t k : ℕ) (chunk more : List ℕ)
      → length chunk ≤ max_frame
      → read_all a (reset t) (write_record a (nonces k) chunk ++ more)
        ≡ after a (reset t, plaintext chunk) more
  unfolding write_record finish_frame
  read_chunk t k chunk more h =
      let s = nonces k ++ a.seal (nonces k) chunk in
      let size : length s ≡ 28 + length chunk = omega (
        arith,
        length-append (nonces k) (a.seal (nonces k) chunk),
        sized k,
        aead.grows (nonces k) chunk,
      ) in
      read_header a t (length s) (s ++ more) (omega (arith, size, h))
      ∙ ap (λ x. after a x (s ++ more))
          (check_length-fits t (length s) (omega (arith, size)) (omega (arith, size, h)))
      ∙ read_whole t (length s) s more refl (omega (arith, size))
      ∙ ap (λ o. after a (finish_frame t o) more) (sealed_opens k chunk)

  write_from-read :
      (t k fuel : ℕ) (p : List ℕ)
      → length p < fuel
      → read_all a (reset t) (write_from a nonces k fuel p) ≡ (reset t, p)
  unfolding write_from read_all
  write_from-read t k zero p h = absurd (omega arith)
  write_from-read t k (suc fuel) p h =
      let chunk = take max_frame p in
      let later = write_from a nonces (k + 1) fuel (drop max_frame p) in
      let small = length-take_le max_frame p in
      elim (Bool-cases (leb (length p) max_frame)) [
        | inl last ↦
            let all : chunk ≡ p = take_all max_frame p (leb→le (length p) max_frame last) in
            ap
              (λ b.
                read_all a (reset t) (write_record a (nonces k) chunk ++ (if b then [] else later)))
              last
            ∙ read_chunk t k chunk [] small
            ∙ ap (λ x. (reset t, x)) (append-nil chunk ∙ all)
        | inr long ↦
            let shorter = drop_shorter max_frame p fuel (omega arith) long h in
            ap
              (λ b.
                read_all a (reset t) (write_record a (nonces k) chunk ++ (if b then [] else later)))
              long
            ∙ read_chunk t k chunk later small
            ∙ ap (λ x. (x.0, chunk ++ x.1))
                (write_from-read t (k + 1) fuel (drop max_frame p) shorter)
            ∙ ap (λ x. (reset t, x)) (take_append_drop max_frame p)
      ]

  -- The bytes of one Write hold its plaintext, and leave the framing ready for the next record.
  pub write-read_all : (t : ℕ) (p : List ℕ) → read_all a (reset t) (write a nonces p) ≡ (reset t, p)
  unfolding write
  write-read_all t p = write_from-read t 0 (suc (length p)) p (omega arith)
