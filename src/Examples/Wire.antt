-- ===== src/Examples/Wire.antt =====
-- A cipher that leaves its text and adds a tag of zeros, which is enough to frame.
use llm_cluster_router.Prelude.{
  ℕ, zero, suc, ◌-◌, ◌<◌, ◌≡◌, refl, List, [], ◌∷◌, ◌++◌, some, length, take, replicate, All,
  length-append, ap, arith,
}
use llm_cluster_router.Wire.{Aead, nonce_size, new_reader, times_out, write, read_calls}
use llm_cluster_router.Wire.Records.{IsAead, take-append}
use llm_cluster_router.Wire.Roundtrip.{write-read}

abbrev tag : List ℕ
tag = replicate 16 0

abbrev plain : Aead
plain = record {
  seal = λ nonce p. p ++ tag;
  open_sealed = λ nonce c. some (take (length c - 16) c);
}

plain_opens : (p : List ℕ) → take (length (p ++ tag) - 16) (p ++ tag) ≡ p
plain_opens p =
    let size : length (p ++ tag) - 16 ≡ length p = omega (arith, length-append p tag) in
    rw size (take-append p tag)

plain-IsAead : IsAead plain
plain-IsAead = record {
  opens = λ nonce p. ap some (plain_opens p);
  grows = λ nonce p. length-append p tag;
}

abbrev nonce : ℕ → List ℕ
nonce k = replicate nonce_size k

nonce_sized : (k : ℕ) → length (nonce k) ≡ nonce_size
nonce_sized k = refl

twos : (n : ℕ) → All (λ s. 0 < s) (replicate n 2)
twos zero = tt
twos (suc n) = (omega arith, twos n)

-- Buffers of two bytes for a record of three.
write-read_example :
    read_calls plain times_out (replicate 38 2) (new_reader 0) (write plain nonce (7 ∷ 8 ∷ 9 ∷ []))
    ≡ (new_reader 0, [], 7 ∷ 8 ∷ 9 ∷ [])
unfolding write
write-read_example =
    write-read plain plain-IsAead nonce nonce_sized times_out (replicate 38 2) 0 (7 ∷ 8 ∷ 9 ∷ [])
      (twos 38) (omega arith)

-- The first call gives two bytes and stashes the third.
stashes :
    (read_calls plain times_out
      (2 ∷ [])
      (new_reader 0)
      (write plain nonce (7 ∷ 8 ∷ 9 ∷ []))).0.read_buf
    ≡ 9 ∷ []
unfolding read_calls write
stashes = refl
